-- ===== src/IndexLog/RoundTrip.antt =====
-- src/indexlog.c and tools/replay_journal.c: from the first append to the last fetch.
use linglongta.Prelude.{
  ℕ, ◌<◌, ◌≡◌, refl, sym, ap, ◌∙◌, arith, subst, some, List, [], ◌++◌, map, append-nil, length, All,
  Bool, true, negsuc,
}
use linglongta.Storage.Types.{LogItem, done}
use linglongta.IndexLog.Encoding.{as_fetched, Fits}
use linglongta.IndexLog.Writer.{
  IndexLogger, CreateEnv, created, magic_header, index_logger_create, index_logger_close,
  append_all,
}
use linglongta.IndexLog.Reader.{LogReader, fetch_magic, index_logger_open, replay}
use linglongta.IndexLog.Blocks.{
  ItemLog, no_items, flat, all_items, log_flush, log_append_all, all_items-log_flush,
  all_items-log_append_all, encode_items, encode_blocks, IsLog,
}
use linglongta.IndexLog.Keeps.{created-IsLog, append_all-IsLog, flush-IsLog}
use linglongta.IndexLog.Replay.{Starts, replay_all}

create-created :
    (env : CreateEnv) (il : IndexLogger) → index_logger_create env ≡ done (true, il) → il ≡ created
unfolding index_logger_create
create-created env il e = ground arith

-- a reader in front of the magic number
abbrev opened : List ℕ → LogReader
opened file = record {
  unread = file;
  file_offset = 0;
  fetch_pos = 0;
  fetch_records_amount = negsuc 0;
  fetch_id = negsuc 0;
}

waiting-log_flush : (g : ItemLog) → (log_flush g).waiting ≡ []
unfolding log_flush
waiting-log_flush g = ground arith

opened-Starts :
    (crc32_calc : List ℕ → ℕ) (il : IndexLogger) (g : ItemLog)
    → IsLog crc32_calc il g
    → Starts crc32_calc (opened (magic_header ++ encode_blocks crc32_calc g.blocks)) [] g.blocks
unfolding fetch_magic encode_items
opened-Starts crc32_calc il g h = (
  record (opened (encode_blocks crc32_calc g.blocks)) { file_offset = 4 },
  refl,
  record { unread = refl; inside = refl; begun = omega arith; fits = tt; blocks = h.blocks },
)

module _ (crc32_calc : List ℕ → ℕ) (can_alloc : ℕ → Bool) (memory : (n : ℕ) → can_alloc n ≡ true)
    (written : ℕ → ℕ) (whole : (n : ℕ) → written n ≡ n) where
  replay-close :
      (il : IndexLogger) (g : ItemLog)
      → IsLog crc32_calc il g
      → (n : ℕ) → length (all_items g) < n
      → replay can_alloc n (opened (index_logger_close crc32_calc written il).1)
        ≡ (map as_fetched (all_items g), true)
  unfolding index_logger_close
  replay-close il g h n lt =
      ap (λ file. replay can_alloc n (opened file))
        (flush-IsLog crc32_calc written il g h whole).1.file
      ∙ replay_all crc32_calc can_alloc memory n _ [] (log_flush g).blocks
          (opened-Starts crc32_calc _ (log_flush g) (flush-IsLog crc32_calc written il g h whole).1)
          (subst (λ l. length l < n) (sym blocks_all) lt)
      ∙ ap (λ l. (map as_fetched l, true)) blocks_all
    where
      blocks_all : flat (log_flush g).blocks ≡ all_items g
      blocks_all =
          sym (append-nil (flat (log_flush g).blocks))
          ∙ ap (λ l. flat (log_flush g).blocks ++ l) (sym (waiting-log_flush g))
          ∙ all_items-log_flush g

  -- Where memory is to be had and the kernel takes whole writes: items whose fields fit their C types and
  -- that are appended to a new index log come back, in order and complete, from the loop
  -- that fetches them once the log has been closed and opened again; and that loop ends.
  pub replay-append_all :
      (env : CreateEnv) (il : IndexLogger)
      → index_logger_create env ≡ done (true, il)
      → (ilis : List LogItem) → All Fits ilis
      → (n : ℕ) → length ilis < n
      → (r : LogReader) × (index_logger_open true
            (index_logger_close crc32_calc written (append_all crc32_calc written ilis il)).1
          ≡ some r)
        × (replay can_alloc n r ≡ (map as_fetched ilis, true))
  unfolding index_logger_open flat
  replay-append_all env il made ilis fits n lt = (
    opened _,
    refl,
    replay-close _ (log_append_all ilis no_items)
          (append_all-IsLog crc32_calc written whole il no_items ilis
            (subst (λ l. IsLog crc32_calc l no_items) (sym (create-created env il made))
              (created-IsLog crc32_calc))
            fits)
          n (subst (λ l. length l < n) (sym (all_items-log_append_all ilis no_items)) lt)
        ∙ ap (λ l. (map as_fetched l, true)) (all_items-log_append_all ilis no_items),
  )
