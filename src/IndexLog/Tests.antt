-- ===== src/IndexLog/Tests.antt =====
-- The theorems on the index log at concrete items.
use linglongta.Prelude.{
  ℕ, zero, suc, ◌≡◌, ◌++◌, refl, arith, some, List, [], ◌∷◌, map, length, replicate, take, All,
  true, pos, negsuc,
}
use linglongta.Storage.Types.{LogItem, OpType, done}
use linglongta.IndexLog.Encoding.{as_fetched, Fits}
use linglongta.IndexLog.Writer.{
  CreateEnv, created, index_logger_create, index_logger_append, index_logger_close, append_all,
  IndexLogger,
}
use linglongta.IndexLog.Reader.{LogReader, index_logger_open, replay}
use linglongta.IndexLog.Blocks.{no_items, log_append, log_append_all, encode_block, IsLog, IsBuf}
use linglongta.IndexLog.Keeps.{created-IsLog, append-IsLog, append_all-IsLog, append-short_write}
use linglongta.IndexLog.RoundTrip.{replay-append_all}
use linglongta.IndexLog.Bounds.{InBounds, append-InBounds}

abbrev crc : List ℕ → ℕ
crc bs = length bs

abbrev all_written : ℕ → ℕ
all_written n = n

abbrev working_env : CreateEnv
working_env = record { has_memory = true; dir_ready = true; opened = true; written = all_written }

abbrev added : LogItem
added = record {
  type = OpType.index_append;
  index_key = replicate 16 b'k';
  index_value = record { crc32 = 77; block_id = 2; data_size = 300; offset = 800_024 };
}

abbrev removed : LogItem
removed = record {
  type = OpType.index_del;
  index_key = replicate 16 b'j';
  index_value = record { crc32 = 5; block_id = 0; data_size = 3; offset = 800_024 };
}

added-Fits : Fits added
added-Fits = omega arith

removed-Fits : Fits removed
removed-Fits = omega arith

create_works : index_logger_create working_env ≡ done (true, created)
unfolding index_logger_create
create_works = refl

replay-append_all_example :
    (r : LogReader) × (index_logger_open true
        (index_logger_close crc all_written
          (append_all crc all_written (added ∷ removed ∷ []) created)).1
      ≡ some r)
    × (replay (λ _. true) 3 r ≡ (map as_fetched (added ∷ removed ∷ []), true))
replay-append_all_example =
    replay-append_all crc (λ _. true) (λ _. refl) all_written (λ _. refl) working_env created
      create_works (added ∷ removed ∷ []) (added-Fits, (removed-Fits, tt)) 3 (omega arith)

append-IsLog_example :
    ((index_logger_append crc all_written added created).0 ≡ pos 0)
    × IsLog crc (index_logger_append crc all_written added created).1 (log_append added no_items)
append-IsLog_example =
    append-IsLog crc all_written created no_items added (created-IsLog crc) added-Fits (λ _. refl)

append-InBounds_example : InBounds 0 8184 (index_logger_append crc (λ _. 0) added created).1
append-InBounds_example =
    append-InBounds added added-Fits 0 8184 (omega arith) crc (λ _. 0) created []
      (created-IsLog crc).working (record { working = refl; storing = refl })

All-replicate : {A : Type 0} (P : A → Type 0) (n : ℕ) (a : A) → P a → All P (replicate n a)
All-replicate P zero a h = tt
All-replicate P (suc n) a h = (h, All-replicate P n a h)

-- A logger whose working buffer is full.
abbrev full_log : IndexLogger
full_log = append_all crc all_written (replicate 186 added) created

full_log-IsBuf : IsBuf full_log.working_buffer (replicate 186 added)
unfolding log_append_all log_append
full_log-IsBuf =
    (append_all-IsLog crc all_written (λ _. refl) created no_items (replicate 186 added)
      (created-IsLog crc) (All-replicate Fits 186 added added-Fits)).working

append-short_write_example :
    ((index_logger_append crc (λ _. 0) removed full_log).0 ≡ negsuc 0)
    × IsBuf (index_logger_append crc (λ _. 0) removed full_log).1.working_buffer []
    × ((index_logger_append crc (λ _. 0) removed full_log).1.file
        ≡ full_log.file ++ take 0 (encode_block crc (replicate 186 added)))
append-short_write_example =
    append-short_write crc (λ _. 0) full_log (replicate 186 added) removed full_log-IsBuf refl
      (λ e. absurd (omega (arith, e)))
