-- ===== src/IndexLog/Keeps.antt =====
-- src/indexlog.c: each append and the flush against the log of items.
use linglongta.Prelude.{
  ℕ, ◌+◌, ◌*◌, ◌≤◌, ◌≡◌, ◌≢◌, refl, sym, ap, ◌∙◌, arith, List, [], ◌∷◌, ◌++◌, append_assoc, length,
  All, All-append, take, take_all, ltb, ◌==◌, Bool, Bool-cases, true, false, inl, inr, ℤ, pos,
  negsuc,
}
use linglongta.Storage.Types.{LogItem, as_u32}
use linglongta.Storage.Bytes.{read_bytes}
use linglongta.IndexLog.Encoding.{Fits}
use linglongta.IndexLog.Writer.{
  IndexLogger, magic_header, switch_buffer, sync_index_log, put_item, put_after, created,
  item_bytes, index_logger_append, index_logger_flush, append_all, log_buf_size,
}
use linglongta.IndexLog.Blocks.{
  ItemLog, log_append, log_flush, log_append_all, block_capacity, encode_block, encode_blocks,
  encode_items, no_items, encode_blocks-snoc, IsBlock, IsBuf, IsLog,
}
use linglongta.IndexLog.Append.{put_item-IsBuf, length-encode_block, Synced, switched-Synced}

pub put_after_done :
    (ili : LogItem) (r : ℤ × IndexLogger)
    → r.0 ≡ pos 0
    → put_after ili r ≡ (pos 0, put_item ili r.1)
put_after_done ili (pos n, il) e = ground arith
put_after_done ili (negsuc n, il) e = cc

pub put_after_failed :
    (ili : LogItem) (r : ℤ × IndexLogger) → r.0 ≡ negsuc 0 → put_after ili r ≡ (negsuc 0, r.1)
put_after_failed ili (pos n, il) e = cc
put_after_failed ili (negsuc n, il) e = ground arith

nonempty : (xs : List LogItem) → length xs ≡ block_capacity → xs ≢ []
nonempty xs h e = absurd (omega (arith, ap (length {A = LogItem}) e))

file-put_item : (ili : LogItem) (il : IndexLogger) → (put_item ili il).file ≡ il.file
unfolding put_item
file-put_item ili il = refl

-- The test of `index_logger_append` for a full buffer.
abbrev pub is_full : ℕ → Bool
is_full n = ltb log_buf_size (as_u32 (n + 1) * 44)

pub is_full_iff : (n : ℕ) → n ≤ block_capacity → is_full n ≡ (n == block_capacity)
unfolding as_u32
is_full_iff n h = ground arith

module _ (crc32_calc : List ℕ → ℕ) (written : ℕ → ℕ) (il : IndexLogger) where
  pub append_full :
      (ili : LogItem)
      → is_full il.working_buffer.count ≡ true
      → index_logger_append crc32_calc written ili il
        ≡ put_after ili (sync_index_log crc32_calc written (switch_buffer il))
  unfolding index_logger_append
  append_full ili e = rw e

  pub append_room :
      (ili : LogItem)
      → is_full il.working_buffer.count ≡ false
      → index_logger_append crc32_calc written ili il ≡ (pos 0, put_item ili il)
  unfolding index_logger_append
  append_room ili e = rw e

  pub full_of_length :
      (xs : List LogItem)
      → IsBuf il.working_buffer xs
      → is_full il.working_buffer.count ≡ (length xs == block_capacity)
  full_of_length xs b = ap is_full b.counts ∙ is_full_iff (length xs) b.no_more

  -- Where the file system takes less than the whole of a full buffer, `index_logger_append` returns -1.
  -- The new item is not in the log, and of the 186 items that it had accepted before none waits any more: the file has only what got written of them.
  pub append-short_write :
      (xs : List LogItem) (ili : LogItem)
      → IsBuf il.working_buffer xs
      → length xs ≡ block_capacity
      → written 8192 ≢ 8192
      → ((index_logger_append crc32_calc written ili il).0 ≡ negsuc 0)
        × IsBuf (index_logger_append crc32_calc written ili il).1.working_buffer []
        × ((index_logger_append crc32_calc written ili il).1.file
            ≡ il.file ++ take (written 8192) (encode_block crc32_calc xs))
  append-short_write xs ili b full short =
      rw (append_full ili (full_of_length xs b ∙ ap (λ n. n == block_capacity) full)) (
        rw
          (put_after_failed ili (sync_index_log crc32_calc written (switch_buffer il))
            (s.code ∙ ground arith))
          (
            refl,
            s.working,
            s.file
                ∙ ap (λ n. il.file ++ take (written (n * 44 + 8)) (encode_block crc32_calc xs))
                    full,
          ))
    where
      s : Synced crc32_calc written xs il (sync_index_log crc32_calc written (switch_buffer il))
      s = switched-Synced crc32_calc written il xs b

  waiting-IsBlock : (g : ItemLog) → IsLog crc32_calc il g → g.waiting ≢ [] → IsBlock g.waiting
  waiting-IsBlock g h ne = record {
    some_item = ne;
    no_more = h.working.no_more;
    fits = h.working.fits;
  }

  -- A sync of which the kernel takes all bytes adds a block to the file.
  block_written :
      (g : ItemLog)
      → IsLog crc32_calc il g
      → ((n : ℕ) → written n ≡ n)
      → (file : List ℕ)
      → file
        ≡ il.file ++ take (written (length g.waiting * 44 + 8)) (encode_block crc32_calc g.waiting)
      → file ≡ magic_header ++ encode_blocks crc32_calc (g.blocks ++ g.waiting ∷ [])
  block_written g h whole file e =
      e
      ∙ ap (λ l. il.file ++ l)
          (ap (λ n. take n (encode_block crc32_calc g.waiting)) (whole (length g.waiting * 44 + 8))
            ∙ take_all _ _ (omega (arith, length-encode_block crc32_calc g.waiting h.working.fits)))
      ∙ ap (λ l. l ++ encode_block crc32_calc g.waiting) h.file
      ∙ append_assoc magic_header (encode_blocks crc32_calc g.blocks)
          (encode_block crc32_calc g.waiting)
      ∙ ap (λ l. magic_header ++ l) (sym (encode_blocks-snoc crc32_calc g.blocks g.waiting))

  append_full-IsLog :
      (g : ItemLog) (ili : LogItem)
      → IsLog crc32_calc il g
      → Fits ili
      → ((n : ℕ) → written n ≡ n)
      → length g.waiting ≡ block_capacity
      → ((index_logger_append crc32_calc written ili il).0 ≡ pos 0)
        × IsLog crc32_calc
            (index_logger_append crc32_calc written ili il).1
            (record { blocks = g.blocks ++ g.waiting ∷ []; waiting = ili ∷ [] })
  append_full-IsLog g ili h fits whole full =
      rw (append_full ili (full_of_length g.waiting h.working ∙ ap (λ n. n == block_capacity) full))
        (rw
          (put_after_done ili (sync_index_log crc32_calc written (switch_buffer il))
            (s.code ∙ ground (arith, whole (length g.waiting * 44 + 8))))
          (
            refl,
            record {
              file =
                  file-put_item ili (sync_index_log crc32_calc written (switch_buffer il)).1
                  ∙ block_written g h whole _ s.file;
              working = put_item-IsBuf _ [] ili s.working fits (omega arith);
              blocks =
                  All-append IsBlock g.blocks (g.waiting ∷ []) h.blocks
                    (waiting-IsBlock g h (nonempty g.waiting full), tt);
            },
          ))
    where
      s :
          Synced crc32_calc written g.waiting il
            (sync_index_log crc32_calc written (switch_buffer il))
      s = switched-Synced crc32_calc written il g.waiting h.working

  append_room-IsLog :
      (g : ItemLog) (ili : LogItem)
      → IsLog crc32_calc il g
      → Fits ili
      → (length g.waiting == block_capacity) ≡ false
      → ((index_logger_append crc32_calc written ili il).0 ≡ pos 0)
        × IsLog crc32_calc
            (index_logger_append crc32_calc written ili il).1
            (record { blocks = g.blocks; waiting = g.waiting ++ ili ∷ [] })
  append_room-IsLog g ili h fits room =
      rw (append_room ili (full_of_length g.waiting h.working ∙ room)) (
        refl,
        record {
          file = file-put_item ili il ∙ h.file;
          working =
              put_item-IsBuf il g.waiting ili h.working fits (ground (arith, h.working.no_more));
          blocks = h.blocks;
        },
      )

  -- With a kernel that takes whole writes, `index_logger_append` returns 0 and appends the item to the log.
  pub append-IsLog :
      (g : ItemLog) (ili : LogItem)
      → IsLog crc32_calc il g
      → Fits ili
      → ((n : ℕ) → written n ≡ n)
      → ((index_logger_append crc32_calc written ili il).0 ≡ pos 0)
        × IsLog crc32_calc (index_logger_append crc32_calc written ili il).1 (log_append ili g)
  unfolding log_append
  append-IsLog g ili h fits whole = elim (Bool-cases (length g.waiting == block_capacity)) [
    | inl full ↦ rw full (append_full-IsLog g ili h fits whole (ground arith))
    | inr room ↦ rw room (append_room-IsLog g ili h fits room)
  ]

  flush_empty :
      (il.working_buffer.count == 0) ≡ true → index_logger_flush crc32_calc written il ≡ (pos 0, il)
  unfolding index_logger_flush
  flush_empty e = rw e

  flush_waiting :
      (il.working_buffer.count == 0) ≡ false
      → index_logger_flush crc32_calc written il
        ≡ sync_index_log crc32_calc written (switch_buffer il)
  unfolding index_logger_flush
  flush_waiting e = rw e

  -- `index_logger_flush` writes what waits, if anything does.
  pub flush-IsLog :
      (g : ItemLog)
      → IsLog crc32_calc il g
      → ((n : ℕ) → written n ≡ n)
      → ((index_logger_flush crc32_calc written il).0 ≡ pos 0)
        × IsLog crc32_calc (index_logger_flush crc32_calc written il).1 (log_flush g)
  unfolding log_flush
  flush-IsLog g h whole = elim (Bool-cases (length g.waiting == 0)) [
    | inl empty ↦ rw empty (rw (flush_empty (ap (λ n. n == 0) h.working.counts ∙ empty)) (refl, h))
    | inr waits ↦ rw waits (
        rw (flush_waiting (ap (λ n. n == 0) h.working.counts ∙ waits)) (
          s.code ∙ ground (arith, whole (length g.waiting * 44 + 8)),
          record {
            file = block_written g h whole _ s.file;
            working = s.working;
            blocks = All-append IsBlock g.blocks (g.waiting ∷ []) h.blocks (
              waiting-IsBlock g h (λ e. cc (sym waits, ap (λ l. length {A = LogItem} l == 0) e)),
              tt,
            );
          },
        ))
  ]
    where
      s :
          Synced crc32_calc written g.waiting il
            (sync_index_log crc32_calc written (switch_buffer il))
      s = switched-Synced crc32_calc written il g.waiting h.working

module _ (crc32_calc : List ℕ → ℕ) (written : ℕ → ℕ) (whole : (n : ℕ) → written n ≡ n) where
  pub append_all-IsLog :
      (il : IndexLogger) (g : ItemLog) (ilis : List LogItem)
      → IsLog crc32_calc il g
      → All Fits ilis
      → IsLog crc32_calc (append_all crc32_calc written ilis il) (log_append_all ilis g)
  unfolding append_all log_append_all
  append_all-IsLog il g [] h fits = h
  append_all-IsLog il g (ili ∷ ilis) h (f, fits) =
      append_all-IsLog (index_logger_append crc32_calc written ili il).1 (log_append ili g) ilis
        (append-IsLog crc32_calc written il g ili h f whole).1 fits

-- `index_logger_create` leaves an empty log.
pub created-IsLog : (crc32_calc : List ℕ → ℕ) → IsLog crc32_calc created no_items
unfolding item_bytes encode_items encode_blocks read_bytes
created-IsLog crc32_calc = record {
  file = refl;
  working = record { counts = refl; holds = refl; no_more = omega arith; fits = tt };
  blocks = tt;
}
