-- ===== src/IndexLog/Bounds.antt =====
-- src/indexlog.c: whatever the kernel answers, an append stays in its buffer.
use linglongta.Prelude.{
  ℕ, ◌*◌, ◌<◌, ◌≤◌, ◌≡◌, ◌∙◌, ap, arith, List, [], ◌∷◌, ◌++◌, length, Bool-cases, inl, inr, ◌==◌, ℤ,
  pos, negsuc,
}
use linglongta.Storage.Types.{LogItem}
use linglongta.Storage.Bytes.{write_bytes_outside}
use linglongta.IndexLog.Encoding.{Fits}
use linglongta.IndexLog.Writer.{
  IndexLogger, switch_buffer, with_crc, sync_index_log, put_item, put_after, index_logger_append,
  log_buf_size,
}
use linglongta.IndexLog.Blocks.{block_capacity, encode_item, length-encode_item, IsBuf}
use linglongta.IndexLog.Append.{item_written, put_item-IsBuf, switched-Synced}
use linglongta.IndexLog.Keeps.{append_full, append_room, full_of_length}

-- Both buffers end in this byte, behind the room for items.
pub record EndsIn (v p : ℕ) (il : IndexLogger) : Type 0 where
  pub working : il.working_buffer.buf_ptr p ≡ v
  pub storing : il.storing_buffer.buf_ptr p ≡ v

-- What an append leaves: a sound working buffer, and the bytes behind both as they were.
pub record InBounds (v p : ℕ) (il : IndexLogger) : Type 0 where
  pub items : List LogItem
  pub sound : IsBuf il.working_buffer items
  pub ends : EndsIn v p il

module _ (ili : LogItem) (fits : Fits ili) (v p : ℕ) (beyond : log_buf_size ≤ p) where
  put_item-InBounds :
      (il : IndexLogger) (xs : List LogItem)
      → IsBuf il.working_buffer xs
      → length xs < block_capacity
      → EndsIn v p il
      → InBounds v p (put_item ili il)
  unfolding put_item
  put_item-InBounds il xs b room e = record {
    items = xs ++ ili ∷ [];
    sound = put_item-IsBuf il xs ili b fits room;
    ends = record {
      working =
          ap (λ f. f p)
            (item_written il.working_buffer.buf_ptr (il.working_buffer.count * 44) ili fits)
          ∙ write_bytes_outside il.working_buffer.buf_ptr (il.working_buffer.count * 44)
              (encode_item ili) p (inr (omega (arith, b.counts, length-encode_item ili fits)))
          ∙ e.working;
      storing = e.storing;
    };
  }

  module _ (crc32_calc : List ℕ → ℕ) (written : ℕ → ℕ) where
    synced-EndsIn :
        (il : IndexLogger)
        → EndsIn v p il
        → EndsIn v p (sync_index_log crc32_calc written (switch_buffer il)).1
    unfolding sync_index_log switch_buffer with_crc
    synced-EndsIn il e = record { working = e.storing; storing = e.working }

    put_after-InBounds :
        (r : ℤ × IndexLogger)
        → IsBuf r.1.working_buffer []
        → EndsIn v p r.1
        → InBounds v p (put_after ili r).1
    put_after-InBounds (pos n, il) b e = put_item-InBounds il [] b (omega arith) e
    put_after-InBounds (negsuc n, il) b e = record { items = []; sound = b; ends = e }

    -- Whatever the kernel answers: from a sound working buffer `index_logger_append` of an item whose fields
    -- fit leaves a sound working buffer, of no more than 186 items, and changes no byte behind the end of
    -- either buffer.
    pub append-InBounds :
        (il : IndexLogger) (xs : List LogItem)
        → IsBuf il.working_buffer xs
        → EndsIn v p il
        → InBounds v p (index_logger_append crc32_calc written ili il).1
    append-InBounds il xs b e = elim (Bool-cases (length xs == block_capacity)) [
      | inl full ↦
          rw
            (append_full crc32_calc written il ili
              (full_of_length crc32_calc written il xs b ∙ full))
            (put_after-InBounds (sync_index_log crc32_calc written (switch_buffer il))
              (switched-Synced crc32_calc written il xs b).working (synced-EndsIn il e))
      | inr room ↦
          rw
            (append_room crc32_calc written il ili
              (full_of_length crc32_calc written il xs b ∙ room))
            (put_item-InBounds il xs b (ground (arith, b.no_more)) e)
    ]
