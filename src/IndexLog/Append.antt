-- ===== src/IndexLog/Append.antt =====
-- src/indexlog.c: `index_logger_append` and `index_logger_flush` do to the buffers and the file what the log
-- of items means, as long as the kernel takes all bytes of a write; and what is lost where it does not.
use linglongta.Prelude.{
  ℕ, suc, ◌+◌, ◌*◌, ◌%◌, ◌^◌, ◌<◌, ◌≡◌, refl, sym, ap, ◌∙◌, arith, List, [], ◌∷◌, ◌++◌, append-nil,
  length, length-append, All, All-append, take, ◌==◌, if◌then◌else◌, inl, ℤ, pos, negsuc, subst,
}
use linglongta.Storage.Types.{LogItem, as_u32}
use linglongta.Storage.Bytes.{
  write_bytes, read_bytes, write_bytes-append, read_bytes-add, read_bytes-write_bytes,
  read_bytes-write_bytes_apart,
}
use linglongta.IndexLog.Encoding.{op_code, le_bytes, length-le_bytes, value_bytes, Fits}
use linglongta.IndexLog.Writer.{
  Buf, IndexLogger, item_bytes, switch_buffer, with_crc, buf_bytes, sync_index_log, put_item,
}
use linglongta.IndexLog.Blocks.{
  block_capacity, encode_item, length-encode_item, encode_items, encode_items-append,
  length-encode_items, encode_block, IsBuf,
}

-- the three `memcpy` of an item are one write of its bytes
pub item_written :
    (f : ℕ → ℕ) (p : ℕ) (ili : LogItem)
    → Fits ili
    → write_bytes
        (write_bytes (write_bytes f p (le_bytes 4 (op_code ili.type))) (p + 4) ili.index_key)
        (p + 4 + 16)
        (value_bytes ili.index_value)
      ≡ write_bytes f p (encode_item ili)
unfolding encode_item
item_written f p ili fits =
    sym (
      ap
        (λ n.
          write_bytes
            (write_bytes (write_bytes f p (le_bytes 4 (op_code ili.type))) (p + 4) ili.index_key)
            (p + 4 + n) (value_bytes ili.index_value))
        fits.key)
    ∙ write_bytes-append (write_bytes f p (le_bytes 4 (op_code ili.type))) (p + 4) ili.index_key
        (value_bytes ili.index_value)
    ∙ subst
        (λ n.
          write_bytes (write_bytes f p (le_bytes 4 (op_code ili.type))) (p + n)
            (ili.index_key ++ value_bytes ili.index_value)
          ≡ write_bytes f p
              (le_bytes 4 (op_code ili.type) ++ (ili.index_key ++ value_bytes ili.index_value)))
        (length-le_bytes 4 (op_code ili.type))
        (write_bytes-append f p (le_bytes 4 (op_code ili.type))
          (ili.index_key ++ value_bytes ili.index_value))

-- The bytes of n + 1 items, where the last one has just been written.
read_one_more :
    (f : ℕ → ℕ) (n : ℕ) (xs : List ℕ)
    → length xs ≡ 44
    → read_bytes (write_bytes f (n * 44) xs) 0 (suc n * 44) ≡ read_bytes f 0 (n * 44) ++ xs
read_one_more f n xs h =
    ap (read_bytes (write_bytes f (n * 44) xs) 0) (one_more n)
    ∙ read_bytes-add (write_bytes f (n * 44) xs) 0 (n * 44) 44
    ∙ ap (λ l. l ++ read_bytes (write_bytes f (n * 44) xs) (0 + n * 44) 44)
        (read_bytes-write_bytes_apart f (n * 44) xs 0 (n * 44) (inl (omega arith)))
    ∙ ap (λ l. read_bytes f 0 (n * 44) ++ l)
        (ap (λ o. read_bytes (write_bytes f (n * 44) xs) o 44) (from_zero (n * 44))
          ∙ ap (read_bytes (write_bytes f (n * 44) xs) (n * 44)) (sym h)
          ∙ read_bytes-write_bytes f (n * 44) xs)
  where
    one_more : (k : ℕ) → suc k * 44 ≡ k * 44 + 44
    one_more k = omega arith

    from_zero : (k : ℕ) → 0 + k ≡ k
    from_zero k = omega arith

pub put_item-IsBuf :
    (il : IndexLogger) (xs : List LogItem) (ili : LogItem)
    → IsBuf il.working_buffer xs
    → Fits ili
    → length xs < block_capacity
    → IsBuf (put_item ili il).working_buffer (xs ++ ili ∷ [])
unfolding put_item item_bytes as_u32 encode_items
put_item-IsBuf il xs ili b fits room = record {
  counts = omega (arith, b.counts, length-append xs (ili ∷ []));
  holds =
      ap (λ n. read_bytes (put_item ili il).working_buffer.buf_ptr 0 (n * 44))
        (counted b.counts room)
      ∙ ap (λ f. read_bytes f 0 (suc (length xs) * 44))
          (ap
              (λ n.
                (put_item ili (record il {
                  working_buffer = record (il.working_buffer) { count = n };
                })).working_buffer.buf_ptr)
              b.counts
            ∙ item_written il.working_buffer.buf_ptr (length xs * 44) ili fits)
      ∙ read_one_more il.working_buffer.buf_ptr (length xs) (encode_item ili)
          (length-encode_item ili fits)
      ∙ ap (λ l. l ++ encode_item ili)
          (ap (λ n. read_bytes il.working_buffer.buf_ptr 0 (n * 44)) (sym b.counts) ∙ b.holds)
      ∙ ap (λ l. encode_items xs ++ l) (sym (append-nil (encode_item ili)))
      ∙ sym (encode_items-append xs (ili ∷ []));
  no_more = omega (arith, length-append xs (ili ∷ []));
  fits = All-append Fits xs (ili ∷ []) b.fits (fits, tt);
}
  where
    counted : {n m : ℕ} → n ≡ m → m < 186 → (n + 1) % 2 ^ 32 ≡ suc m
    counted e h = omega arith

module _ (crc32_calc : List ℕ → ℕ) where
  buf_bytes-with_crc :
      (b : Buf) (xs : List LogItem)
      → IsBuf b xs
      → buf_bytes crc32_calc (with_crc crc32_calc b) ≡ encode_block crc32_calc xs
  unfolding buf_bytes with_crc item_bytes encode_block
  buf_bytes-with_crc b xs h = cc (h.counts, h.holds)

  pub length-encode_block :
      (xs : List LogItem) → All Fits xs → length (encode_block crc32_calc xs) ≡ length xs * 44 + 8
  unfolding encode_block
  length-encode_block xs h = omega (
    arith,
    length-append (le_bytes 4 (crc32_calc (encode_items xs)))
        (le_bytes 4 (length xs) ++ encode_items xs),
    length-append (le_bytes 4 (length xs)) (encode_items xs),
    length-le_bytes 4 (crc32_calc (encode_items xs)),
    length-le_bytes 4 (length xs),
    length-encode_items xs h,
  )

  -- What a switch and a sync leave: the working buffer has no items, and the file has one more block, or
  -- as much of it as the kernel took.
  pub record Synced (written : ℕ → ℕ) (xs : List LogItem) (il : IndexLogger) (r : ℤ × IndexLogger)
      : Type 0 where
    pub code :
        r.0 ≡ (if written (length xs * 44 + 8) == length xs * 44 + 8 then pos 0 else negsuc 0)
    pub file :
        r.1.file ≡ il.file ++ take (written (length xs * 44 + 8)) (encode_block crc32_calc xs)
    pub working : IsBuf r.1.working_buffer []

  pub switched-Synced :
      (written : ℕ → ℕ) (il : IndexLogger) (xs : List LogItem)
      → IsBuf il.working_buffer xs
      → Synced written xs il (sync_index_log crc32_calc written (switch_buffer il))
  unfolding sync_index_log switch_buffer item_bytes encode_items with_crc read_bytes
  switched-Synced written il xs b = record {
    code = rw b.counts;
    file =
        ap (λ l. il.file ++ take (written (il.working_buffer.count * 44 + 8)) l)
          (buf_bytes-with_crc il.working_buffer xs b)
        ∙ ap (λ n. il.file ++ take (written (n * 44 + 8)) (encode_block crc32_calc xs)) b.counts;
    working = record { counts = refl; holds = refl; no_more = omega arith; fits = tt };
  }
