-- ===== src/IndexLog/Fetch.antt =====
-- src/indexlog.c: what a fetch gets of a file that the log wrote.
use linglongta.Prelude.{
  ℕ, ◌+◌, ◌^◌, ◌<◌, ◌≡◌, refl, ap, ◌∙◌, arith, none, some, List, ◌++◌, append_assoc, length,
  take-append, drop-append, ◌==◌, if◌then◌else◌, negsuc,
}
use linglongta.Storage.Types.{LogItem}
use linglongta.IndexLog.Encoding.{
  op_code, le_bytes, length-le_bytes, le_value-le_bytes_4, value_bytes, length-value_bytes,
  read_value-value_bytes, as_fetched, Fits,
}
use linglongta.IndexLog.Reader.{LogReader, read_exactly, count_record, fetch_item, inc_ℤ, eq_ℤ}
use linglongta.IndexLog.Blocks.{encode_item}

-- The reader past `n` bytes, with these behind them.
abbrev pub past : LogReader → ℕ → List ℕ → LogReader
past il n rest = record il { unread = rest; file_offset = il.file_offset + n }

pub read_exactly-append :
    (il : LogReader) (n : ℕ) (bs rest : List ℕ)
    → length bs ≡ n
    → il.unread ≡ bs ++ rest
    → read_exactly n il ≡ (some bs, past il n rest)
unfolding read_exactly
read_exactly-append il n bs rest h e =
    ap (λ l. read_exactly n (record il { unread = l })) e
    ∙ rw (take-append n bs rest h, drop-append n bs rest h)
        (ap (λ k. if k == n then (some bs, past il k rest) else (none, past il k rest)) h
          ∙ ground arith)

op_code_lt : (o : LogItem) → op_code o.type < 2 ^ 32
unfolding op_code
op_code_lt o = ground arith

-- The reader behind an item: the next fetch goes on in the block, or starts the next one.
abbrev pub behind_item : LogReader → List ℕ → LogReader
behind_item il rest = record il {
  unread = rest;
  file_offset = il.file_offset + 4 + 16 + 24;
  fetch_id =
      if eq_ℤ (inc_ℤ il.fetch_id) il.fetch_records_amount then negsuc 0 else inc_ℤ il.fetch_id;
}

pub fetch_item-encode_item :
    (il : LogReader) (x : LogItem) (rest : List ℕ)
    → Fits x
    → il.unread ≡ encode_item x ++ rest
    → fetch_item il ≡ (some (as_fetched x), behind_item il rest)
unfolding fetch_item as_fetched encode_item count_record
fetch_item-encode_item il x rest fits e =
    rw
      (read_exactly-append il 4 type (key ++ (value ++ rest)) (length-le_bytes 4 (op_code x.type))
        (e ∙ split))
      (rw
        (read_exactly-append (past il 4 (key ++ (value ++ rest))) 16 key (value ++ rest) fits.key
          refl)
        (rw
          (read_exactly-append (past (past il 4 (key ++ (value ++ rest))) 16 (value ++ rest)) 24
            value rest (length-value_bytes x.index_value) refl)
          (rw
            (
              le_value-le_bytes_4 (op_code x.type) (op_code_lt x),
              read_value-value_bytes x.index_value fits.crc32 fits.block_id fits.data_size
                  fits.offset,
            )
            refl)))
  where
    type : List ℕ
    type = le_bytes 4 (op_code x.type)

    key : List ℕ
    key = x.index_key

    value : List ℕ
    value = value_bytes x.index_value

    split : (type ++ (key ++ value)) ++ rest ≡ type ++ (key ++ (value ++ rest))
    split =
        append_assoc type (key ++ value) rest ∙ ap (λ l. type ++ l) (append_assoc key value rest)
