-- ===== src/IndexLog/Writer.antt =====
-- src/indexlog.c: the index log in append mode. Items are copied into the working buffer; where it is full
-- the two buffers change places and the full one is written to the file. Each operation takes the
-- answer of its `write`: the number of bytes that the kernel takes of so many. Both mutexes are held
-- around all that is modelled, and `fsync` is left out.
use linglongta.Prelude.{
  ℕ, ◌+◌, ◌*◌, Bool, true, false, List, [], ◌∷◌, ◌++◌, take, ltb, ◌==◌, if◌then◌else◌, ℤ, pos,
  negsuc,
}
use linglongta.Storage.Types.{LogItem, Run, done, aborted, as_u32}
use linglongta.Storage.Bytes.{write_bytes, read_bytes}
use linglongta.IndexLog.Encoding.{op_code, le_bytes, value_bytes}

-- sizeof(enum op_type_t) + sizeof(union index_key_t) + sizeof(struct index_value_t)
abbrev pub index_log_item_size : ℕ
index_log_item_size = 44

abbrev pub log_buf_header_size : ℕ
log_buf_header_size = 8

-- 1024 * 8 - LOG_BUF_HEADER_SIZE
abbrev pub log_buf_size : ℕ
log_buf_size = 8184

-- htonl(MAGIC_HEADER), byte by byte
abbrev pub magic_header : List ℕ
magic_header = 0x1d ∷ 0x81 ∷ 0x09 ∷ 0x00 ∷ []

-- struct buf_s
pub record Buf : Type 0 where
  pub crc32sum : ℕ
  pub count : ℕ
  pub buf_ptr : ℕ → ℕ

-- struct index_logger_s as append mode uses it. The buffers that the two pointers lead to stand for the
-- pointers, and `file` for what the file holds.
pub record IndexLogger : Type 0 where
  pub working_buffer : Buf
  pub storing_buffer : Buf
  pub curr_working_buf : ℕ
  pub file : List ℕ

-- What `index_logger_create` meets: whether there is memory, whether the directory is there or can be
-- made, whether the file can be opened, and the answer to the write of the magic number.
pub record CreateEnv : Type 0 where
  pub has_memory : Bool
  pub dir_ready : Bool
  pub opened : Bool
  pub written : ℕ → ℕ

-- slab_calloc
abbrev pub cleared : Buf
cleared = record { crc32sum = 0; count = 0; buf_ptr = λ _. 0 }

abbrev pub created : IndexLogger
created = record {
  working_buffer = cleared;
  storing_buffer = cleared;
  curr_working_buf = 1;
  file = magic_header;
}

-- The file is truncated when it is opened. Without memory the mutexes are set up through a null
-- pointer, and the process ends there; so it does where the `assert` on the write fails.
unfoldable pub index_logger_create : CreateEnv → Run (Bool × IndexLogger)
index_logger_create env =
    if env.has_memory
    then if env.dir_ready
      then if env.opened
        then if env.written 4 == 4 then done (true, created) else aborted
        else done (false, created)
      else done (false, created)
    else aborted

-- The buffers change places, and the new working buffer counts no items.
unfoldable pub switch_buffer : IndexLogger → IndexLogger
switch_buffer il = record il {
  working_buffer = record (il.storing_buffer) { crc32sum = 0; count = 0 };
  storing_buffer = il.working_buffer;
  curr_working_buf = if il.curr_working_buf == 1 then 2 else 1;
}

-- the bytes of the first n items of a buffer
unfoldable pub item_bytes : Buf → List ℕ
item_bytes b = read_bytes b.buf_ptr 0 (b.count * index_log_item_size)

-- The three `memcpy`, and `++count`.
unfoldable pub put_item : LogItem → IndexLogger → IndexLogger
put_item ili il =
    let b = il.working_buffer in
    let p = b.count * index_log_item_size in
    record il {
      working_buffer = record b {
        count = as_u32 (b.count + 1);
        buf_ptr =
            write_bytes
              (write_bytes (write_bytes b.buf_ptr p (le_bytes 4 (op_code ili.type))) (p + 4)
                ili.index_key)
              (p + 4 + 16) (value_bytes ili.index_value);
      };
    }

-- Past the test for a full buffer: nothing is put where the sync failed.
abbrev pub put_after : LogItem → ℤ × IndexLogger → ℤ × IndexLogger
put_after ili (pos n, il) = (pos n, put_item ili il)
put_after ili (negsuc n, il) = (negsuc n, il)

module _ (crc32_calc : List ℕ → ℕ) where
  unfoldable pub with_crc : Buf → Buf
  with_crc b = record b { crc32sum = crc32_calc (item_bytes b) }

  -- struct buf_s in memory, up to its last item
  unfoldable pub buf_bytes : Buf → List ℕ
  buf_bytes b = le_bytes 4 b.crc32sum ++ (le_bytes 4 b.count ++ item_bytes b)

  unfoldable pub sync_index_log : (ℕ → ℕ) → IndexLogger → ℤ × IndexLogger
  sync_index_log written il =
      let b = with_crc il.storing_buffer in
      let n = b.count * index_log_item_size + log_buf_header_size in
      (
        if written n == n then pos 0 else negsuc 0,
        record il { storing_buffer = b; file = il.file ++ take (written n) (buf_bytes b) },
      )

  unfoldable pub index_logger_append : (ℕ → ℕ) → LogItem → IndexLogger → ℤ × IndexLogger
  index_logger_append written ili il = put_after ili (
      if ltb log_buf_size (as_u32 (il.working_buffer.count + 1) * index_log_item_size)
      then sync_index_log written (switch_buffer il)
      else (pos 0, il))

  unfoldable pub index_logger_flush : (ℕ → ℕ) → IndexLogger → ℤ × IndexLogger
  index_logger_flush written il =
      if il.working_buffer.count == 0
      then (pos 0, il)
      else sync_index_log written (switch_buffer il)

  -- `index_logger_close` in append mode: what the file then holds. The code of the flush is only logged.
  unfoldable pub index_logger_close : (ℕ → ℕ) → IndexLogger → ℤ × List ℕ
  index_logger_close written il = (pos 0, (index_logger_flush written il).1.file)

  -- One append for each item, all with the same answer to the writes.
  unfoldable pub append_all : (ℕ → ℕ) → List LogItem → IndexLogger → IndexLogger
  append_all written [] il = il
  append_all written (ili ∷ ilis) il =
      append_all written ilis (index_logger_append written ili il).1
