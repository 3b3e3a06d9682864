-- ===== src/Storage/Files.antt =====
-- src/storage.c: reading and writing the data files, and the slots of a block file.
use linglongta.Prelude.{
  ℕ, ◌+◌, ◌-◌, ◌*◌, ◌%◌, ◌^◌, Bool, false, Option, none, some, List, length, take, ltb, leb, ◌==◌,
  if◌then◌else◌, update, ℤ, pos, negsuc,
}
use linglongta.Rwlock.{inc, dec}
use linglongta.Storage.Bytes.{write_bytes, read_bytes}
use linglongta.Storage.Types.{BlockFile, DataFile, Env, max_free_slots, data_section_pos}

abbrev pub fd_open : ℤ → Bool
fd_open (pos n) = ltb 0 n
fd_open (negsuc n) = false

-- The length of a file after `w` bytes at `offset`.
unfoldable pub grown : (size offset w : ℕ) → ℕ
grown size offset w = if w == 0 then size else if leb (offset + w) size then size else offset + w

-- `sync_data_file` for the data of a block: the code, and the file with the bytes that got written.
unfoldable pub sync_data : Env → (block_id offset : ℕ) → List ℕ → DataFile → ℤ × DataFile
unfolding grown
sync_data env block_id offset content f =
    let w = env.data_written block_id offset (length content) in
    (
      if w == length content then pos 0 else negsuc 0,
      record f {
        bytes = write_bytes f.bytes offset (take w content);
        size = grown f.size offset w;
      },
    )

-- `sync_data_file_header`: the three counters of the block file go to the start of the data file.
unfoldable pub sync_data_file_header : Env → ℕ → BlockFile → DataFile → DataFile
sync_data_file_header env block_id fh f =
    if env.header_written block_id
    then record f {
      block_size = fh.block_size;
      block_cnt = fh.block_cnt;
      free_slots_cnt = fh.free_slots_cnt;
    }
    else f

-- `sync_data_file` for one entry of `free_slots_offset`.
unfoldable pub sync_slot : Env → (block_id slot_pos value : ℕ) → DataFile → DataFile
sync_slot env block_id slot_pos value f =
    if env.slot_written block_id slot_pos
    then record f { free_slots_offset = update f.free_slots_offset slot_pos value }
    else f

-- `pread` of a block: the bytes up to the end of the file.
unfoldable pub pread : DataFile → (offset data_size : ℕ) → List ℕ
pread f offset data_size =
    if leb (offset + data_size) f.size
    then read_bytes f.bytes offset data_size
    else read_bytes f.bytes offset (f.size - offset)

-- The slot that `append_block` takes under the lock: the last free one, or a new one at the end.
unfoldable pub take_slot : BlockFile → ℕ × BlockFile
take_slot fh =
    if fh.free_slots_cnt == 0
    then (
      (data_section_pos + fh.block_size * dec (inc fh.block_cnt)) % 2 ^ 64,
      record fh { block_cnt = inc fh.block_cnt },
    )
    else (
      fh.free_slots_offset (fh.free_slots_cnt - 1),
      record fh {
        free_slots_offset = update fh.free_slots_offset (fh.free_slots_cnt - 1) 0;
        free_slots_cnt = fh.free_slots_cnt - 1;
        block_cnt = inc fh.block_cnt;
      },
    )

-- The slot that `do_delete_block` gives back; `none` where there is no room for it (the slot leaks).
unfoldable pub give_slot : (offset : ℕ) → BlockFile → Option BlockFile
give_slot offset fh =
    if leb max_free_slots fh.free_slots_cnt
    then none
    else some (record fh {
      block_cnt = dec fh.block_cnt;
      free_slots_offset = update fh.free_slots_offset fh.free_slots_cnt offset;
      free_slots_cnt = inc fh.free_slots_cnt;
    })
