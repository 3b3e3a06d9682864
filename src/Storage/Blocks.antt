-- ===== src/Storage/Blocks.antt =====
-- src/storage.c and src/bdblib.c: the operations on one block, and the calls of the index.
use linglongta.Prelude.{
  ℕ, zero, Bool, true, false, Option, none, some, ◌&&◌, List, [], ◌∷◌, ◌++◌, length, leb,
  if◌then◌else◌, update, ℤ, pos, negsuc,
}
use linglongta.Storage.Types.{
  BlockFile, DataFile, Key, fix_key, IndexValue, OpType, Lookup, failed, BdbOps, BdbHandle, Storage,
  Env, Run, done, aborted, as_u32,
}
use linglongta.Storage.Files.{
  fd_open, sync_data, sync_data_file_header, sync_slot, take_slot, give_slot,
}

abbrev pub is_zero : ℤ → Bool
is_zero (pos zero) = true
is_zero _ = false

module _ {Db : Type 0} (bdb : BdbOps Db) where
  -- `insert_record`: the code of `put`, which also goes to `error_no`.
  unfoldable pub insert_record : BdbHandle Db → Key → IndexValue → ℤ × BdbHandle Db
  insert_record h k v =
      let (ret, d) = bdb.put h.dbp k v in
      (ret, record h { dbp = d; error_no = if is_zero ret then pos 0 else ret })

  -- An error, but not DB_NOTFOUND, goes to `error_no`.
  abbrev pub report : Lookup → BdbHandle Db → Lookup × BdbHandle Db
  report (failed c) h = (failed c, record h { error_no = c })
  report found h = (found, h)

  -- `find_record` with room for one value: the buffer may not be had (code -1).
  unfoldable pub find_record : Env → BdbHandle Db → Key → Lookup × BdbHandle Db
  find_record env h k = report (if env.can_alloc 24 then bdb.get h.dbp k else failed (negsuc 0)) h

  unfoldable pub del_record : BdbHandle Db → Key → ℤ × BdbHandle Db
  del_record h k = let (ret, d) = bdb.del h.dbp k in (ret, record h { dbp = d })

module _ (crc32_calc : List ℕ → ℕ) where
  -- The value that `append_block` enters for its key.
  unfoldable pub new_value : (block_id offset : ℕ) → List ℕ → IndexValue
  new_value block_id offset content = record {
    crc32 = crc32_calc content;
    block_id = as_u32 block_id;
    data_size = length content;
    offset = offset;
  }

  -- The value that `modify_block` enters for its key.
  unfoldable pub modified : IndexValue → List ℕ → IndexValue
  modified iv content = record iv { crc32 = crc32_calc content; data_size = length content }

module _ {Db : Type 0} (bdb : BdbOps Db) (crc32_calc : List ℕ → ℕ) (env : Env) where
  -- The item that goes to `index_logger_append`.
  abbrev pub log_item : OpType → Key → IndexValue → Storage Db → Storage Db
  log_item type k v s = record s {
    journal = s.journal ++ record { type = type; index_key = k; index_value = v } ∷ [];
  }

  abbrev pub put_index : Storage Db → ℤ × BdbHandle Db → Storage Db
  put_index s r = record s { indexdb = r.1 }

  -- What is written under the lock of the block file: the header first, then the data.
  unfoldable pub store_block : (block_id offset : ℕ) → BlockFile → List ℕ → Storage Db → Storage Db
  store_block block_id offset fh content s = record s {
    files = update s.files block_id fh;
    disk =
        update s.disk block_id
          (sync_data env block_id offset content
            (sync_data_file_header env block_id fh (s.disk block_id))).1;
  }

  -- `append_block` past its checks, with the offset and the block file that `take_slot` gives. The
  -- code is 0 whatever `insert_record` returns.
  unfoldable pub append_at :
      (block_id : ℕ) → Key → List ℕ → ℕ × BlockFile → Storage Db → ℤ × Storage Db
  append_at block_id key content (offset, fh) s =
      let v = new_value crc32_calc block_id offset content in
      let s' =
        log_item OpType.index_append (fix_key key) v (store_block block_id offset fh content s) in
      (pos 0, put_index s' (insert_record bdb s'.indexdb (fix_key key) v))

  unfoldable pub append_block : (block_id : ℕ) → Key → List ℕ → Storage Db → Run (ℤ × Storage Db)
  append_block block_id key content s =
      if leb s.sizes.block_type_count block_id
      then done (negsuc 0, s)
      else if fd_open (s.files block_id).fd
          && leb (length content) (s.sizes.block_size_array block_id)
      then done (append_at block_id key content (take_slot (s.files block_id)) s)
      else aborted

  -- `modify_block` after the write, whose file is given.
  unfoldable pub modify_at : IndexValue → Key → List ℕ → DataFile → Storage Db → ℤ × Storage Db
  modify_at iv key content f s =
      let v = modified crc32_calc iv content in
      let s' =
        log_item OpType.index_modify (fix_key key) v
          (record s { disk = update s.disk iv.block_id f }) in
      let r = insert_record bdb s'.indexdb key v in
      (if is_zero r.0 then pos 0 else negsuc 0, put_index s' r)

  -- The data is written over the old data; a short write fails an `assert`.
  unfoldable pub modify_block : IndexValue → Key → List ℕ → Storage Db → Run (ℤ × Storage Db)
  modify_block iv key content s =
      let w = sync_data env iv.block_id iv.offset content (s.disk iv.block_id) in
      if leb s.sizes.block_type_count iv.block_id
      then done (negsuc 0, s)
      else if fd_open (s.files iv.block_id).fd
          && leb (length content) (s.sizes.block_size_array iv.block_id)
          && is_zero w.0
      then done (modify_at iv key content w.1 s)
      else aborted

  -- The slot goes to the free list in memory, then to the data file.
  abbrev pub free_block : (block_id offset : ℕ) → Option BlockFile → Storage Db → Storage Db
  free_block block_id offset none s = s
  free_block block_id offset (some fh) s = record s {
    files = update s.files block_id fh;
    disk = update s.disk block_id (
        sync_slot env block_id (s.files block_id).free_slots_cnt offset
          (sync_data_file_header env block_id fh (s.disk block_id)));
  }

  unfoldable pub do_delete_block : IndexValue → Key → Storage Db → ℤ × Storage Db
  do_delete_block iv key s =
      let s' = log_item OpType.index_del key iv s in
      let r = del_record bdb s'.indexdb key in
      let s'' = put_index s' r in
      if is_zero r.0
      then (pos 0, free_block iv.block_id iv.offset (give_slot iv.offset (s.files iv.block_id)) s'')
      else (negsuc 0, s'')
