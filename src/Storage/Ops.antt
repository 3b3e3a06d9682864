-- ===== src/Storage/Ops.antt =====
-- src/storage.c: `update_block`, `find_block` and `delete_block`, each under the index lock.
-- Logging, timing and the release of temporary buffers are left out.
use linglongta.Prelude.{
  ℕ, ◌-◌, ◌^◌, Option, none, some, List, length, leb, ◌==◌, if◌then◌else◌, ℤ, pos, negsuc,
}
use linglongta.Rwlock.{Lock, rdlock, unrdlock, wrlock, unwrlock}
use linglongta.Storage.Sizes.{calc_block_size, find_block_file}
use linglongta.Storage.Types.{
  Key, fix_key, IndexValue, Lookup, hit, miss, failed, BdbOps, Storage, Env, Run, done, aborted,
  blocked, undefined,
}
use linglongta.Storage.Files.{pread}
use linglongta.Storage.Blocks.{is_zero, find_record, append_block, modify_block, do_delete_block}

-- A code other than 0 becomes `code`.
abbrev pub fail_as {ℓ} : {A : Type ℓ} → ℤ → Run (ℤ × A) → Run (ℤ × A)
fail_as code (done (ret, a)) = done (if is_zero ret then pos 0 else code, a)
fail_as code aborted = aborted
fail_as code blocked = blocked
fail_as code undefined = undefined

-- The `ssize_t` -1 of `find_block_file` as the `size_t` argument of `append_block`.
abbrev pub as_size : Option ℕ → ℕ
as_size none = 2 ^ 64 - 1
as_size (some b) = b

-- What `find_block` returns: its code, and the buffer and the length that it hands out.
pub record Found : Type 0 where
  pub ret : ℤ
  pub value : Option (List ℕ)
  pub value_len : ℕ

module _ {Db : Type 0} where
  -- EX_UNLOCK_IDX
  abbrev pub ex_unlock : Run (ℤ × Storage Db) → Run (ℤ × Storage Db)
  ex_unlock (done (ret, s)) = done (ret, record s { index_lock = unwrlock s.index_lock })
  ex_unlock aborted = aborted
  ex_unlock blocked = blocked
  ex_unlock undefined = undefined

  -- What runs under the index lock, if it was got.
  abbrev pub under_ex_lock :
      (Storage Db → Run (ℤ × Storage Db)) → Storage Db → Option Lock → Run (ℤ × Storage Db)
  under_ex_lock body s none = blocked
  under_ex_lock body s (some l) = ex_unlock (body (record s { index_lock = l }))

  -- SH_UNLOCK_IDX
  abbrev pub sh_unlock : Storage Db → Storage Db
  sh_unlock s = record s { index_lock = unrdlock s.index_lock }

module _ {Db : Type 0} (bdb : BdbOps Db) (crc32_calc : List ℕ → ℕ) (env : Env) where
  -- the rest of the move to a larger block, once the old block has been given back
  abbrev pub append_moved : Key → List ℕ → ℤ × Storage Db → Run (ℤ × Storage Db)
  append_moved k content (ret, s) =
      if is_zero ret
      then fail_as (negsuc 2) (
          append_block bdb crc32_calc env
            (as_size (find_block_file s.sizes (calc_block_size (length content)))) k content s)
      else done (negsuc 1, s)

  -- A record that is there stays in its block if the data fits, and moves to a larger one if not.
  unfoldable pub replace_block : IndexValue → Key → List ℕ → Storage Db → Run (ℤ × Storage Db)
  replace_block iv k content s =
      if leb (length content) (s.sizes.block_size_array iv.block_id)
      then fail_as (negsuc 0) (modify_block bdb crc32_calc env iv k content s)
      else append_moved k content (do_delete_block bdb crc32_calc env iv k s)

  -- A new record. Where no block type holds the data nothing is stored, and the code is still 0.
  abbrev pub insert_block : Option ℕ → Key → List ℕ → Storage Db → Run (ℤ × Storage Db)
  insert_block none k content s = done (pos 0, s)
  insert_block (some b) k content s =
      fail_as (negsuc 3) (append_block bdb crc32_calc env b k content s)

  -- The call ends with `slab_free(dbt.data)`. An error of the index leaves NULL there, but where `find_record` has
  -- no memory for the value nobody sets it.
  abbrev pub unless_unset : Run (ℤ × Storage Db) → Run (ℤ × Storage Db)
  unless_unset r = if env.can_alloc 24 then r else undefined

  unfoldable pub update_found : Lookup → Key → List ℕ → Storage Db → Run (ℤ × Storage Db)
  update_found (hit iv) k content s = replace_block iv k content s
  update_found miss k content s =
      insert_block (find_block_file s.sizes (calc_block_size (length content))) k content s
  update_found (failed c) k content s = unless_unset (done (negsuc 0, s))

  -- Between EX_LOCK_IDX and EX_UNLOCK_IDX.
  unfoldable pub update_locked : Key → List ℕ → Storage Db → Run (ℤ × Storage Db)
  update_locked k content s =
      let (found, h) = find_record bdb env s.indexdb k in
      update_found found k content (record s { indexdb = h })

  unfoldable pub update_block : (key content : List ℕ) → Storage Db → Run (ℤ × Storage Db)
  update_block key content s =
      under_ex_lock (update_locked (fix_key key) content) s (wrlock s.index_lock)

  unfoldable pub delete_found : Lookup → Key → Storage Db → Run (ℤ × Storage Db)
  delete_found (hit iv) k s =
      let (ret, s') = do_delete_block bdb crc32_calc env iv k s in
      done (if is_zero ret then pos 0 else negsuc 0, s')
  delete_found miss k s = done (bdb.db_notfound, s)
  delete_found (failed c) k s = unless_unset (done (negsuc 0, s))

  unfoldable pub delete_locked : Key → Storage Db → Run (ℤ × Storage Db)
  delete_locked k s =
      let (found, h) = find_record bdb env s.indexdb k in
      delete_found found k (record s { indexdb = h })

  unfoldable pub delete_block : (key : List ℕ) → Storage Db → Run (ℤ × Storage Db)
  delete_block key s = under_ex_lock (delete_locked (fix_key key)) s (wrlock s.index_lock)

  -- `pread` into the buffer; a short read is an error.
  unfoldable pub read_found : IndexValue → Storage Db → Found
  read_found iv s =
      let content = pread (s.disk iv.block_id) iv.offset iv.data_size in
      record {
        ret = if length content == iv.data_size then pos 0 else negsuc 0;
        value = some content;
        value_len = iv.data_size;
      }

  -- Where the buffer cannot be had, the index lock is not released.
  unfoldable pub find_found : Lookup → Storage Db → Found × Storage Db
  find_found (hit iv) s =
      if env.can_alloc iv.data_size
      then (read_found iv s, sh_unlock s)
      else (record { ret = negsuc 0; value = none; value_len = iv.data_size }, s)
  find_found miss s = (record { ret = bdb.db_notfound; value = none; value_len = 0 }, sh_unlock s)
  find_found (failed c) s = (record { ret = c; value = none; value_len = 0 }, sh_unlock s)

  unfoldable pub find_locked : Key → Storage Db → Found × Storage Db
  find_locked k s =
      let (found, h) = find_record bdb env s.indexdb k in
      find_found found (record s { indexdb = h })

  abbrev pub under_sh_lock : Key → Storage Db → Option Lock → Run (Found × Storage Db)
  under_sh_lock k s none = blocked
  under_sh_lock k s (some l) = done (find_locked k (record s { index_lock = l }))

  unfoldable pub find_block : (key : List ℕ) → Storage Db → Run (Found × Storage Db)
  find_block key s = under_sh_lock (fix_key key) s (rdlock s.index_lock)
