-- ===== src/Storage/Find.antt =====
-- src/storage.c: what `find_block` and `delete_block` return, on each answer of the index.
use linglongta.Prelude.{
  ℕ, ◌^◌, ◌≤◌, ◌<◌, ◌≡◌, ◌≢◌, refl, sym, ap, ◌∙◌, true, false, some, none, List, length, ℤ, pos,
  negsuc, ==_iff, inl, inr, Option-cases,
}
use linglongta.Rwlock.{Lock, rwlock_build, rdlock, wrlock, unwrlock}
use linglongta.Storage.Types.{
  fix_key, IndexValue, hit, miss, failed, BdbOps, BdbLaws, Storage, Env, Run, done, blocked,
}
use linglongta.Storage.Files.{give_slot}
use linglongta.Storage.Blocks.{find_record, del_record, do_delete_block}
use linglongta.Storage.Ops.{
  Found, read_found, find_found, find_locked, find_block, update_block, delete_found, delete_locked,
  delete_block,
}
use linglongta.Storage.Invariant.{IsStore}
use linglongta.Storage.View.{Holds}
use linglongta.Storage.Stored.{Works}
use linglongta.Storage.Update.{update_block-Stores}
use linglongta.Storage.Written.{code-do_delete_block, sizes-do_delete_block}

-- The call hands out `content` with code 0.
abbrev pub found_all : List ℕ → Found
found_all content = record { ret = pos 0; value = some content; value_len = length content }

-- The call finds nothing and hands out no buffer.
abbrev pub found_none : ℤ → Found
found_none ret = record { ret = ret; value = none; value_len = 0 }

module _ {Db : Type 0} (bdb : BdbOps Db) (crc32_calc : List ℕ → ℕ) (env : Env) (s : Storage Db)
    (free : s.index_lock ≡ rwlock_build) (room : env.can_alloc 24 ≡ true) where
  read_found-Holds :
      (l : Lock) (key content : List ℕ) (held : Holds bdb s (fix_key key) content)
      → read_found bdb crc32_calc env held.iv (record s { index_lock = l }) ≡ found_all content
  unfolding read_found
  read_found-Holds l key content held =
      rw (held.reads, held.whole, (==_iff held.iv.data_size held.iv.data_size).1 refl)

  -- With the index lock free and memory to be had, `find_block` of a key under which the store holds
  -- data returns 0 and hands out that data and its length, and leaves the store and the lock as
  -- they were.
  pub find_block-Holds :
      (key content : List ℕ)
      → Holds bdb s (fix_key key) content
      → env.can_alloc (length content) ≡ true
      → find_block bdb crc32_calc env key s ≡ done (found_all content, s)
  unfolding find_block rdlock find_locked find_record find_found
  find_block-Holds key content held got =
      rw (free, room, held.entry, got_it)
        (ap (λ (f : Found). done (f, record s { index_lock = rwlock_build }))
          (read_found-Holds _ key content held))
    where
      got_it : env.can_alloc held.iv.data_size ≡ true
      got_it = ap env.can_alloc (sym held.whole) ∙ got

  -- With the index lock free and memory to be had, `find_block` of a key that the index does not have
  -- returns DB_NOTFOUND and no buffer, and leaves the store and the lock as they were.
  pub find_block-miss :
      (key : List ℕ)
      → bdb.get s.indexdb.dbp (fix_key key) ≡ miss
      → find_block bdb crc32_calc env key s ≡ done (found_none bdb.db_notfound, s)
  unfolding find_block rdlock find_locked find_record find_found
  find_block-miss key none_there = rw (free, room, none_there) refl

  -- With the index lock free and memory for an index value: where the buffer for the data that the index
  -- has cannot be had, `find_block` returns -1 without a buffer and keeps the index lock, and every later
  -- `update_block` and `delete_block` waits for good.
  pub find_block-keeps_lock :
      (key : List ℕ) (iv : IndexValue)
      → bdb.get s.indexdb.dbp (fix_key key) ≡ hit iv
      → env.can_alloc iv.data_size ≡ false
      → (s' : Storage Db) × (find_block bdb crc32_calc env key s
          ≡ done (record { ret = negsuc 0; value = none; value_len = iv.data_size }, s'))
        × ((env' : Env) (k content : List ℕ)
            → update_block bdb crc32_calc env' k content s' ≡ blocked)
        × ((env' : Env) (k : List ℕ) → delete_block bdb crc32_calc env' k s' ≡ blocked)
  unfolding find_block rdlock find_locked find_record find_found update_block delete_block wrlock
  find_block-keeps_lock key iv here full = (
    record s { index_lock = record rwlock_build { read_queue_len = 1 } },
    rw (free, room, here, full) refl,
    λ env' k content. refl,
    λ env' k. refl,
  )

  -- With the index lock free and memory to be had, `delete_block` of a key that the index does not have
  -- returns DB_NOTFOUND and leaves the store and the lock as they were.
  pub delete_block-miss :
      (key : List ℕ)
      → bdb.get s.indexdb.dbp (fix_key key) ≡ miss
      → delete_block bdb crc32_calc env key s ≡ done (bdb.db_notfound, s)
  unfolding delete_block wrlock delete_locked find_record delete_found
  delete_block-miss key none_there = rw (free, room, none_there) refl

-- The call returns 0, and leaves the key out of the index and the index lock free.
pub record Deleted {Db : Type 0} (bdb : BdbOps Db) (key : List ℕ) (r : Run (ℤ × Storage Db))
    : Type 0 where
  pub state : Storage Db
  pub ends : r ≡ done (pos 0, state)
  pub gone : bdb.get state.indexdb.dbp (fix_key key) ≡ miss
  pub lock : state.index_lock ≡ rwlock_build

module _ {Db : Type 0} {bdb : BdbOps Db} (laws : BdbLaws bdb) (crc32_calc : List ℕ → ℕ) (env : Env)
    (works : Works bdb env) where
  pub gone-do_delete_block :
      (s : Storage Db) (iv : IndexValue) (key : List ℕ)
      → bdb.get s.indexdb.dbp (fix_key key) ≡ hit iv
      → bdb.get (do_delete_block bdb crc32_calc env iv (fix_key key) s).1.indexdb.dbp (fix_key key)
        ≡ miss
  unfolding do_delete_block del_record
  gone-do_delete_block s iv key here =
      rw deleted (elim (Option-cases (give_slot iv.offset (s.files iv.block_id))) [
        | inl full ↦ rw full (laws.get-del_self _ _ deleted)
        | inr (fh, freed) ↦ rw freed (laws.get-del_self _ _ deleted)
      ])
    where
      deleted : (bdb.del s.indexdb.dbp (fix_key key)).0 ≡ pos 0
      deleted = works.deletes _ _ iv here

  -- With the index lock free and an allocator and an index that work, `delete_block` of a key that the
  -- index has returns 0, the index then has no entry for the key, and the lock is free again.
  pub delete_block-Deleted :
      (s : Storage Db) (key : List ℕ) (iv : IndexValue)
      → s.index_lock ≡ rwlock_build
      → bdb.get s.indexdb.dbp (fix_key key) ≡ hit iv
      → Deleted bdb key (delete_block bdb crc32_calc env key s)
  unfolding delete_block wrlock delete_locked find_record delete_found
  delete_block-Deleted s key iv free here =
      rw (free, works.allocates 24, here, code)
        (record {
          state = record s2 { index_lock = unwrlock s2.index_lock };
          ends = refl;
          gone = gone-do_delete_block s1 iv key here;
          lock = ap unwrlock (sizes-do_delete_block bdb crc32_calc env iv (fix_key key) s1).1;
        })
    where
      s1 : Storage Db
      s1 = record s { index_lock = record rwlock_build { write_queue_len = 1 } }

      s2 : Storage Db
      s2 = (do_delete_block bdb crc32_calc env iv (fix_key key) s1).1

      code : (do_delete_block bdb crc32_calc env iv (fix_key key) s1).0 ≡ pos 0
      code = code-do_delete_block bdb crc32_calc env iv (fix_key key) s1 (works.deletes _ _ iv here)

  -- In a sound store with the index lock free, with data below 2 GB that some block type holds, and an
  -- allocator, a kernel and an index that work: `update_block` returns 0, and a `find_block` of the same
  -- key then returns exactly that data.
  pub find_block-update_block :
      (s : Storage Db)
      → IsStore bdb s
      → (key content : List ℕ) → s.index_lock ≡ rwlock_build
      → length content < 2 ^ 31
      → (c : ℕ) → c < s.sizes.block_type_count
      → length content ≤ s.sizes.block_size_array c
      → ((e : ℤ) → bdb.get s.indexdb.dbp (fix_key key) ≢ failed e)
      → (s' : Storage Db) × (update_block bdb crc32_calc env key content s ≡ done (pos 0, s'))
        × (find_block bdb crc32_calc env key s' ≡ done (found_all content, s'))
  find_block-update_block s w key content free small c c_lt c_fits ok =
      let a =
        update_block-Stores laws crc32_calc env works s w key content free small c c_lt c_fits ok in
      (
        a.state,
        a.ends,
        find_block-Holds bdb crc32_calc env a.state a.lock (works.allocates 24) key content a.held
            (works.allocates (length content)),
      )
