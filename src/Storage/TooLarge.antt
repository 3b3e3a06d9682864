-- ===== src/Storage/TooLarge.antt =====
-- src/storage.c: `update_block` with data that no block type holds.
use linglongta.Prelude.{
  ℕ, ◌^◌, ◌-◌, ◌<◌, ◌≡◌, refl, true, false, none, List, length, pos, negsuc, leb, arith, inl, inr,
}
use linglongta.Rwlock.{rwlock_build, wrlock, unwrlock}
use linglongta.Storage.Sizes.{find_block_file, calc_block_size}
use linglongta.Storage.Sizes.Fit.{TooLarge, find_block_file-calc_block_size}
use linglongta.Storage.Types.{fix_key, IndexValue, hit, miss, BdbOps, BdbLaws, Storage, Env, done}
use linglongta.Storage.Blocks.{find_record, append_block, do_delete_block}
use linglongta.Storage.Ops.{
  append_moved, as_size, replace_block, update_found, update_locked, update_block,
}
use linglongta.Storage.Invariant.{IsStore}
use linglongta.Storage.Invariant.Calls.{relocked}
use linglongta.Storage.Stored.{Works}
use linglongta.Storage.Written.{code-do_delete_block, sizes-do_delete_block}
use linglongta.Storage.Find.{gone-do_delete_block}

module _ {Db : Type 0} {bdb : BdbOps Db} (laws : BdbLaws bdb) (crc32_calc : List ℕ → ℕ) (env : Env)
    (s : Storage Db) (w : IsStore bdb s) (content : List ℕ) (small : length content < 2 ^ 31)
    (large : TooLarge s.sizes (length content)) where
  no_file : find_block_file s.sizes (calc_block_size (length content)) ≡ none
  no_file = elim (find_block_file-calc_block_size s.sizes (length content) w.table small) [
    | inl (b, found, fit) ↦ absurd (omega (arith, large b fit.in_range, fit.fits))
    | inr (found, _) ↦ found
  ]

  -- In a sound store with the index lock free, and memory for an index value, data below 2 GB that no block
  -- type holds, under a key that the index does not have: `update_block` returns 0, and stores nothing.
  pub update_block-too_large_new :
      (key : List ℕ)
      → s.index_lock ≡ rwlock_build
      → env.can_alloc 24 ≡ true
      → bdb.get s.indexdb.dbp (fix_key key) ≡ miss
      → update_block bdb crc32_calc env key content s ≡ done (pos 0, s)
  unfolding update_block wrlock update_locked find_record update_found
  update_block-too_large_new key free room none_there = rw (free, room, none_there, no_file) refl

  -- the old block is given back before the new one is looked for
  replace_block-eq-lost :
      (works : Works bdb env) (key : List ℕ) (iv : IndexValue)
      → bdb.get s.indexdb.dbp key ≡ hit iv
      → replace_block bdb crc32_calc env iv key content s
        ≡ done (negsuc 2, (do_delete_block bdb crc32_calc env iv key s).1)
  unfolding replace_block append_block
  replace_block-eq-lost works key iv here =
      rw (moves, append_moved, code, kept, no_file, as_size, no_such) refl
    where
      moves : leb (length content) (s.sizes.block_size_array iv.block_id) ≡ false
      moves = ground (arith, large iv.block_id (w.index.entry key iv here).in_range)

      code : (do_delete_block bdb crc32_calc env iv key s).0 ≡ pos 0
      code = code-do_delete_block bdb crc32_calc env iv key s (works.deletes _ key iv here)

      kept : (do_delete_block bdb crc32_calc env iv key s).1.sizes ≡ s.sizes
      kept = (sizes-do_delete_block bdb crc32_calc env iv key s).0

      no_such : leb s.sizes.block_type_count (2 ^ 64 - 1) ≡ true
      no_such = ground (arith, w.table.count_le)

module _ {Db : Type 0} {bdb : BdbOps Db} (laws : BdbLaws bdb) (crc32_calc : List ℕ → ℕ) (env : Env)
    (works : Works bdb env) (s : Storage Db) (w : IsStore bdb s) where
  -- In a sound store with the index lock free, and an allocator, a kernel and an index that work, data
  -- below 2 GB that no block type holds, under a key that the index has: `update_block` returns -3, and the
  -- index then has no entry for the key, so that the old data is lost.
  pub update_block-too_large_old :
      (key content : List ℕ) (iv : IndexValue)
      → length content < 2 ^ 31
      → TooLarge s.sizes (length content)
      → s.index_lock ≡ rwlock_build
      → bdb.get s.indexdb.dbp (fix_key key) ≡ hit iv
      → (s' : Storage Db) × (update_block bdb crc32_calc env key content s ≡ done (negsuc 2, s'))
        × (bdb.get s'.indexdb.dbp (fix_key key) ≡ miss)
  unfolding update_block wrlock update_locked find_record update_found
  update_block-too_large_old key content iv small large free here = (
    record s2 { index_lock = unwrlock s2.index_lock },
    rw (free, works.allocates 24, here, lost) refl,
    gone-do_delete_block laws crc32_calc env works s1 iv key here,
  )
    where
      s1 : Storage Db
      s1 = record s { index_lock = record rwlock_build { write_queue_len = 1 } }

      s2 : Storage Db
      s2 = (do_delete_block bdb crc32_calc env iv (fix_key key) s1).1

      lost : replace_block bdb crc32_calc env iv (fix_key key) content s1 ≡ done (negsuc 2, s2)
      lost =
          replace_block-eq-lost laws crc32_calc env s1 (relocked s s.indexdb s1.index_lock refl w)
            content small large works (fix_key key) iv here
