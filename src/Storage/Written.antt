-- ===== src/Storage/Written.antt =====
-- src/storage.c: a block that is appended or overwritten holds its data under its key.
use linglongta.Prelude.{
  ℕ, ◌≤◌, ◌<◌, ◌≡◌, refl, ap, inl, inr, List, length, ℤ, pos, negsuc, Bool-cases, Option-cases,
}
use linglongta.Rwlock.{Lock}
use linglongta.Storage.Types.{
  DataFile, Key, fix_key, IndexValue, BdbOps, BdbLaws, Storage, Env, Run, done,
}
use linglongta.Storage.Files.{take_slot, give_slot, sync_data}
use linglongta.Storage.Blocks.{
  is_zero, insert_record, del_record, store_block, append_at, append_block, modify_at, modify_block,
  do_delete_block,
}
use linglongta.Storage.Ops.{fail_as}
use linglongta.Storage.Invariant.{IsStore}
use linglongta.Storage.View.{Holds}
use linglongta.Storage.Stored.{
  Works, append_at-Holds_self, append_block-eq-done, modify_at-Holds_self, modify_block-eq-done,
}

-- The call returns 0, with `content` stored under `k`, and leaves the index lock as `l`.
pub record Stores {Db : Type 0} (bdb : BdbOps Db) (k : Key) (content : List ℕ) (l : Lock)
    (r : Run (ℤ × Storage Db)) : Type 0 where
  pub state : Storage Db
  pub ends : r ≡ done (pos 0, state)
  pub held : Holds bdb state k content
  pub lock : state.index_lock ≡ l

module _ {Db : Type 0} (bdb : BdbOps Db) (crc32_calc : List ℕ → ℕ) (env : Env) where
  pub sizes-do_delete_block :
      (iv : IndexValue) (k : Key) (s : Storage Db)
      → ((do_delete_block bdb crc32_calc env iv k s).1.sizes ≡ s.sizes)
        × ((do_delete_block bdb crc32_calc env iv k s).1.index_lock ≡ s.index_lock)
  unfolding do_delete_block
  sizes-do_delete_block iv k s = elim (Bool-cases (is_zero (del_record bdb s.indexdb k).0)) [
    | inr bad ↦ rw bad (refl, refl)
    | inl good ↦ rw good (elim (Option-cases (give_slot iv.offset (s.files iv.block_id))) [
      | inl full ↦ rw full (refl, refl)
      | inr (fh, freed) ↦ rw freed (refl, refl)
    ])
  ]

  pub code-do_delete_block :
      (iv : IndexValue) (k : Key) (s : Storage Db)
      → (bdb.del s.indexdb.dbp k).0 ≡ pos 0
      → (do_delete_block bdb crc32_calc env iv k s).0 ≡ pos 0
  unfolding do_delete_block del_record
  code-do_delete_block iv k s e = rw e

module _ {Db : Type 0} {bdb : BdbOps Db} (laws : BdbLaws bdb) (crc32_calc : List ℕ → ℕ) (env : Env)
    (works : Works bdb env) where
  pub append_block-Stores :
      (s : Storage Db)
      → IsStore bdb s
      → (b : ℕ) (key content : List ℕ) → b < s.sizes.block_type_count
      → length content ≤ s.sizes.block_size_array b
      → (code : ℤ)
      → Stores bdb
          (fix_key key)
          content
          s.index_lock
          (fail_as code (append_block bdb crc32_calc env b key content s))
  unfolding append_at store_block
  append_block-Stores s w b key content lt fits code = record {
    state = (append_at bdb crc32_calc env b key content (take_slot (s.files b)) s).1;
    ends =
        ap (fail_as code)
          (append_block-eq-done laws crc32_calc env works s w b key content lt fits);
    held =
        append_at-Holds_self laws crc32_calc env works s w b key content (take_slot (s.files b)).0
          (take_slot (s.files b)).1 lt;
    lock = refl;
  }

  code-modify_at :
      (s : Storage Db) (iv : IndexValue) (k content : List ℕ) (f : DataFile)
      → (modify_at bdb crc32_calc env iv k content f s).0 ≡ pos 0
  unfolding modify_at insert_record
  code-modify_at s iv k content f = rw (works.puts _ _ _)

  pub modify_block-Stores :
      (s : Storage Db)
      → IsStore bdb s
      → (iv : IndexValue) (k content : List ℕ) → iv.block_id < s.sizes.block_type_count
      → length content ≤ s.sizes.block_size_array iv.block_id
      → Stores bdb k content s.index_lock
          (fail_as (negsuc 0) (modify_block bdb crc32_calc env iv k content s))
  unfolding modify_at
  modify_block-Stores s w iv k content lt fits = record {
    state = (modify_at bdb crc32_calc env iv k content f s).1;
    ends = rw (
      modify_block-eq-done laws crc32_calc env works s w iv k content lt fits,
      fail_as,
      code-modify_at s iv k content f,
    );
    held = modify_at-Holds_self laws crc32_calc env works s w iv k content;
    lock = refl;
  }
    where
      f : DataFile
      f = (sync_data env iv.block_id iv.offset content (s.disk iv.block_id)).1
