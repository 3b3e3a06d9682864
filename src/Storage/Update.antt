-- ===== src/Storage/Update.antt =====
-- src/storage.c: `update_block` stores its data under its key.
use linglongta.Prelude.{
  ℕ, ◌^◌, ◌≤◌, ◌<◌, ◌≡◌, ◌≢◌, refl, ap, ◌∙◌, inl, inr, arith, true, some, List, length, ℤ, pos,
  negsuc, leb, Bool-cases, subst,
}
use linglongta.Rwlock.{Lock, rwlock_build, wrlock, unwrlock}
use linglongta.Storage.Sizes.{SizeTable, find_block_file, calc_block_size}
use linglongta.Storage.Sizes.Table.{IsSizeTable}
use linglongta.Storage.Sizes.Fit.{find_block_file-calc_block_size}
use linglongta.Storage.Types.{
  Key, fix_key, IndexValue, Lookup, hit, miss, failed, BdbOps, BdbLaws, BdbHandle, Storage, Env,
  Run,
}
use linglongta.Storage.Blocks.{find_record, append_block, do_delete_block}
use linglongta.Storage.Ops.{
  fail_as, as_size, append_moved, replace_block, insert_block, update_found, update_locked,
  ex_unlock, update_block,
}
use linglongta.Storage.Invariant.{IsStore}
use linglongta.Storage.Invariant.Steps.{do_delete_block-IsStore}
use linglongta.Storage.Invariant.Calls.{dbp-find_record, find_record-eq-hit, relocked}
use linglongta.Storage.View.{Holds}
use linglongta.Storage.Written.{
  Stores, code-do_delete_block, sizes-do_delete_block, append_block-Stores, modify_block-Stores,
}
use linglongta.Storage.Stored.{Works, fix_key-fix_key}

module _ {Db : Type 0} {bdb : BdbOps Db} (laws : BdbLaws bdb) (crc32_calc : List ℕ → ℕ) (env : Env)
    (works : Works bdb env) where
  -- Some block type holds the data.
  module _ (t : SizeTable) (table : IsSizeTable t) (content : List ℕ)
      (small : length content < 2 ^ 31) (c : ℕ) (c_lt : c < t.block_type_count)
      (c_fits : length content ≤ t.block_size_array c) where
    fitting :
        (b : ℕ) × (find_block_file t (calc_block_size (length content)) ≡ some b)
        × (b < t.block_type_count)
        × (length content ≤ t.block_size_array b)
    fitting = elim (find_block_file-calc_block_size t (length content) table small) [
      | inl (b, found, fit) ↦ (b, found, fit.in_range, fit.fits)
      | inr (found, large) ↦ absurd (omega (arith, large c c_lt))
    ]

    fitting_at :
        (s : Storage Db)
        → s.sizes ≡ t
        → (b : ℕ) × (find_block_file s.sizes (calc_block_size (length content)) ≡ some b)
          × (b < s.sizes.block_type_count)
          × (length content ≤ s.sizes.block_size_array b)
    fitting_at s same =
        let (b, found, lt, fits) = fitting in
        (
          b,
          ap (λ (z : SizeTable). find_block_file z (calc_block_size (length content))) same ∙ found,
          omega (arith, ap (λ (z : SizeTable). z.block_type_count) same),
          omega (arith, ap (λ (z : SizeTable). z.block_size_array b) same),
        )

    append_fitting :
        (s : Storage Db)
        → IsStore bdb s
        → s.sizes ≡ t
        → (k : Key) (code : ℤ)
        → Stores bdb (fix_key k) content s.index_lock (
            fail_as code (
              append_block bdb crc32_calc env
                (as_size (find_block_file s.sizes (calc_block_size (length content))))
                k
                content
                s))
    append_fitting s w same k code =
        let (b, found, lt, fits) = fitting_at s same in
        rw (found, as_size)
          (append_block-Stores laws crc32_calc env works s w b k content lt fits code)

    insert_fitting :
        (s : Storage Db)
        → IsStore bdb s
        → s.sizes ≡ t
        → (k : Key)
        → Stores bdb (fix_key k) content s.index_lock (
            insert_block bdb crc32_calc env
              (find_block_file s.sizes (calc_block_size (length content)))
              k
              content
              s)
    insert_fitting s w same k =
        let (b, found, lt, fits) = fitting_at s same in
        rw (found, insert_block)
          (append_block-Stores laws crc32_calc env works s w b k content lt fits (negsuc 3))

    replace_block-Stores :
        (s : Storage Db)
        → IsStore bdb s
        → s.sizes ≡ t
        → (iv : IndexValue) (k : Key) → bdb.get s.indexdb.dbp k ≡ hit iv
        → fix_key k ≡ k
        → Stores bdb k content s.index_lock (replace_block bdb crc32_calc env iv k content s)
    unfolding replace_block
    replace_block-Stores s w same iv k here fixed =
        elim (Bool-cases (leb (length content) (s.sizes.block_size_array iv.block_id))) [
          | inl stays ↦ rw stays (
              modify_block-Stores laws crc32_calc env works s w iv k content
                (w.index.entry k iv here).in_range (ground arith))
          | inr moves ↦ rw (moves, append_moved, code) (moved)
        ]
      where
        s' : Storage Db
        s' = (do_delete_block bdb crc32_calc env iv k s).1

        code : (do_delete_block bdb crc32_calc env iv k s).0 ≡ pos 0
        code = code-do_delete_block bdb crc32_calc env iv k s (works.deletes _ k iv here)

        kept : (s'.sizes ≡ s.sizes) × (s'.index_lock ≡ s.index_lock)
        kept = sizes-do_delete_block bdb crc32_calc env iv k s

        moved : Stores bdb k content s.index_lock (
            fail_as (negsuc 2) (
              append_block bdb crc32_calc env
                (as_size (find_block_file s'.sizes (calc_block_size (length content))))
                k
                content
                s'))
        moved =
            let a =
              append_fitting s' (do_delete_block-IsStore laws crc32_calc env s w iv k here)
                (kept.0 ∙ same) k (negsuc 2) in
            record {
              state = a.state;
              ends = a.ends;
              held = subst (λ z. Holds bdb a.state z content) fixed a.held;
              lock = a.lock ∙ kept.1;
            }

    update_found-Stores :
        (found : Lookup) (s : Storage Db)
        → IsStore bdb s
        → s.sizes ≡ t
        → (k : Key) → ((iv : IndexValue) → found ≡ hit iv → bdb.get s.indexdb.dbp k ≡ hit iv)
        → ((e : ℤ) → found ≢ failed e)
        → fix_key k ≡ k
        → Stores bdb k content s.index_lock (update_found bdb crc32_calc env found k content s)
    unfolding update_found
    update_found-Stores (hit iv) s w same k here ok fixed =
        replace_block-Stores s w same iv k (here iv refl) fixed
    update_found-Stores miss s w same k here ok fixed =
        let a = insert_fitting s w same k in
        record {
          state = a.state;
          ends = a.ends;
          held = subst (λ z. Holds bdb a.state z content) fixed a.held;
          lock = a.lock;
        }
    update_found-Stores (failed e) s w same k here ok fixed = absurd (ok e refl)

find_record-ne-failed :
    {Db : Type 0} (bdb : BdbOps Db) (env : Env) (h : BdbHandle Db) (k : Key)
    → env.can_alloc 24 ≡ true
    → ((e : ℤ) → bdb.get h.dbp k ≢ failed e)
    → (e : ℤ) → (find_record bdb env h k).0 ≢ failed e
unfolding find_record
find_record-ne-failed bdb env h k room ok e q = ok e (ground arith)

ex_unlock-Stores :
    {Db : Type 0} (bdb : BdbOps Db) (k : Key) (content : List ℕ) (l : Lock)
    (r : Run (ℤ × Storage Db))
    → Stores bdb k content l r
    → Stores bdb k content (unwrlock l) (ex_unlock r)
ex_unlock-Stores bdb k content l r a = record {
  state = record a.state { index_lock = unwrlock a.state.index_lock };
  ends = ap ex_unlock a.ends;
  held = record {
    iv = a.held.iv;
    entry = a.held.entry;
    reads = a.held.reads;
    whole = a.held.whole;
  };
  lock = ap unwrlock a.lock;
}

module _ {Db : Type 0} {bdb : BdbOps Db} (laws : BdbLaws bdb) (crc32_calc : List ℕ → ℕ) (env : Env)
    (works : Works bdb env) (s : Storage Db) (w : IsStore bdb s) where
  -- With the index lock free, data below 2 GB that some block type holds, and an allocator, a kernel
  -- and an index that work, `update_block` returns 0, the store then holds the data under the key, and
  -- the index lock is free again.
  pub update_block-Stores :
      (key content : List ℕ)
      → s.index_lock ≡ rwlock_build
      → length content < 2 ^ 31
      → (c : ℕ) → c < s.sizes.block_type_count
      → length content ≤ s.sizes.block_size_array c
      → ((e : ℤ) → bdb.get s.indexdb.dbp (fix_key key) ≢ failed e)
      → Stores bdb
          (fix_key key)
          content
          rwlock_build
          (update_block bdb crc32_calc env key content s)
  unfolding update_block wrlock update_locked
  update_block-Stores key content free small c c_lt c_fits ok = rw free (
      ex_unlock-Stores bdb _ content _ _ (
        update_found-Stores laws crc32_calc env works s.sizes w.table content small c c_lt c_fits _
          _ (relocked s _ _ (dbp-find_record bdb env s.indexdb (fix_key key)) w) refl (fix_key key)
          (λ iv e.
            ap (λ d. bdb.get d (fix_key key)) (dbp-find_record bdb env s.indexdb (fix_key key))
            ∙ find_record-eq-hit bdb env s.indexdb (fix_key key) iv e)
          (find_record-ne-failed bdb env s.indexdb (fix_key key) (works.allocates 24) ok)
          (fix_key-fix_key key)))
