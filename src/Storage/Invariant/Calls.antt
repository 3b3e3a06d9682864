-- ===== src/Storage/Invariant/Calls.antt =====
-- src/storage.c: `update_block`, `delete_block` and `find_block` keep the invariant.
use linglongta.Prelude.{
  ℕ, ◌<◌, ◌≡◌, refl, sym, ap, ◌∙◌, inl, inr, arith, Option, none, some, List, length, ℤ, negsuc,
  update_ne, leb, Bool-cases, Option-cases, subst, ℕ_discrete,
}
use linglongta.Rwlock.{Lock, wrlock, rdlock}
use linglongta.Storage.Types.{
  Key, fix_key, IndexValue, Lookup, hit, miss, failed, BdbOps, BdbLaws, BdbHandle, Storage, Env,
  Run, done, aborted, blocked, undefined,
}
use linglongta.Storage.Slots.Take.{HasRoom}
use linglongta.Storage.Slots.Give.{give_slot-Given}
use linglongta.Storage.Blocks.{is_zero, find_record, del_record, do_delete_block}
use linglongta.Storage.Ops.{
  fail_as, append_moved, replace_block, insert_block, unless_unset, update_found, update_locked,
  ex_unlock, update_block, delete_found, delete_locked, delete_block, find_found, find_locked,
  find_block,
}
use linglongta.Storage.Invariant.{IsEntry, IsIndex, IsStore}
use linglongta.Storage.Invariant.Steps.{
  OnDone, append_block-IsStore, modify_block-IsStore, do_delete_block-IsStore,
}

-- Each data file can grow by one block and stays below 2^63 bytes.
abbrev pub AllRoom : {Db : Type 0} → Storage Db → Type 0
AllRoom s = (b : ℕ) → b < s.sizes.block_type_count → HasRoom (s.files b)

pub OnDone-fail_as {ℓ κ} :
    {A : Type ℓ} (P : A → Type κ) (code : ℤ) (r : Run (ℤ × A))
    → OnDone (λ x. P x.1) r
    → OnDone (λ x. P x.1) (fail_as code r)
OnDone-fail_as P code (done (ret, a)) h = h
OnDone-fail_as P code aborted h = tt
OnDone-fail_as P code blocked h = tt
OnDone-fail_as P code undefined h = tt

module _ {Db : Type 0} (bdb : BdbOps Db) (env : Env) (h : BdbHandle Db) (k : Key) where
  pub dbp-find_record : (find_record bdb env h k).1.dbp ≡ h.dbp
  unfolding find_record
  dbp-find_record = ground arith

  pub find_record-eq-hit :
      (iv : IndexValue) → (find_record bdb env h k).0 ≡ hit iv → bdb.get h.dbp k ≡ hit iv
  unfolding find_record
  find_record-eq-hit iv e = ground arith

module _ {Db : Type 0} {bdb : BdbOps Db} (laws : BdbLaws bdb) (crc32_calc : List ℕ → ℕ)
    (env : Env) where
  append_moved-IsStore :
      (k : Key) (content : List ℕ) (r : ℤ × Storage Db)
      → IsStore bdb r.1
      → AllRoom r.1
      → OnDone (λ x. IsStore bdb x.1) (append_moved bdb crc32_calc env k content r)
  append_moved-IsStore k content (ret, s) w room = elim (Bool-cases (is_zero ret)) [
    | inl good ↦ rw good (
        OnDone-fail_as (IsStore bdb) (negsuc 2) _
          (append_block-IsStore laws crc32_calc env s w _ k content room))
    | inr bad ↦ rw bad w
  ]

module _ {Db : Type 0} {bdb : BdbOps Db} (laws : BdbLaws bdb) (crc32_calc : List ℕ → ℕ) (env : Env)
    (s : Storage Db) (w : IsStore bdb s) (room : AllRoom s) where
  pub do_delete_block-AllRoom :
      (iv : IndexValue) (key : Key)
      → bdb.get s.indexdb.dbp key ≡ hit iv
      → AllRoom (do_delete_block bdb crc32_calc env iv key s).1
  unfolding do_delete_block
  do_delete_block-AllRoom iv key here =
      elim (Bool-cases (is_zero (del_record bdb s.indexdb key).0)) [
        | inr bad ↦ rw bad room
        | inl good ↦
            rw good
              (elim (give_slot-Given (s.files iv.block_id) iv.offset
                (w.files.sound iv.block_id e.in_range) e.used) [
                  | inl (_, full) ↦ rw full room
                  | inr (fh, freed, given) ↦ rw freed (λ b lt. elim (ℕ_discrete iv.block_id b) [
                    | yes q ↦ ground (arith, room b lt, given.same_total, given.same_size)
                    | no ne ↦ rw (update_ne s.files iv.block_id b fh ne) (room b lt)
                  ])
                ])
      ]
    where
      e : IsEntry s.sizes s.files iv
      e = w.index.entry key iv here

  replace_block-IsStore :
      (iv : IndexValue) (k : Key) (content : List ℕ)
      → bdb.get s.indexdb.dbp k ≡ hit iv
      → OnDone (λ r. IsStore bdb r.1) (replace_block bdb crc32_calc env iv k content s)
  unfolding replace_block
  replace_block-IsStore iv k content here =
      elim (Bool-cases (leb (length content) (s.sizes.block_size_array iv.block_id))) [
        | inl stays ↦ rw stays (
            OnDone-fail_as (IsStore bdb) (negsuc 0) _
              (modify_block-IsStore laws crc32_calc env s w iv k content here))
        | inr moves ↦ rw moves (
            append_moved-IsStore laws crc32_calc env k content
              (do_delete_block bdb crc32_calc env iv k s)
              (do_delete_block-IsStore laws crc32_calc env s w iv k here)
              (do_delete_block-AllRoom iv k here))
      ]

  insert_block-IsStore :
      (b : Option ℕ) (k : Key) (content : List ℕ)
      → OnDone (λ r. IsStore bdb r.1) (insert_block bdb crc32_calc env b k content s)
  insert_block-IsStore none k content = w
  insert_block-IsStore (some b) k content =
      OnDone-fail_as (IsStore bdb) (negsuc 3) _
        (append_block-IsStore laws crc32_calc env s w b k content room)

  unset-IsStore :
      OnDone (λ r. IsStore bdb r.1) (unless_unset bdb crc32_calc env (done (negsuc 0, s)))
  unset-IsStore = elim (Bool-cases (env.can_alloc 24)) [ inl e ↦ rw e w | inr e ↦ rw e tt ]

  update_found-IsStore :
      (found : Lookup) (k : Key) (content : List ℕ)
      → ((iv : IndexValue) → found ≡ hit iv → bdb.get s.indexdb.dbp k ≡ hit iv)
      → OnDone (λ r. IsStore bdb r.1) (update_found bdb crc32_calc env found k content s)
  unfolding update_found
  update_found-IsStore (hit iv) k content here = replace_block-IsStore iv k content (here iv refl)
  update_found-IsStore miss k content here = insert_block-IsStore _ k content
  update_found-IsStore (failed c) k content here = unset-IsStore

  delete_found-IsStore :
      (found : Lookup) (k : Key)
      → ((iv : IndexValue) → found ≡ hit iv → bdb.get s.indexdb.dbp k ≡ hit iv)
      → OnDone (λ r. IsStore bdb r.1) (delete_found bdb crc32_calc env found k s)
  unfolding delete_found
  delete_found-IsStore (hit iv) k here =
      do_delete_block-IsStore laws crc32_calc env s w iv k (here iv refl)
  delete_found-IsStore miss k here = w
  delete_found-IsStore (failed c) k here = unset-IsStore

-- The lock and `error_no` are no part of the invariant.
pub relocked :
    {Db : Type 0} {bdb : BdbOps Db} (s : Storage Db) (h : BdbHandle Db) (l : Lock)
    → h.dbp ≡ s.indexdb.dbp
    → IsStore bdb s
    → IsStore bdb (record s { indexdb = h; index_lock = l })
relocked {bdb = bdb} s h l same w = record {
  table = w.table;
  files = w.files;
  index = subst (IsIndex s.sizes s.files bdb) (sym same) w.index;
}

ex_unlock-IsStore :
    {Db : Type 0} (bdb : BdbOps Db) (r : Run (ℤ × Storage Db))
    → OnDone (λ x. IsStore bdb x.1) r
    → OnDone (λ x. IsStore bdb x.1) (ex_unlock r)
ex_unlock-IsStore bdb (done (ret, s)) h = relocked s s.indexdb _ refl h
ex_unlock-IsStore bdb aborted h = tt
ex_unlock-IsStore bdb blocked h = tt
ex_unlock-IsStore bdb undefined h = tt

module _ {Db : Type 0} {bdb : BdbOps Db} (laws : BdbLaws bdb) (crc32_calc : List ℕ → ℕ) (env : Env)
    (s : Storage Db) (w : IsStore bdb s) where
  update_locked-IsStore :
      (k : Key) (content : List ℕ) (l : Lock)
      → AllRoom s
      → OnDone
          (λ r. IsStore bdb r.1)
          (update_locked bdb crc32_calc env k content (record s { index_lock = l }))
  unfolding update_locked
  update_locked-IsStore k content l room =
      update_found-IsStore laws crc32_calc env _
        (relocked s _ l (dbp-find_record bdb env s.indexdb k) w) room _ k content
        (λ iv e.
          ap (λ d. bdb.get d k) (dbp-find_record bdb env s.indexdb k)
          ∙ find_record-eq-hit bdb env s.indexdb k iv e)

  delete_locked-IsStore :
      (k : Key) (l : Lock)
      → AllRoom s
      → OnDone
          (λ r. IsStore bdb r.1)
          (delete_locked bdb crc32_calc env k (record s { index_lock = l }))
  unfolding delete_locked
  delete_locked-IsStore k l room =
      delete_found-IsStore laws crc32_calc env _
        (relocked s _ l (dbp-find_record bdb env s.indexdb k) w) room _ k
        (λ iv e.
          ap (λ d. bdb.get d k) (dbp-find_record bdb env s.indexdb k)
          ∙ find_record-eq-hit bdb env s.indexdb k iv e)

  -- In a sound store whose data files can each grow by one block, whatever the kernel and the index answer,
  -- and whatever memory there is: wherever `update_block` returns, the store is sound. Where the index
  -- lookup has no memory for its value the call frees a pointer that was never set, and nothing is said of
  -- what comes then.
  pub update_block-IsStore :
      (key content : List ℕ)
      → AllRoom s
      → OnDone (λ r. IsStore bdb r.1) (update_block bdb crc32_calc env key content s)
  unfolding update_block
  update_block-IsStore key content room = elim (Option-cases (wrlock s.index_lock)) [
    | inl waits ↦ rw waits tt
    | inr (l, locks) ↦
        rw locks (ex_unlock-IsStore bdb _ (update_locked-IsStore (fix_key key) content l room))
  ]

  -- In a sound store whose data files can each grow by one block, whatever the kernel and the index answer,
  -- and whatever memory there is: wherever `delete_block` returns, the store is sound. Where the index
  -- lookup has no memory for its value the call frees a pointer that was never set, and nothing is said of
  -- what comes then.
  pub delete_block-IsStore :
      (key : List ℕ)
      → AllRoom s
      → OnDone (λ r. IsStore bdb r.1) (delete_block bdb crc32_calc env key s)
  unfolding delete_block
  delete_block-IsStore key room = elim (Option-cases (wrlock s.index_lock)) [
    | inl waits ↦ rw waits tt
    | inr (l, locks) ↦ rw locks (
        ex_unlock-IsStore bdb
          (delete_locked bdb crc32_calc env (fix_key key) (record s { index_lock = l }))
          (delete_locked-IsStore (fix_key key) l room))
  ]

  find_found-IsStore :
      (found : Lookup) (t : Storage Db)
      → IsStore bdb t
      → IsStore bdb (find_found bdb crc32_calc env found t).1
  unfolding find_found
  find_found-IsStore (hit iv) t v = elim (Bool-cases (env.can_alloc iv.data_size)) [
    | inl got ↦ rw got (relocked t t.indexdb _ refl v)
    | inr full ↦ rw full v
  ]
  find_found-IsStore miss t v = relocked t t.indexdb _ refl v
  find_found-IsStore (failed c) t v = relocked t t.indexdb _ refl v

  find_locked-IsStore :
      (k : Key) (l : Lock)
      → IsStore bdb (find_locked bdb crc32_calc env k (record s { index_lock = l })).1
  unfolding find_locked
  find_locked-IsStore k l =
      find_found-IsStore _ _ (relocked s _ l (dbp-find_record bdb env s.indexdb k) w)

  -- `find_block` keeps the invariant.
  pub find_block-IsStore :
      (key : List ℕ) → OnDone (λ r. IsStore bdb r.1) (find_block bdb crc32_calc env key s)
  unfolding find_block
  find_block-IsStore key = elim (Option-cases (rdlock s.index_lock)) [
    | inl waits ↦ rw waits tt
    | inr (l, locks) ↦ rw locks (find_locked-IsStore (fix_key key) l)
  ]
