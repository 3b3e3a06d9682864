-- ===== src/Storage/Others.antt =====
-- src/storage.c: an update or a delete of one key leaves what the store holds under the others.
use linglongta.Prelude.{
  ℕ, ◌≡◌, ◌≢◌, refl, ap, ◌∙◌, inl, inr, arith, List, length, ℤ, negsuc, leb, ◌&&◌, Bool-cases,
  Option-cases,
}
use linglongta.Rwlock.{Lock, wrlock}
use linglongta.Storage.Sizes.{find_block_file, calc_block_size}
use linglongta.Storage.Types.{
  Key, fix_key, IndexValue, Lookup, hit, miss, failed, BdbOps, BdbLaws, BdbHandle, Storage, Env,
  Run, done, aborted, blocked, undefined,
}
use linglongta.Storage.Files.{fd_open, sync_data}
use linglongta.Storage.Slots.Take.{take_slot-Taken}
use linglongta.Storage.Blocks.{is_zero, find_record, append_block, modify_block, do_delete_block}
use linglongta.Storage.Ops.{
  append_moved, replace_block, insert_block, unless_unset, update_found, update_locked, ex_unlock,
  update_block, delete_found, delete_locked, delete_block,
}
use linglongta.Storage.Invariant.{IsStore}
use linglongta.Storage.Invariant.Steps.{OnDone, do_delete_block-IsStore}
use linglongta.Storage.Invariant.Calls.{
  AllRoom, OnDone-fail_as, dbp-find_record, find_record-eq-hit, do_delete_block-AllRoom, relocked,
}
use linglongta.Storage.View.{
  Holds, append_at-Holds_ne, modify_at-Holds_ne, do_delete_block-Holds_ne,
}
use linglongta.Storage.Stored.{fix_key-fix_key}

-- The lock and `error_no` are no part of the view.
relocked_held :
    {Db : Type 0} {bdb : BdbOps Db} {s : Storage Db} (h : BdbHandle Db) (l : Lock) {j : Key}
    {d : List ℕ}
    → h.dbp ≡ s.indexdb.dbp
    → Holds bdb s j d
    → Holds bdb (record s { indexdb = h; index_lock = l }) j d
relocked_held {bdb = bdb} h l {j} same held = record {
  iv = held.iv;
  entry = ap (λ x. bdb.get x j) same ∙ held.entry;
  reads = held.reads;
  whole = held.whole;
}

module _ {Db : Type 0} {bdb : BdbOps Db} (laws : BdbLaws bdb) (crc32_calc : List ℕ → ℕ) (env : Env)
    (j : Key) (d : List ℕ) where
  -- `j` holds `d` in the state that a call leaves.
  abbrev Kept : Storage Db → Type 0
  Kept s = Holds bdb s j d

  append_block-Kept :
      (s : Storage Db)
      → IsStore bdb s
      → AllRoom s
      → Kept s
      → (b : ℕ) (k content : List ℕ) → j ≢ fix_key k
      → OnDone (λ r. Kept r.1) (append_block bdb crc32_calc env b k content s)
  unfolding append_block
  append_block-Kept s w room held b k content ne =
      elim (Bool-cases (leb s.sizes.block_type_count b)) [
        | inl bad ↦ rw bad held
        | inr good ↦
            rw good
              (elim (Bool-cases
                (fd_open (s.files b).fd && leb (length content) (s.sizes.block_size_array b))) [
                  | inl ok ↦ rw ok (
                      append_at-Holds_ne laws crc32_calc env s w j d held b k content _ _
                        (ground arith) (ground arith)
                        (take_slot-Taken (s.files b) (w.files.sound b (ground arith))
                          (room b (ground arith)))
                        ne)
                  | inr no_fit ↦ rw no_fit tt
                ])
      ]

  modify_block-Kept :
      (s : Storage Db)
      → IsStore bdb s
      → Kept s
      → (iv : IndexValue) (k content : List ℕ) → bdb.get s.indexdb.dbp k ≡ hit iv
      → j ≢ k
      → OnDone (λ r. Kept r.1) (modify_block bdb crc32_calc env iv k content s)
  unfolding modify_block
  modify_block-Kept s w held iv k content here ne =
      elim (Bool-cases (leb s.sizes.block_type_count iv.block_id)) [
        | inl bad ↦ rw bad held
        | inr good ↦
            rw good
              (elim (Bool-cases (
                fd_open (s.files iv.block_id).fd
                && leb (length content) (s.sizes.block_size_array iv.block_id)
                && is_zero (sync_data env iv.block_id iv.offset content (s.disk iv.block_id)).0)) [
                  | inl ok ↦ rw ok (
                      modify_at-Holds_ne laws crc32_calc env s w j d held iv k content here
                        (ground arith) ne)
                  | inr no_fit ↦ rw no_fit tt
                ])
      ]

  append_moved-Kept :
      (k content : List ℕ) (r : ℤ × Storage Db)
      → IsStore bdb r.1
      → AllRoom r.1
      → Kept r.1
      → j ≢ fix_key k
      → OnDone (λ x. Kept x.1) (append_moved bdb crc32_calc env k content r)
  append_moved-Kept k content (ret, s) w room held ne = elim (Bool-cases (is_zero ret)) [
    | inl good ↦
        rw good (OnDone-fail_as Kept (negsuc 2) _ (append_block-Kept s w room held _ k content ne))
    | inr bad ↦ rw bad held
  ]

  unset-Kept :
      (s : Storage Db)
      → Kept s
      → OnDone (λ r. Kept r.1) (unless_unset bdb crc32_calc env (done (negsuc 0, s)))
  unset-Kept s held = elim (Bool-cases (env.can_alloc 24)) [ inl e ↦ rw e held | inr e ↦ rw e tt ]

  update_found-Kept :
      (found : Lookup) (s : Storage Db)
      → IsStore bdb s
      → AllRoom s
      → Kept s
      → (k content : List ℕ)
      → ((iv : IndexValue) → found ≡ hit iv → bdb.get s.indexdb.dbp k ≡ hit iv)
      → fix_key k ≡ k
      → j ≢ k
      → OnDone (λ r. Kept r.1) (update_found bdb crc32_calc env found k content s)
  unfolding update_found replace_block
  update_found-Kept (failed c) s w room held k content here fixed ne = unset-Kept s held
  update_found-Kept miss s w room held k content here fixed ne =
      elim (Option-cases (find_block_file s.sizes (calc_block_size (length content)))) [
        | inl no_fit ↦ rw (no_fit, insert_block) held
        | inr (b, fit) ↦
            rw (fit, insert_block)
              (OnDone-fail_as Kept (negsuc 3) _
                (append_block-Kept s w room held b k content (λ e. ne (e ∙ fixed))))
      ]
  update_found-Kept (hit iv) s w room held k content here fixed ne =
      elim (Bool-cases (leb (length content) (s.sizes.block_size_array iv.block_id))) [
        | inl stays ↦ rw stays (
            OnDone-fail_as Kept (negsuc 0) _
              (modify_block-Kept s w held iv k content (here iv refl) ne))
        | inr moves ↦ rw moves (
            append_moved-Kept k content (do_delete_block bdb crc32_calc env iv k s)
              (do_delete_block-IsStore laws crc32_calc env s w iv k (here iv refl))
              (do_delete_block-AllRoom laws crc32_calc env s w room iv k (here iv refl))
              (do_delete_block-Holds_ne laws crc32_calc env s w j d held iv k (here iv refl) ne)
              (λ e. ne (e ∙ fixed)))
      ]

  ex_unlock-Kept :
      (r : Run (ℤ × Storage Db)) → OnDone (λ x. Kept x.1) r → OnDone (λ x. Kept x.1) (ex_unlock r)
  ex_unlock-Kept (done (ret, s)) held = relocked_held s.indexdb _ refl held
  ex_unlock-Kept aborted h = tt
  ex_unlock-Kept blocked h = tt
  ex_unlock-Kept undefined h = tt

  module _ (s : Storage Db) (w : IsStore bdb s) (held : Holds bdb s j d) where
    find_agrees :
        (k : Key) (iv : IndexValue)
        → (find_record bdb env s.indexdb k).0 ≡ hit iv
        → bdb.get (find_record bdb env s.indexdb k).1.dbp k ≡ hit iv
    find_agrees k iv e =
        ap (λ x. bdb.get x k) (dbp-find_record bdb env s.indexdb k)
        ∙ find_record-eq-hit bdb env s.indexdb k iv e

    -- In a sound store whose data files can each grow by one block, whatever the kernel and the index
    -- answer, and whatever memory there is: wherever `update_block` returns, with whatever code, what was
    -- held under another key is still held. Where the index lookup has no memory for its value the call
    -- frees a pointer that was never set, and nothing is said of what comes then.
    pub update_block-Holds_ne :
        (key content : List ℕ)
        → AllRoom s
        → j ≢ fix_key key
        → OnDone (λ r. Holds bdb r.1 j d) (update_block bdb crc32_calc env key content s)
    unfolding update_block update_locked
    update_block-Holds_ne key content room ne = elim (Option-cases (wrlock s.index_lock)) [
      | inl waits ↦ rw waits tt
      | inr (l, locks) ↦ rw locks (
          ex_unlock-Kept _ (
            update_found-Kept _ _
              (relocked s _ l (dbp-find_record bdb env s.indexdb (fix_key key)) w) room
              (relocked_held _ l (dbp-find_record bdb env s.indexdb (fix_key key)) held)
              (fix_key key) content (find_agrees (fix_key key)) (fix_key-fix_key key) ne))
    ]

    delete_found-Kept :
        (found : Lookup) (t : Storage Db)
        → IsStore bdb t
        → Kept t
        → (k : Key) → ((iv : IndexValue) → found ≡ hit iv → bdb.get t.indexdb.dbp k ≡ hit iv)
        → j ≢ k
        → OnDone (λ r. Kept r.1) (delete_found bdb crc32_calc env found k t)
    unfolding delete_found
    delete_found-Kept (hit iv) t v kept k here ne =
        do_delete_block-Holds_ne laws crc32_calc env t v j d kept iv k (here iv refl) ne
    delete_found-Kept miss t v kept k here ne = kept
    delete_found-Kept (failed c) t v kept k here ne = unset-Kept t kept

    -- In a sound store, whatever the kernel and the index answer, and whatever memory there is: wherever
    -- `delete_block` returns, with whatever code, what was held under another key is still held. Where the
    -- index lookup has no memory for its value the call frees a pointer that was never set, and nothing is
    -- said of what comes then.
    pub delete_block-Holds_ne :
        (key : List ℕ)
        → j ≢ fix_key key
        → OnDone (λ r. Holds bdb r.1 j d) (delete_block bdb crc32_calc env key s)
    unfolding delete_block delete_locked
    delete_block-Holds_ne key ne = elim (Option-cases (wrlock s.index_lock)) [
      | inl waits ↦ rw waits tt
      | inr (l, locks) ↦ rw locks (
          ex_unlock-Kept _ (
            delete_found-Kept _ _
              (relocked s _ l (dbp-find_record bdb env s.indexdb (fix_key key)) w)
              (relocked_held _ l (dbp-find_record bdb env s.indexdb (fix_key key)) held)
              (fix_key key) (find_agrees (fix_key key)) ne))
    ]
