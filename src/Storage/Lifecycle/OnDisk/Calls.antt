-- ===== src/Storage/Lifecycle/OnDisk/Calls.antt =====
-- src/storage.c: `update_block` and `delete_block` keep the data files in step with the block files.
use linglongta.Prelude.{
  ℕ, ◌<◌, ◌≡◌, inl, inr, Bool, true, Option, none, some, List, length, leb, ◌&&◌, Bool-cases,
  Option-cases, ℤ, negsuc,
}
use linglongta.Rwlock.{rdlock, wrlock}
use linglongta.Storage.Sizes.{find_block_file, calc_block_size}
use linglongta.Storage.Types.{
  BlockFile, Key, fix_key, IndexValue, OpType, Lookup, hit, miss, failed, BdbOps, Storage, Env, Run,
  done, aborted, blocked, undefined,
}
use linglongta.Storage.Files.{fd_open, sync_data, sync_data_file_header, sync_slot}
use linglongta.Storage.Blocks.{
  is_zero, del_record, find_record, store_block, append_at, append_block, modify_at, modify_block,
  free_block, put_index, log_item, do_delete_block,
}
use linglongta.Storage.Ops.{
  append_moved, replace_block, insert_block, unless_unset, update_found, update_locked, ex_unlock,
  update_block, delete_found, delete_locked, delete_block, find_found, find_locked, find_block,
}
use linglongta.Storage.Invariant.Steps.{OnDone}
use linglongta.Storage.Invariant.Calls.{OnDone-fail_as}
use linglongta.Storage.Lifecycle.OnDisk.{
  HasSlots, OnDisk, OnSome, update-AreOnDisk, disk-AreOnDisk, header-HasSlots, sync_data-HasSlots,
  take_slot-HasSlots, give_slot-HasSlots,
}

module _ {Db : Type 0} (bdb : BdbOps Db) (crc32_calc : List ℕ → ℕ) (env : Env) (there : ℕ → Bool)
    (written : (b i : ℕ) → env.slot_written b i ≡ true) where
  append_block-OnDisk :
      (s : Storage Db)
      → OnDisk there s
      → (b : ℕ) (k content : List ℕ)
      → OnDone (λ r. OnDisk there r.1) (append_block bdb crc32_calc env b k content s)
  unfolding append_block append_at store_block
  append_block-OnDisk s w b k content = elim (Bool-cases (leb s.sizes.block_type_count b)) [
    | inl bad ↦ rw bad w
    | inr good ↦
        rw good
          (elim (Bool-cases
            (fd_open (s.files b).fd && leb (length content) (s.sizes.block_size_array b))) [
              | inl ok ↦ rw ok (
                  update-AreOnDisk there s.sizes.block_type_count s.files s.disk b _ _ w (λ h.
                    sync_data-HasSlots env b _ content _ _ (
                      header-HasSlots env b _ _ _
                        (take_slot-HasSlots (s.files b) (s.disk b) (w.file b h)))))
              | inr no_fit ↦ rw no_fit tt
            ])
  ]

  modify_block-OnDisk :
      (s : Storage Db)
      → OnDisk there s
      → (iv : IndexValue) (k content : List ℕ)
      → OnDone (λ r. OnDisk there r.1) (modify_block bdb crc32_calc env iv k content s)
  unfolding modify_block modify_at
  modify_block-OnDisk s w iv k content =
      elim (Bool-cases (leb s.sizes.block_type_count iv.block_id)) [
        | inl bad ↦ rw bad w
        | inr good ↦
            rw good
              (elim (Bool-cases (
                fd_open (s.files iv.block_id).fd
                && leb (length content) (s.sizes.block_size_array iv.block_id)
                && is_zero (sync_data env iv.block_id iv.offset content (s.disk iv.block_id)).0)) [
                  | inl ok ↦ rw ok (
                      disk-AreOnDisk there s.sizes.block_type_count s.files s.disk iv.block_id _ w
                        (λ h.
                          sync_data-HasSlots env iv.block_id iv.offset content _ _
                            (w.file iv.block_id h)))
                  | inr no_fit ↦ rw no_fit tt
                ])
      ]

  free_block-OnDisk :
      (s : Storage Db)
      → OnDisk there s
      → (b offset : ℕ) (given : Option BlockFile)
      → (b < s.sizes.block_type_count
          → OnSome
              (λ fh. HasSlots fh (
                sync_slot env b
                  (s.files b).free_slots_cnt
                  offset
                  (sync_data_file_header env b fh (s.disk b))))
              given)
      → OnDisk there (free_block bdb crc32_calc env b offset given s)
  free_block-OnDisk s w b offset none here = w
  free_block-OnDisk s w b offset (some fh) here =
      update-AreOnDisk there s.sizes.block_type_count s.files s.disk b fh _ w here

  do_delete_block-OnDisk :
      (s : Storage Db)
      → OnDisk there s
      → (iv : IndexValue) (k : List ℕ) → OnDisk there (do_delete_block bdb crc32_calc env iv k s).1
  unfolding do_delete_block
  do_delete_block-OnDisk s w iv k = elim (Bool-cases (is_zero (del_record bdb s.indexdb k).0)) [
    | inr bad ↦ rw bad w
    | inl good ↦ rw good (
        free_block-OnDisk
          (put_index bdb crc32_calc env (log_item bdb crc32_calc env OpType.index_del k iv s)
            (del_record bdb s.indexdb k))
          w iv.block_id iv.offset _
          (λ h.
            give_slot-HasSlots env iv.block_id iv.offset (s.files iv.block_id) _ (written _ _)
              (λ x. header-HasSlots env iv.block_id _ x _ (w.file iv.block_id h))))
  ]

  append_moved-OnDisk :
      (k content : List ℕ) (r : ℤ × Storage Db)
      → OnDisk there r.1
      → OnDone (λ x. OnDisk there x.1) (append_moved bdb crc32_calc env k content r)
  append_moved-OnDisk k content (ret, s) w = elim (Bool-cases (is_zero ret)) [
    | inl good ↦
        rw good (OnDone-fail_as (OnDisk there) (negsuc 2) _ (append_block-OnDisk s w _ k content))
    | inr bad ↦ rw bad w
  ]

  unset-OnDisk :
      (s : Storage Db)
      → OnDisk there s
      → OnDone (λ r. OnDisk there r.1) (unless_unset bdb crc32_calc env (done (negsuc 0, s)))
  unset-OnDisk s w = elim (Bool-cases (env.can_alloc 24)) [ inl e ↦ rw e w | inr e ↦ rw e tt ]

  update_found-OnDisk :
      (found : Lookup) (s : Storage Db)
      → OnDisk there s
      → (k content : List ℕ)
      → OnDone (λ r. OnDisk there r.1) (update_found bdb crc32_calc env found k content s)
  unfolding update_found replace_block
  update_found-OnDisk (failed c) s w k content = unset-OnDisk s w
  update_found-OnDisk miss s w k content =
      elim (Option-cases (find_block_file s.sizes (calc_block_size (length content)))) [
        | inl no_fit ↦ rw (no_fit, insert_block) w
        | inr (b, fit) ↦
            rw (fit, insert_block)
              (OnDone-fail_as (OnDisk there) (negsuc 3) _ (append_block-OnDisk s w b k content))
      ]
  update_found-OnDisk (hit iv) s w k content =
      elim (Bool-cases (leb (length content) (s.sizes.block_size_array iv.block_id))) [
        | inl stays ↦
            rw stays
              (OnDone-fail_as (OnDisk there) (negsuc 0) _ (modify_block-OnDisk s w iv k content))
        | inr moves ↦ rw moves (
            append_moved-OnDisk k content (do_delete_block bdb crc32_calc env iv k s)
              (do_delete_block-OnDisk s w iv k))
      ]

  delete_found-OnDisk :
      (found : Lookup) (s : Storage Db)
      → OnDisk there s
      → (k : Key) → OnDone (λ r. OnDisk there r.1) (delete_found bdb crc32_calc env found k s)
  unfolding delete_found
  delete_found-OnDisk (hit iv) s w k = do_delete_block-OnDisk s w iv k
  delete_found-OnDisk miss s w k = w
  delete_found-OnDisk (failed c) s w k = unset-OnDisk s w

  ex_unlock-OnDisk :
      (r : Run (ℤ × Storage Db))
      → OnDone (λ x. OnDisk there x.1) r
      → OnDone (λ x. OnDisk there x.1) (ex_unlock r)
  ex_unlock-OnDisk (done (ret, s)) w = w
  ex_unlock-OnDisk aborted h = tt
  ex_unlock-OnDisk blocked h = tt
  ex_unlock-OnDisk undefined h = tt

  pub update_block-OnDisk :
      (s : Storage Db)
      → OnDisk there s
      → (key content : List ℕ)
      → OnDone (λ r. OnDisk there r.1) (update_block bdb crc32_calc env key content s)
  unfolding update_block update_locked
  update_block-OnDisk s w key content = elim (Option-cases (wrlock s.index_lock)) [
    | inl waits ↦ rw waits tt
    | inr (l, locks) ↦
        rw locks (ex_unlock-OnDisk _ (update_found-OnDisk _ _ w (fix_key key) content))
  ]

  pub delete_block-OnDisk :
      (s : Storage Db)
      → OnDisk there s
      → (key : List ℕ) → OnDone (λ r. OnDisk there r.1) (delete_block bdb crc32_calc env key s)
  unfolding delete_block delete_locked
  delete_block-OnDisk s w key = elim (Option-cases (wrlock s.index_lock)) [
    | inl waits ↦ rw waits tt
    | inr (l, locks) ↦ rw locks (
        ex_unlock-OnDisk
          (delete_locked bdb crc32_calc env (fix_key key) (record s { index_lock = l }))
          (delete_found-OnDisk _
            (record s { indexdb = (find_record bdb env s.indexdb (fix_key key)).1; index_lock = l })
            w (fix_key key)))
  ]

module _ {Db : Type 0} (bdb : BdbOps Db) (crc32_calc : List ℕ → ℕ) (env : Env)
    (there : ℕ → Bool) where
  find_found-OnDisk :
      (found : Lookup) (s : Storage Db)
      → OnDisk there s
      → OnDisk there (find_found bdb crc32_calc env found s).1
  unfolding find_found
  find_found-OnDisk (hit iv) s w = elim (Bool-cases (env.can_alloc iv.data_size)) [
    | inl got ↦ rw got w
    | inr full ↦ rw full w
  ]
  find_found-OnDisk miss s w = w
  find_found-OnDisk (failed c) s w = w

  pub find_block-OnDisk :
      (s : Storage Db)
      → OnDisk there s
      → (key : List ℕ) → OnDone (λ r. OnDisk there r.1) (find_block bdb crc32_calc env key s)
  unfolding find_block find_locked
  find_block-OnDisk s w key = elim (Option-cases (rdlock s.index_lock)) [
    | inl waits ↦ rw waits tt
    | inr (l, locks) ↦ rw locks (
        find_found-OnDisk _
          (record s { indexdb = (find_record bdb env s.indexdb (fix_key key)).1; index_lock = l })
          w)
  ]
