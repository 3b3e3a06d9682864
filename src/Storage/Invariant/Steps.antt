-- ===== src/Storage/Invariant/Steps.antt =====
-- src/storage.c: `append_block`, `modify_block` and `do_delete_block` keep the invariant, whatever the
-- allocator, the kernel and the index answer.
use linglongta.Prelude.{
  ℕ, ◌^◌, ◌≤◌, ◌<◌, ◌≡◌, sym, ◌∙◌, inl, inr, arith, List, length, pos, update, update_self, leb,
  Bool-cases, ◌&&◌, subst,
}
use linglongta.Storage.Types.{
  BlockFile, DataFile, Key, fix_key, IndexValue, hit, BdbOps, BdbLaws, Storage, Env, as_u32, Run,
  done, aborted, blocked, undefined,
}
use linglongta.Storage.Files.{fd_open, sync_data}
use linglongta.Storage.Slots.{InUse}
use linglongta.Storage.Slots.Take.{HasRoom, Taken, take_slot-Taken}
use linglongta.Storage.Slots.Give.{Given, give_slot-Given}
use linglongta.Storage.Blocks.{
  is_zero, insert_record, del_record, store_block, new_value, append_at, append_block, modified,
  modify_at, modify_block, do_delete_block,
}
use linglongta.Storage.Invariant.{IsEntry, Apart, IsIndex, IsStore}
use linglongta.Storage.Invariant.Index.{is_zero-true, is_zero-false}
use linglongta.Storage.Invariant.Keep.{
  put-IsIndex, del-IsIndex, same-IsIndex, update-AreFiles, update-IsEntry,
}

-- A property of the result, where the call returns.
abbrev pub OnDone {ℓ κ} : {A : Type ℓ} → (A → Type κ) → Run A → Type κ
OnDone P (done a) = P a
OnDone P aborted = Unit
OnDone P blocked = Unit
OnDone P undefined = Unit

pub as_u32_small : (n : ℕ) → n < 2 ^ 32 → as_u32 n ≡ n
unfolding as_u32
as_u32_small n h = omega arith

module _ {Db : Type 0} {bdb : BdbOps Db} (laws : BdbLaws bdb) (crc32_calc : List ℕ → ℕ) (env : Env)
    (s : Storage Db) (w : IsStore bdb s) where
  count_small : (b : ℕ) → b < s.sizes.block_type_count → as_u32 b ≡ b
  count_small b h = as_u32_small b (omega (arith, w.table.count_le))

  module _ (b : ℕ) (key : Key) (content : List ℕ) (lt : b < s.sizes.block_type_count)
      (fits : length content ≤ s.sizes.block_size_array b) (offset : ℕ) (fh : BlockFile)
      (taken : Taken (s.files b) offset fh) where
    appended-IsEntry : IsEntry s.sizes (update s.files b fh) (new_value crc32_calc b offset content)
    unfolding new_value
    appended-IsEntry =
        rw (count_small b lt)
          (record { in_range = lt; fits = fits; used = rw (update_self s.files b fh) taken.used })

    shares_none :
        (j : Key) (jv : IndexValue)
        → bdb.get s.indexdb.dbp j ≡ hit jv
        → Apart (new_value crc32_calc b offset content) jv
    unfolding new_value
    shares_none j jv h q p =
        taken.fresh jv.offset
          (subst (λ x. InUse (s.files x) jv.offset) (sym q ∙ count_small b lt)
            (w.index.entry j jv h).used)
          (sym p)

    pub append_at-IsStore :
        IsStore bdb (append_at bdb crc32_calc env b key content (offset, fh) s).1
    unfolding append_at store_block insert_record
    append_at-IsStore = record {
      table = w.table;
      files = update-AreFiles w.files b fh taken.file taken.same_size taken.same_fd;
      index =
          put-IsIndex laws w.index (update s.files b fh) (fix_key key) _
            (λ iv e.
              update-IsEntry w.files b fh iv e (λ q.
                taken.kept iv.offset (subst (λ x. InUse (s.files x) iv.offset) (sym q) e.used)))
            appended-IsEntry (λ j jv ne h. shares_none j jv h);
    }

  pub append_block-IsStore :
      (b : ℕ) (key : Key) (content : List ℕ)
      → ((b : ℕ) → b < s.sizes.block_type_count → HasRoom (s.files b))
      → OnDone (λ r. IsStore bdb r.1) (append_block bdb crc32_calc env b key content s)
  unfolding append_block
  append_block-IsStore b key content room = elim (Bool-cases (leb s.sizes.block_type_count b)) [
    | inl bad ↦ rw bad w
    | inr good ↦
        rw good
          (elim (Bool-cases
            (fd_open (s.files b).fd && leb (length content) (s.sizes.block_size_array b))) [
              | inl ok ↦ rw ok (
                  append_at-IsStore b key content (ground arith) (ground arith) _ _ (
                    take_slot-Taken (s.files b) (w.files.sound b (ground arith))
                      (room b (ground arith))))
              | inr no_fit ↦ rw no_fit tt
            ])
  ]

  -- The entry of `key` keeps its block, and gets the size of new data that fits in it.
  module _ (iv : IndexValue) (key : Key) (content : List ℕ)
      (here : bdb.get s.indexdb.dbp key ≡ hit iv)
      (fits : length content ≤ s.sizes.block_size_array iv.block_id) where
    pub modify_at-IsStore :
        (f : DataFile) → IsStore bdb (modify_at bdb crc32_calc env iv key content f s).1
    unfolding modify_at modified insert_record
    modify_at-IsStore f = record {
      table = w.table;
      files = w.files;
      index =
          put-IsIndex laws w.index s.files key _ (λ jv e. e)
            (let e = w.index.entry key iv here in
              record { in_range = e.in_range; fits = fits; used = e.used })
            (λ j jv ne h. w.index.apart key j iv jv here h (λ e. ne (sym e)));
    }

  pub modify_block-IsStore :
      (iv : IndexValue) (key : Key) (content : List ℕ)
      → bdb.get s.indexdb.dbp key ≡ hit iv
      → OnDone (λ r. IsStore bdb r.1) (modify_block bdb crc32_calc env iv key content s)
  unfolding modify_block
  modify_block-IsStore iv key content here =
      elim (Bool-cases (leb s.sizes.block_type_count iv.block_id)) [
        | inl bad ↦ rw bad w
        | inr good ↦
            rw good
              (elim (Bool-cases (
                fd_open (s.files iv.block_id).fd
                && leb (length content) (s.sizes.block_size_array iv.block_id)
                && is_zero (sync_data env iv.block_id iv.offset content (s.disk iv.block_id)).0)) [
                  | inl ok ↦ rw ok (modify_at-IsStore iv key content here (ground arith) _)
                  | inr no_fit ↦ rw no_fit tt
                ])
      ]

  module _ (iv : IndexValue) (key : Key) (here : bdb.get s.indexdb.dbp key ≡ hit iv)
      (deleted : (bdb.del s.indexdb.dbp key).0 ≡ pos 0) where
    leaked-IsIndex : IsIndex s.sizes s.files bdb (bdb.del s.indexdb.dbp key).1
    leaked-IsIndex =
        del-IsIndex laws w.index s.files key deleted (λ j jv ne h. w.index.entry j jv h)

    freed-IsIndex :
        (fh : BlockFile)
        → Given (s.files iv.block_id) iv.offset fh
        → IsIndex s.sizes (update s.files iv.block_id fh) bdb (bdb.del s.indexdb.dbp key).1
    freed-IsIndex fh given =
        del-IsIndex laws w.index (update s.files iv.block_id fh) key deleted λ j jv ne h.
          update-IsEntry w.files iv.block_id fh jv (w.index.entry j jv h) λ q.
            given.kept jv.offset
              (subst (λ x. InUse (s.files x) jv.offset) (sym q) (w.index.entry j jv h).used)
              (λ p. w.index.apart key j iv jv here h (λ e. ne (sym e)) q (sym p))

  pub do_delete_block-IsStore :
      (iv : IndexValue) (key : Key)
      → bdb.get s.indexdb.dbp key ≡ hit iv
      → IsStore bdb (do_delete_block bdb crc32_calc env iv key s).1
  unfolding do_delete_block del_record
  do_delete_block-IsStore iv key here = elim (Bool-cases (is_zero (bdb.del s.indexdb.dbp key).0)) [
    | inr bad ↦ rw bad (record {
      table = w.table;
      files = w.files;
      index =
          same-IsIndex laws w.index _
            (λ j. laws.get-del_fail s.indexdb.dbp key j (is_zero-false _ bad));
    })
    | inl good ↦
        rw good
          (elim (give_slot-Given (s.files iv.block_id) iv.offset
            (w.files.sound iv.block_id e.in_range) e.used) [
              | inl (_, full) ↦ rw full (record {
                table = w.table;
                files = w.files;
                index = leaked-IsIndex iv key here (is_zero-true _ good);
              })
              | inr (fh, freed, given) ↦ rw freed (record {
                table = w.table;
                files =
                    update-AreFiles w.files iv.block_id fh given.file given.same_size given.same_fd;
                index = freed-IsIndex iv key here (is_zero-true _ good) fh given;
              })
            ])
  ]
    where
      e : IsEntry s.sizes s.files iv
      e = w.index.entry key iv here
