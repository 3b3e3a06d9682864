-- ===== src/Storage/View.antt =====
-- src/storage.c: the abstract view of the store, a map from keys to data, under the operations on one
-- block.
use linglongta.Prelude.{
  ℕ, ◌+◌, ◌≤◌, ◌<◌, ◌≡◌, ◌≢◌, refl, sym, ap, ◌∙◌, ◌⊎◌, inl, inr, arith, List, length, update,
  update_self, update_ne, Bool-cases, Option-cases, subst, ℕ_discrete,
}
use linglongta.Storage.Types.{
  BlockFile, DataFile, Key, fix_key, IndexValue, hit, BdbOps, BdbLaws, Storage, Env,
}
use linglongta.Storage.Files.{pread, sync_data, sync_data_file_header, give_slot}
use linglongta.Storage.Reads.{pread-sync_data_apart, pread-sync_data_file_header, pread-sync_slot}
use linglongta.Storage.Slots.{slot_at, slot_at_apart, IsSlot, InUse}
use linglongta.Storage.Slots.Take.{Taken}
use linglongta.Storage.Blocks.{
  is_zero, insert_record, del_record, store_block, append_at, modify_at, do_delete_block,
}
use linglongta.Storage.Invariant.{IsEntry, IsStore}

-- The store holds `content` under `k`: the index has an entry for it, and reading its block returns
-- the whole of it.
pub record Holds {Db : Type 0} (bdb : BdbOps Db) (s : Storage Db) (k : Key) (content : List ℕ)
    : Type 0 where
  pub iv : IndexValue
  pub entry : bdb.get s.indexdb.dbp k ≡ hit iv
  pub reads : pread (s.disk iv.block_id) iv.offset iv.data_size ≡ content
  pub whole : length content ≡ iv.data_size

-- The data of two different blocks of a file does not overlap.
blocks_apart :
    (fh fh' : BlockFile) (p q n m : ℕ)
    → IsSlot fh p
    → IsSlot fh' q
    → fh'.block_size ≡ fh.block_size
    → p ≢ q
    → n ≤ fh.block_size
    → m ≤ fh.block_size
    → (p + n ≤ q) ⊎ (q + m ≤ p)
blocks_apart fh fh' p q n m a b size ne hn hm =
    elim (slot_at_apart fh.block_size a.index b.index (λ e. ne (a.at ∙ e ∙ sym at'))) [
      | inl h ↦ inl (omega (arith, a.at, at'))
      | inr h ↦ inr (omega (arith, a.at, at'))
    ]
  where
    at' : q ≡ slot_at fh.block_size b.index
    at' = b.at ∙ ap (λ z. slot_at z b.index) size

pread-update :
    (disk : ℕ → DataFile) (b : ℕ) (f : DataFile) (c o n : ℕ)
    → (b ≡ c → pread f o n ≡ pread (disk b) o n)
    → pread (update disk b f c) o n ≡ pread (disk c) o n
pread-update disk b f c o n h = elim (ℕ_discrete b c) [
  | yes e ↦
      subst (λ x. pread (update disk b f x) o n ≡ pread (disk x) o n) e
        (ap (λ g. pread g o n) (update_self disk b f) ∙ h e)
  | no ne ↦ ap (λ g. pread g o n) (update_ne disk b c f ne)
]

module _ {Db : Type 0} {bdb : BdbOps Db} (laws : BdbLaws bdb) (crc32_calc : List ℕ → ℕ) (env : Env)
    (s : Storage Db) (w : IsStore bdb s) where
  as-IsEntry : (j : Key) (d : List ℕ) (held : Holds bdb s j d) → IsEntry s.sizes s.files held.iv
  as-IsEntry j d held = w.index.entry j held.iv held.entry

  -- What is held elsewhere stays, if the index keeps the entry and its block reads the same.
  module _ (j : Key) (d : List ℕ) (held : Holds bdb s j d) where
    still_full :
        length (pread (s.disk held.iv.block_id) held.iv.offset held.iv.data_size)
        ≡ held.iv.data_size
    still_full = ap length held.reads ∙ held.whole

    full_at :
        (b : ℕ)
        → b ≡ held.iv.block_id
        → length (pread (s.disk b) held.iv.offset held.iv.data_size) ≡ held.iv.data_size
    full_at b q =
        subst (λ x. length (pread (s.disk x) held.iv.offset held.iv.data_size) ≡ held.iv.data_size)
          (sym q) still_full

    fits_in :
        (b : ℕ)
        → b < s.sizes.block_type_count
        → {n : ℕ} → n ≤ s.sizes.block_size_array b
        → n ≤ (s.files b).block_size
    fits_in b lt h = omega (arith, w.files.sized b lt)

    -- The read of a held block is not touched by data written to another block of its file.
    beside :
        (b off : ℕ) (fh : BlockFile) (content : List ℕ) (f : DataFile)
        → length content ≤ (s.files b).block_size
        → IsSlot fh off
        → fh.block_size ≡ (s.files b).block_size
        → held.iv.offset ≢ off
        → b ≡ held.iv.block_id
        → length (pread f held.iv.offset held.iv.data_size) ≡ held.iv.data_size
        → pread (sync_data env b off content f).1 held.iv.offset held.iv.data_size
          ≡ pread f held.iv.offset held.iv.data_size
    beside b off fh content f fits slot size ne q full =
        pread-sync_data_apart env b off content f held.iv.offset held.iv.data_size
          (blocks_apart (s.files b) fh held.iv.offset off held.iv.data_size (length content)
            (subst (λ x. IsSlot (s.files x) held.iv.offset) (sym q) e.used.slot) slot size ne
            (subst (λ x. held.iv.data_size ≤ (s.files x).block_size) (sym q)
              (fits_in held.iv.block_id e.in_range e.fits))
            fits)
          full
      where
        e : IsEntry s.sizes s.files held.iv
        e = as-IsEntry j d held

    beside_write :
        (b off : ℕ) (fh : BlockFile) (content : List ℕ)
        → length content ≤ (s.files b).block_size
        → Taken (s.files b) off fh
        → b ≡ held.iv.block_id
        → pread
            (sync_data env b off content (sync_data_file_header env b fh (s.disk b))).1
            held.iv.offset
            held.iv.data_size
          ≡ pread (sync_data_file_header env b fh (s.disk b)) held.iv.offset held.iv.data_size
    beside_write b off fh content fits taken q =
        beside b off fh content (sync_data_file_header env b fh (s.disk b)) fits taken.used.slot
          taken.same_size
          (taken.fresh held.iv.offset
            (subst (λ x. InUse (s.files x) held.iv.offset) (sym q) (as-IsEntry j d held).used))
          q
          (ap length
              (pread-sync_data_file_header env b fh (s.disk b) held.iv.offset held.iv.data_size)
            ∙ full_at b q)

    pub append_at-Holds_ne :
        (b : ℕ) (key : Key) (content : List ℕ) (offset : ℕ) (fh : BlockFile)
        → b < s.sizes.block_type_count
        → length content ≤ s.sizes.block_size_array b
        → Taken (s.files b) offset fh
        → j ≢ fix_key key
        → Holds bdb (append_at bdb crc32_calc env b key content (offset, fh) s).1 j d
    unfolding append_at store_block insert_record
    append_at-Holds_ne b key content offset fh lt fits taken ne = record {
      iv = held.iv;
      entry = laws.get-put_ne _ _ j _ (λ e. ne (sym e)) ∙ held.entry;
      reads = same_read ∙ held.reads;
      whole = held.whole;
    }
      where
        f : DataFile
        f = sync_data_file_header env b fh (s.disk b)

        same_read :
            pread
              (update s.disk b (sync_data env b offset content f).1 held.iv.block_id)
              held.iv.offset
              held.iv.data_size
            ≡ pread (s.disk held.iv.block_id) held.iv.offset held.iv.data_size
        same_read = pread-update s.disk b _ held.iv.block_id held.iv.offset held.iv.data_size λ q.
            beside_write b offset fh content (fits_in b lt fits) taken q
            ∙ pread-sync_data_file_header env b fh (s.disk b) held.iv.offset held.iv.data_size

    pub modify_at-Holds_ne :
        (iv : IndexValue) (key : Key) (content : List ℕ)
        → bdb.get s.indexdb.dbp key ≡ hit iv
        → length content ≤ s.sizes.block_size_array iv.block_id
        → j ≢ key
        → Holds bdb
            (modify_at bdb crc32_calc env iv key content
              (sync_data env iv.block_id iv.offset content (s.disk iv.block_id)).1
              s).1
            j
            d
    unfolding modify_at insert_record
    modify_at-Holds_ne iv key content here fits ne = record {
      iv = held.iv;
      entry = laws.get-put_ne _ _ j _ (λ e. ne (sym e)) ∙ held.entry;
      reads =
          pread-update s.disk iv.block_id _ held.iv.block_id held.iv.offset held.iv.data_size (λ q.
            beside iv.block_id iv.offset (s.files iv.block_id) content (s.disk iv.block_id)
              (fits_in iv.block_id e.in_range fits) e.used.slot refl
              (λ p. w.index.apart key j iv held.iv here held.entry (λ x. ne (sym x)) q (sym p)) q
              (full_at iv.block_id q))
          ∙ held.reads;
      whole = held.whole;
    }
      where
        e : IsEntry s.sizes s.files iv
        e = w.index.entry key iv here

    pub do_delete_block-Holds_ne :
        (iv : IndexValue) (key : Key)
        → bdb.get s.indexdb.dbp key ≡ hit iv
        → j ≢ key
        → Holds bdb (do_delete_block bdb crc32_calc env iv key s).1 j d
    unfolding do_delete_block del_record
    do_delete_block-Holds_ne iv key here ne =
        elim (Bool-cases (is_zero (bdb.del s.indexdb.dbp key).0)) [
          | inr bad ↦
              rw bad
                (record { iv = held.iv; entry = entry; reads = held.reads; whole = held.whole })
          | inl good ↦ rw good (elim (Option-cases (give_slot iv.offset (s.files iv.block_id))) [
            | inl full ↦
                rw full
                  (record { iv = held.iv; entry = entry; reads = held.reads; whole = held.whole })
            | inr (fh, freed) ↦ rw freed (record {
              iv = held.iv;
              entry = entry;
              reads =
                  pread-update s.disk iv.block_id _ held.iv.block_id held.iv.offset
                    held.iv.data_size
                    (λ q.
                      pread-sync_slot env _ _ _ _ held.iv.offset held.iv.data_size
                      ∙ pread-sync_data_file_header env _ _ _ held.iv.offset held.iv.data_size)
                  ∙ held.reads;
              whole = held.whole;
            })
          ])
        ]
      where
        entry : bdb.get (bdb.del s.indexdb.dbp key).1 j ≡ hit held.iv
        entry = laws.get-del_ne _ _ j (λ e. ne (sym e)) ∙ held.entry
