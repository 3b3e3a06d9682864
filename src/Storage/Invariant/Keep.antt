-- ===== src/Storage/Invariant/Keep.antt =====
-- The invariant of the index under one `put` or `del`, and of the block files under one change.
use linglongta.Prelude.{
  ℕ, ◌≡◌, ◌≢◌, sym, ap, ◌∙◌, inl, inr, arith, pos, update, update_self, update_ne, subst,
  ℕ_discrete,
}
use linglongta.Storage.Sizes.{SizeTable}
use linglongta.Storage.Types.{BlockFile, Key, IndexValue, hit, BdbOps, BdbLaws}
use linglongta.Storage.Slots.{IsBlockFile, InUse}
use linglongta.Storage.Files.{fd_open}
use linglongta.Storage.Invariant.{IsEntry, Apart, AreFiles, IsIndex}
use linglongta.Storage.Invariant.Index.{hit_inj, put_cases, del_cases}

Apart-sym : (iv jv : IndexValue) → Apart iv jv → Apart jv iv
Apart-sym iv jv a e p = a (sym e) (sym p)

module _ {Db : Type 0} {bdb : BdbOps Db} (laws : BdbLaws bdb) {t : SizeTable}
    {files : ℕ → BlockFile} {d : Db} (w : IsIndex t files bdb d) where
  -- An entry is put for `k`: the old entries stay entries, and the new one shares no block with them.
  pub put-IsIndex :
      (files' : ℕ → BlockFile) (k : Key) (v : IndexValue)
      → ((iv : IndexValue) → IsEntry t files iv → IsEntry t files' iv)
      → IsEntry t files' v
      → ((j : Key) (jv : IndexValue) → j ≢ k → bdb.get d j ≡ hit jv → Apart v jv)
      → IsIndex t files' bdb (bdb.put d k v).1
  put-IsIndex files' k v keep new other = record {
    entry = λ j jv h. elim (put_cases laws d k j v) [
      | inl old ↦ keep jv (w.entry j jv (sym old ∙ h))
      | inr (same, now) ↦ subst (IsEntry t files') (hit_inj v jv (sym now ∙ h)) new
    ];
    apart = λ i j iv jv hi hj ne. elim (put_cases laws d k i v) [
      | inl old_i ↦ elim (put_cases laws d k j v) [
        | inl old_j ↦ w.apart i j iv jv (sym old_i ∙ hi) (sym old_j ∙ hj) ne
        | inr (same, now) ↦ Apart-sym jv iv (
            subst (λ x. Apart x iv) (hit_inj v jv (sym now ∙ hj))
              (other i iv (λ e. ne (e ∙ sym same)) (sym old_i ∙ hi)))
      ]
      | inr (same, now) ↦ elim (put_cases laws d k j v) [
        | inl old_j ↦
            subst (λ x. Apart x jv) (hit_inj v iv (sym now ∙ hi))
              (other j jv (λ e. ne (same ∙ sym e)) (sym old_j ∙ hj))
        | inr (same_j, now_j) ↦ absurd (ne (same ∙ sym same_j))
      ]
    ];
  }

  -- The entry of `k` is deleted: the other entries stay entries.
  pub del-IsIndex :
      (files' : ℕ → BlockFile) (k : Key)
      → (bdb.del d k).0 ≡ pos 0
      → ((j : Key) (jv : IndexValue) → j ≢ k → bdb.get d j ≡ hit jv → IsEntry t files' jv)
      → IsIndex t files' bdb (bdb.del d k).1
  del-IsIndex files' k ret others = record {
    entry = λ j jv h. elim (del_cases laws d k j) [
      | inl old ↦ others j jv (λ e. absurd (differs j jv h e)) (sym old ∙ h)
      | inr (same, now) ↦ cc
    ];
    apart = λ i j iv jv hi hj ne. w.apart i j iv jv (kept i iv hi) (kept j jv hj) ne;
  }
    where
      differs : (j : Key) (jv : IndexValue) → bdb.get (bdb.del d k).1 j ≡ hit jv → j ≢ k
      differs j jv h e = cc (ap (bdb.get (bdb.del d k).1) e, laws.get-del_self d k ret)

      kept : (j : Key) (jv : IndexValue) → bdb.get (bdb.del d k).1 j ≡ hit jv → bdb.get d j ≡ hit jv
      kept j jv h = elim (del_cases laws d k j) [ inl old ↦ sym old ∙ h | inr (same, now) ↦ cc ]

  -- A change of the table that no lookup shows.
  pub same-IsIndex : (d' : Db) → ((j : Key) → bdb.get d' j ≡ bdb.get d j) → IsIndex t files bdb d'
  same-IsIndex d' same = record {
    entry = λ j jv h. w.entry j jv (sym (same j) ∙ h);
    apart = λ i j iv jv hi hj ne. w.apart i j iv jv (sym (same i) ∙ hi) (sym (same j) ∙ hj) ne;
  }

module _ {t : SizeTable} {files : ℕ → BlockFile} (w : AreFiles t files) where
  -- One block file is replaced by a sound one, open and of the same block size.
  pub update-AreFiles :
      (b : ℕ) (fh : BlockFile)
      → IsBlockFile fh
      → fh.block_size ≡ (files b).block_size
      → fh.fd ≡ (files b).fd
      → AreFiles t (update files b fh)
  update-AreFiles b fh sound size fd = record {
    sound = λ c h. elim (ℕ_discrete b c) [
      | yes e ↦ subst (λ x. IsBlockFile (update files b fh x)) e (rw update_self sound)
      | no ne ↦ rw (update_ne files b c fh ne) (w.sound c h)
    ];
    sized = λ c h. elim (ℕ_discrete b c) [
      | yes e ↦ ground (arith, w.sized c)
      | no ne ↦ rw (update_ne files b c fh ne) (w.sized c h)
    ];
    opened = λ c h. elim (ℕ_discrete b c) [
      | yes e ↦
          ap (λ x. fd_open (update files b fh x).fd) (sym e)
          ∙ ap (λ (f : BlockFile). fd_open f.fd) (update_self files b fh)
          ∙ ap fd_open fd
          ∙ w.opened b (omega arith)
      | no ne ↦ rw (update_ne files b c fh ne) (w.opened c h)
    ];
  }

  pub update-IsEntry :
      (b : ℕ) (fh : BlockFile) (iv : IndexValue)
      → IsEntry t files iv
      → (b ≡ iv.block_id → InUse fh iv.offset)
      → IsEntry t (update files b fh) iv
  update-IsEntry b fh iv e used = record {
    in_range = e.in_range;
    fits = e.fits;
    used = elim (ℕ_discrete b iv.block_id) [
      | yes same ↦
          subst (λ x. InUse (update files b fh x) iv.offset) same (rw update_self (used same))
      | no ne ↦ rw (update_ne files b iv.block_id fh ne) e.used
    ];
  }
