-- ===== src/Storage/Invariant/Index.antt =====
-- What one `put` or `del` of the index does to the lookup of any key.
use linglongta.Prelude.{
  zero, suc, ◌≡◌, ◌≢◌, refl, sym, ap, ◌∙◌, ◌⊎◌, inl, inr, true, false, ℤ, pos, negsuc, Bool-cases,
  ℕ_discrete,
}
use linglongta.Storage.Types.{Key, IndexValue, hit, miss, BdbOps, BdbLaws}
use linglongta.Storage.Blocks.{is_zero}

pub Key-discrete : Discrete Key
Key-discrete = hlevel ℕ_discrete

pub hit_inj : (iv jv : IndexValue) → hit iv ≡ hit jv → iv ≡ jv
hit_inj iv jv e = cc

pub is_zero-true : (c : ℤ) → is_zero c ≡ true → c ≡ pos 0
is_zero-true (pos zero) h = refl
is_zero-true (pos (suc n)) h = cc
is_zero-true (negsuc n) h = cc

pub is_zero-false : (c : ℤ) → is_zero c ≡ false → c ≢ pos 0
is_zero-false c h e = cc (ap is_zero e)

module _ {Db : Type 0} {bdb : BdbOps Db} (laws : BdbLaws bdb) where
  pub put_cases :
      (d : Db) (k j : Key) (v : IndexValue)
      → (bdb.get (bdb.put d k v).1 j ≡ bdb.get d j)
        ⊎ ((j ≡ k) × (bdb.get (bdb.put d k v).1 j ≡ hit v))
  put_cases d k j v = elim (Bool-cases (is_zero (bdb.put d k v).0)) [
    | inr bad ↦ inl (laws.get-put_fail d k j v (is_zero-false _ bad))
    | inl good ↦ elim (Key-discrete j k) [
      | yes e ↦
          inr (e, ap (bdb.get (bdb.put d k v).1) e ∙ laws.get-put_self d k v (is_zero-true _ good))
      | no ne ↦ inl (laws.get-put_ne d k j v (λ e. ne (sym e)))
    ]
  ]

  pub del_cases :
      (d : Db) (k j : Key)
      → (bdb.get (bdb.del d k).1 j ≡ bdb.get d j) ⊎ ((j ≡ k) × (bdb.get (bdb.del d k).1 j ≡ miss))
  del_cases d k j = elim (Bool-cases (is_zero (bdb.del d k).0)) [
    | inr bad ↦ inl (laws.get-del_fail d k j (is_zero-false _ bad))
    | inl good ↦ elim (Key-discrete j k) [
      | yes e ↦
          inr (e, ap (bdb.get (bdb.del d k).1) e ∙ laws.get-del_self d k (is_zero-true _ good))
      | no ne ↦ inl (laws.get-del_ne d k j (λ e. ne (sym e)))
    ]
  ]
