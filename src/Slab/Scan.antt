-- ===== src/Slab/Scan.antt =====
-- src/slab.c: the two forms of `slab_clsid`.
use linglongta.Prelude.{
  ℕ, zero, suc, ◌+◌, ◌-◌, ◌≤◌, ◌<◌, ◌≡◌, subst, sym, arith, dec_lt, if◌then◌else◌, lt→ltb,
}
use linglongta.Slab.Classes.{ClassSizes, slab_clsid, scan_loop, slab_clsid_by_scan}
use linglongta.Slab.Search.{IsSorted, IsFirst, size_le, not_zero, not_ltb, slab_clsid-IsFirst}

module _ (c : ClassSizes) (sorted : IsSorted c) where
  module _ (wanted : ℕ) where
    scan_loop-IsFirst :
        (rest res : ℕ)
        → 0 < res
        → rest + res ≡ c.power_largest
        → c.size (res - 1) < wanted
        → IsFirst c wanted (scan_loop c wanted rest res)
    unfolding scan_loop
    scan_loop-IsFirst zero res given total before = elim (dec_lt (c.size res) wanted) [
      | yes lt ↦ rw (lt→ltb (c.size res) wanted lt) (record {
        positive = omega arith;
        bounded = omega arith;
        smaller = subst (λ k. c.size k < wanted) (at_end res c.power_largest total) lt;
        fits = λ h. absurd (omega arith);
      })
      | no ge ↦ rw (not_ltb c sorted (c.size res) wanted ge) (record {
        positive = given;
        bounded = omega arith;
        smaller = before;
        fits = λ h. omega arith;
      })
    ]
      where
        at_end : (n m : ℕ) → 0 + n ≡ m → n ≡ m + 1 - 1
        at_end n m h = omega arith
    scan_loop-IsFirst (suc rest) res given total before = elim (dec_lt (c.size res) wanted) [
      | yes lt ↦ rw (lt→ltb (c.size res) wanted lt) (
          scan_loop-IsFirst rest (res + 1) (omega arith) (omega arith)
            (subst (λ k. c.size k < wanted) (back res) lt))
      | no ge ↦ rw (not_ltb c sorted (c.size res) wanted ge) (record {
        positive = given;
        bounded = omega arith;
        smaller = before;
        fits = λ h. omega arith;
      })
    ]
      where
        back : (n : ℕ) → n ≡ n + 1 - 1
        back n = omega arith

  slab_clsid_by_scan-IsFirst :
      (wanted : ℕ) → 0 < wanted → IsFirst c wanted (slab_clsid_by_scan c wanted)
  unfolding slab_clsid_by_scan
  slab_clsid_by_scan-IsFirst wanted some_byte =
      subst (λ b. IsFirst c wanted (if b then 0 else scan_loop c wanted (c.power_largest - 1) 1))
        (sym (not_zero c sorted wanted some_byte))
        (scan_loop-IsFirst wanted (c.power_largest - 1) 1 (omega arith)
          (omega (arith, sorted.some_class)) (omega (arith, sorted.starts)))

  nothing_wanted : (wanted : ℕ) → wanted ≡ 0 → slab_clsid c wanted ≡ slab_clsid_by_scan c wanted
  unfolding slab_clsid slab_clsid_by_scan
  nothing_wanted wanted e = ground arith

  le_antisymm : (a b : ℕ) → a ≤ b → b ≤ a → a ≡ b
  le_antisymm a b h k = omega arith

  IsFirst-le : (wanted r s : ℕ) → IsFirst c wanted r → IsFirst c wanted s → r ≤ s
  IsFirst-le wanted r s a b = elim (dec_lt s r) [
    | no le ↦ omega arith
    | yes lt ↦ absurd (
        omega (
          arith,
          b.fits (omega (arith, a.bounded)),
          a.smaller,
          size_le c sorted s (r - 1) (omega arith) (omega (arith, a.bounded)),
        ))
  ]

  -- The search by halving finds the same class as the search from class 1 on, of which it is the faster form,
  -- for every size and every table of sizes that grows from class to class.
  pub slab_clsid-slab_clsid_by_scan :
      (wanted : ℕ) → slab_clsid c wanted ≡ slab_clsid_by_scan c wanted
  slab_clsid-slab_clsid_by_scan wanted = elim (dec_lt 0 wanted) [
    | yes some_byte ↦
        let a = slab_clsid-IsFirst c sorted wanted some_byte in
        let b = slab_clsid_by_scan-IsFirst wanted some_byte in
        le_antisymm _ _ (IsFirst-le wanted _ _ a b) (IsFirst-le wanted _ _ b a)
    | no nothing ↦ nothing_wanted wanted (omega arith)
  ]
