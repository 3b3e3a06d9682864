-- ===== src/Slab/Search.antt =====
-- src/slab.c: the class that `slab_clsid` finds.
use mathlib.Core.Logic.{dif_pos, dif_neg}
use mathlib.Core.WellFounded.{Acc}
use native.Mathlib.Bridge.{le_prop}
use linglongta.Prelude.{
  ℕ, zero, suc, ◌+◌, ◌-◌, ◌≤◌, ◌<◌, ◌≡◌, ◌⊎◌, inl, inr, subst, refl, sym, ap, arith, dec_lt, ltb,
  ◌==◌, if◌then◌else◌, false,
}
use linglongta.Slab.Classes.{
  ClassSizes, whole, Range, ◌⊏◌, ⊏_wf, middle, upper, lower, upper-⊏, lower-⊏, search_loop,
  slab_clsid,
}

-- The sizes grow from class to class, and there are any.
pub record IsSorted (c : ClassSizes) : Type 0 where
  pub some_class : 0 < c.power_largest
  pub starts : c.size 0 ≡ 0
  pub grows : (i : ℕ) → i < c.power_largest → c.size i < c.size (i + 1)

-- The first class whose chunks are large enough, or the number behind the last one where there is none.
pub record IsFirst (c : ClassSizes) (wanted res : ℕ) : Type 0 where
  pub positive : 0 < res
  pub bounded : res ≤ c.power_largest + 1
  pub smaller : c.size (res - 1) < wanted
  pub fits : res ≤ c.power_largest → wanted ≤ c.size res

module _ (c : ClassSizes) (sorted : IsSorted c) where
  size_mono : (k i : ℕ) → i + k ≤ c.power_largest → c.size i ≤ c.size (i + k)
  size_mono zero i h = omega (arith, ap c.size (none_more i))
    where
      none_more : (n : ℕ) → n + 0 ≡ n
      none_more n = omega arith
  size_mono (suc k) i h = omega (
    arith,
    size_mono k i (omega arith),
    sorted.grows (i + k) (omega arith),
    ap c.size (one_more i k),
  )
    where
      one_more : (n m : ℕ) → n + suc m ≡ n + m + 1
      one_more n m = omega arith

  pub size_le : (i j : ℕ) → i ≤ j → j ≤ c.power_largest → c.size i ≤ c.size j
  size_le i j le h =
      subst (λ k. c.size i ≤ c.size k) (rest i j le) (size_mono (j - i) i (omega arith))
    where
      rest : (n m : ℕ) → n ≤ m → n + (m - n) ≡ m
      rest n m h = omega arith

  pub not_zero : (n : ℕ) → 0 < n → (n == 0) ≡ false
  not_zero n h = ground arith

  pub not_ltb : (a b : ℕ) → ¬ (a < b) → ltb a b ≡ false
  not_ltb a b h = ground arith

  module _ (wanted : ℕ) where
    -- What the loop keeps: the classes left of the range are too small, and the class at its right end is
    -- large enough, unless it is the last one.
    record Inv (r : Range) : Type 0 where
      inside : r.right ≤ c.power_largest
      ordered : r.left ≤ suc r.right
      small : c.size (r.left - 1) < wanted
      large : (r.right ≡ c.power_largest) ⊎ (wanted ≤ c.size r.right)

    module _ (r : Range) (inv : Inv r) where
      open inv use {inside, ordered, small, large}

      here-IsFirst :
          r.left < suc r.right
          → wanted ≤ c.size (middle r)
          → (c.size (middle r - 1) < wanted) ⊎ (wanted ≡ c.size (middle r))
          → IsFirst c wanted (middle r)
      here-IsFirst h fits before = record {
        positive = omega (arith, r.positive);
        bounded = omega arith;
        smaller = elim before [
          | inl lt ↦ lt
          | inr same ↦ omega (
            arith,
            same,
            sorted.grows (middle r - 1) (omega (arith, r.positive)),
            ap c.size (one_more (middle r) (omega (arith, r.positive))),
          )
        ];
        fits = λ _. fits;
      }
        where
          one_more : (n : ℕ) → 0 < n → n - 1 + 1 ≡ n
          one_more n h = omega arith

      lower-Inv : r.left < suc r.right → wanted ≤ c.size (middle r - 1) → Inv (lower r)
      lower-Inv h fits = record {
        inside = omega arith;
        ordered = omega (arith, r.positive);
        small = small;
        large = inr fits;
      }

      upper-Inv : r.left < suc r.right → c.size (middle r) < wanted → Inv (upper r)
      upper-Inv h lt = record {
        inside = inside;
        ordered = omega arith;
        small = subst (λ k. c.size k < wanted) (back (middle r)) lt;
        large = large;
      }
        where
          back : (n : ℕ) → n ≡ n + 1 - 1
          back n = omega arith

      none_left : ¬ (r.left < suc r.right) → IsFirst c wanted (c.power_largest + 1)
      none_left empty = record {
        positive = omega arith;
        bounded = omega arith;
        smaller = elim large [
          | inl last ↦ subst (λ k. c.size k < wanted) (omega arith) small
          | inr fits ↦
              absurd (omega (arith, fits, small, ap c.size (at_end r.left r.right (omega arith))))
        ];
        fits = λ h. absurd (omega arith);
      }
        where
          at_end : (l e : ℕ) → l ≡ suc e → l - 1 ≡ e
          at_end l e h = omega arith

    search_loop-IsFirst :
        (r : Range) (w : Acc ◌⊏◌ r) → Inv r → IsFirst c wanted (search_loop c wanted r w)
    unfolding search_loop
    search_loop-IsFirst r (Acc.intro _ inner) inv = elim (dec_lt r.left (suc r.right)) [
      | no empty ↦ rw (dif_neg (dec_lt r.left (suc r.right)) empty) (none_left r inv empty)
      | yes h ↦ rw (dif_pos (dec_lt r.left (suc r.right)) le_prop h) (
          ground (
            arith,
            here-IsFirst r inv h,
            search_loop-IsFirst (lower r) (inner _ (lower-⊏ r h)),
            search_loop-IsFirst (upper r) (inner _ (upper-⊏ r h)),
            lower-Inv r inv h,
            upper-Inv r inv h,
          ))
    ]

    pub slab_clsid-IsFirst : 0 < wanted → IsFirst c wanted (slab_clsid c wanted)
    unfolding slab_clsid
    slab_clsid-IsFirst some_byte =
        subst
          (λ b.
            IsFirst c wanted
              (if b then 0 else search_loop c wanted (whole c) (⊏_wf.apply (whole c))))
          (sym (not_zero wanted some_byte))
          (search_loop-IsFirst (whole c) (⊏_wf.apply (whole c)) (record {
            inside = omega arith;
            ordered = omega arith;
            small = omega (arith, sorted.starts);
            large = inl refl;
          }))
