-- ===== src/Prelude/Pigeonhole.antt =====
-- An injective family of m values among n has m ≤ n.
use Prim.Native.Nat.{ℕ, zero, suc, ◌≤◌, ◌<◌}
use mathlib.Core.Path.{◌≡◌, ◌∙◌, sym, ap}
use mathlib.Core.Logic.{◌≢◌, ◌⊎◌, inl, inr}
use native.Mathlib.Omega.{arith}
use native.Mathlib.Decide.{ℕ_discrete}
use linglongta.Prelude.Tests.{◌==◌, if◌then◌else◌}

pub find_index :
    (m : ℕ) (f : ℕ → ℕ) (x : ℕ) → ((i : ℕ) × (i < m) × (f i ≡ x)) ⊎ ((i : ℕ) → i < m → f i ≢ x)
find_index zero f x = inr (λ i h. absurd (omega arith))
find_index (suc m) f x = elim (ℕ_discrete (f m) x) [
  | yes e ↦ inl (m, omega arith, e)
  | no ne ↦ elim (find_index m f x) [
    | inl (i, lt, e) ↦ inl (i, omega arith, e)
    | inr none_below ↦ inr (λ i h. elim (ℕ_discrete i m) [
      | yes same ↦ λ p. ne (ap f (sym same) ∙ p)
      | no other ↦ none_below i (omega arith)
    ])
  ]
]

-- The family without entry `i`: the last entry moves there.
abbrev moved : (ℕ → ℕ) → ℕ → ℕ → ℕ → ℕ
moved f i last j = if j == i then f last else f j

module _ (n : ℕ) (v : ℕ → ℕ) (m : ℕ) (f : ℕ → ℕ) (i : ℕ)
    (at : (k : ℕ) → k < suc m → (s : ℕ) × (f k ≡ v s) × (s < suc n))
    (inj : (k j : ℕ) → k < suc m → j < suc m → f k ≡ f j → k ≡ j) (lt : i < suc m)
    (e : f i ≡ v n) where
  below_last : (k : ℕ) → k < suc m → k ≢ i → (s : ℕ) × (f k ≡ v s) × (s < n)
  below_last k h ne =
      let (s, p, hs) = at k h in
      elim (ℕ_discrete s n) [
        | yes q ↦ absurd (ne (inj k i h lt (p ∙ ap v q ∙ sym e)))
        | no q ↦ (s, p, omega arith)
      ]

  moved-at : (k : ℕ) → k < m → (s : ℕ) × (moved f i m k ≡ v s) × (s < n)
  moved-at k h = elim (ℕ_discrete k i) [
    | yes q ↦ let (s, p, hs) = below_last m (omega arith) (omega arith) in (s, ground arith, hs)
    | no q ↦ let (s, p, hs) = below_last k (omega arith) q in (s, ground arith, hs)
  ]

moved-inj :
    (m : ℕ) (f : ℕ → ℕ) (i : ℕ)
    → ((k j : ℕ) → k < suc m → j < suc m → f k ≡ f j → k ≡ j)
    → i < suc m
    → (k j : ℕ) → k < m
    → j < m
    → moved f i m k ≡ moved f i m j
    → k ≡ j
moved-inj m f i inj lt k j hk hj e = ground (arith, inj k j, inj m j, inj k m)

pub pigeonhole :
    (n : ℕ) (v : ℕ → ℕ) (m : ℕ) (f : ℕ → ℕ)
    → ((i : ℕ) → i < m → (s : ℕ) × (f i ≡ v s) × (s < n))
    → ((i j : ℕ) → i < m → j < m → f i ≡ f j → i ≡ j)
    → m ≤ n
pigeonhole zero v zero f at inj = omega arith
pigeonhole zero v (suc m) f at inj = let (s, e, lt) = at 0 (omega arith) in absurd (omega arith)
pigeonhole (suc n) v zero f at inj = omega arith
pigeonhole (suc n) v (suc m) f at inj = elim (find_index (suc m) f (v n)) [
  | inr no_hit ↦ omega (
    arith,
    pigeonhole n v (suc m) f (λ i h. let (s, e, lt) = at i h in (s, e, ground (arith, no_hit i)))
        inj,
  )
  | inl (i, lt, e) ↦ omega (
    arith,
    pigeonhole n v m (moved f i m) (moved-at n v m f i at inj lt e) (moved-inj m f i inj lt),
  )
]
