-- ===== src/Prelude/Count.antt =====
-- Weights of a family of threads: the sum over the first `n`.
use Prim.Native.Nat.{ℕ, zero, suc, ◌+◌, ◌≤◌, ◌<◌}
use mathlib.Core.Path.{◌≡◌, refl}
use mathlib.Core.Logic.{◌≢◌}
use native.Mathlib.Decide.{dec_lt}
use native.Mathlib.Omega.{arith}
use linglongta.Prelude.Tables.{update}

module _ {ℓ} {A : Type ℓ} (w : A → ℕ) where
  pub count : ℕ → (ℕ → A) → ℕ
  count zero f = 0
  count (suc n) f = w (f n) + count n f

  count-update_above :
      (n : ℕ) (f : ℕ → A) (i : ℕ) (a : A) → n ≤ i → count n (update f i a) ≡ count n f
  unfolding count
  count-update_above zero f i a h = refl
  count-update_above (suc n) f i a h = ground (arith, count-update_above n f i a)

  -- One member changes: the sum loses its weight and gets the new one.
  pub count-update :
      (n : ℕ) (f : ℕ → A) (i : ℕ) (a : A)
      → i < n
      → count n (update f i a) + w (f i) ≡ count n f + w a
  unfolding count
  count-update zero f i a h = absurd (omega arith)
  count-update (suc n) f i a h = elim (dec_lt i n) [
    | yes lt ↦ ground (arith, count-update n f i a lt)
    | no ge ↦ ground (arith, count-update_above n f i a)
  ]

  pub count-le : ((a : A) → w a ≤ 1) → (n : ℕ) (f : ℕ → A) → count n f ≤ n
  unfolding count
  count-le one zero f = omega arith
  count-le one (suc n) f = omega (arith, one (f n), count-le one n f)

  pub count-ge : (n : ℕ) (f : ℕ → A) (i : ℕ) → i < n → w (f i) ≤ count n f
  unfolding count
  count-ge zero f i h = absurd (omega arith)
  count-ge (suc n) f i h = elim (dec_lt i n) [
    | yes lt ↦ omega (arith, count-ge n f i lt)
    | no ge ↦ ground arith
  ]

  -- Two members weigh no more than all.
  pub count-ge_two :
      (n : ℕ) (f : ℕ → A) (i j : ℕ) → i < n → j < n → i ≢ j → w (f i) + w (f j) ≤ count n f
  unfolding count
  count-ge_two zero f i j hi hj ne = absurd (omega arith)
  count-ge_two (suc n) f i j hi hj ne = elim (dec_lt i n) [
    | yes lt_i ↦ elim (dec_lt j n) [
      | yes lt_j ↦ omega (arith, count-ge_two n f i j lt_i lt_j ne)
      | no ge ↦ ground (arith, count-ge n f i lt_i)
    ]
    | no ge ↦ ground (arith, count-ge n f j)
  ]

  -- A sum that is not 0 has a member of some weight.
  pub count-pos : (n : ℕ) (f : ℕ → A) → 0 < count n f → (i : ℕ) × (i < n) × (0 < w (f i))
  unfolding count
  count-pos zero f h = absurd (omega arith)
  count-pos (suc n) f h = elim (dec_lt 0 (w (f n))) [
    | yes here ↦ (n, omega arith, here)
    | no not_here ↦ let (i, lt, p) = count-pos n f (omega arith) in (i, omega arith, p)
  ]

  -- A change that keeps each weight keeps the sum.
  pub count-same :
      (g : A → A)
      → ((a : A) → w (g a) ≡ w a)
      → (n : ℕ) (f : ℕ → A) → count n (λ i. g (f i)) ≡ count n f
  unfolding count
  count-same g same zero f = refl
  count-same g same (suc n) f = omega (arith, same (f n), count-same g same n f)

  pub count-none :
      (g : A → A) → ((a : A) → w (g a) ≡ 0) → (n : ℕ) (f : ℕ → A) → count n (λ i. g (f i)) ≡ 0
  unfolding count
  count-none g none_of zero f = refl
  count-none g none_of (suc n) f = omega (arith, none_of (f n), count-none g none_of n f)

pub count_mono {ℓ} :
    {A : Type ℓ} (v w : A → ℕ)
    → ((a : A) → v a ≤ w a)
    → (n : ℕ) (f : ℕ → A) → count v n f ≤ count w n f
unfolding count
count_mono v w le zero f = omega arith
count_mono v w le (suc n) f = omega (arith, le (f n), count_mono v w le n f)
