-- ===== src/Storage/Sizes/Powers.antt =====
-- The block sizes of src/storage.c as a sequence: 128 doubled i times.
use native.Mathlib.Nat.{pow-succ', pow-le-pow_right}
use linglongta.Prelude.{ℕ, suc, ◌+◌, ◌*◌, ◌^◌, ◌≤◌, ◌<◌, ◌≡◌, refl, arith}

unfoldable pub nth_size : ℕ → ℕ
nth_size i = 128 * 2 ^ i

pub nth_size-zero : nth_size 0 ≡ 128
unfolding nth_size
nth_size-zero = omega arith

pub nth_size-suc : (i : ℕ) → nth_size (suc i) ≡ nth_size i * 2
unfolding nth_size
nth_size-suc i = omega (arith, pow-succ' 2 i)

pub nth_size-add_one : (i : ℕ) → nth_size (i + 1) ≡ nth_size i * 2
nth_size-add_one i = rw (← nth_size-suc i) (ground arith)

pub nth_size_mono : (i j : ℕ) → i ≤ j → nth_size i ≤ nth_size j
unfolding nth_size
nth_size_mono i j h = let p : 2 ^ i ≤ 2 ^ j = pow-le-pow_right (omega arith) h in omega arith

pub nth_size_pos : (i : ℕ) → 128 ≤ nth_size i
nth_size_pos i = omega (arith, nth_size-zero, nth_size_mono 0 i (omega arith))

pub nth_size_strict : (i j : ℕ) → i < j → nth_size i < nth_size j
nth_size_strict i j h = omega (arith, nth_size-suc i, nth_size_pos i, nth_size_mono (suc i) j h)

nth_size_last : nth_size 19 ≡ 2 ^ 26
unfolding nth_size
nth_size_last = refl

-- The last size that the array has room for is 64 MB.
pub nth_size_bound : (i : ℕ) → i < 20 → nth_size i ≤ 2 ^ 26
nth_size_bound i h = omega (arith, nth_size_mono i 19 (omega arith), nth_size_last)
