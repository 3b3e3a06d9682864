-- ===== src/Worker/Digits.antt =====
-- The decimal digits of src/query_thread.c's lines against the numbers that they spell.
use native.Mathlib.Nat.{pow-suc}
use linglongta.Prelude.{
  All, ℕ, zero, suc, ◌+◌, ◌-◌, ◌*◌, ◌/◌, ◌%◌, ◌^◌, ◌<◌, ◌≤◌, ◌≡◌, sym, ap, ◌∙◌, inl, inr, arith,
  List, [], ◌∷◌, length, Bool-cases, ltb,
}
use linglongta.Protocol.Numbers.{IsDigit, numeral_value}
use linglongta.Worker.Decimal.{digits, decimal}

-- one step of the loop below
one_digit :
    (P : List ℕ → Type 0) (k n : ℕ) (rest : List ℕ)
    → (n < 10 → P ((b'0' + n) ∷ rest))
    → P (digits k (n / 10) ((b'0' + n % 10) ∷ rest))
    → P (digits (suc k) n rest)
unfolding digits
one_digit P k n rest last more = elim (Bool-cases (ltb n 10)) [
  | inl test ↦ rw test (last (ground arith))
  | inr test ↦ rw test more
]

length-digits : (k n : ℕ) (rest : List ℕ) → length (digits k n rest) ≤ k + length rest
unfolding digits
length-digits zero n rest = omega arith
length-digits (suc k) n rest =
    one_digit (λ l. length l ≤ suc k + length rest) k n rest (λ lt. omega arith)
      (omega (arith, length-digits k (n / 10) ((b'0' + n % 10) ∷ rest)))

digits-All : (k n : ℕ) (rest : List ℕ) → All IsDigit rest → All IsDigit (digits k n rest)
unfolding digits
digits-All zero n rest h = h
digits-All (suc k) n rest h =
    one_digit (All IsDigit) k n rest (λ lt. ((omega arith, omega arith), h))
      (digits-All k (n / 10) ((b'0' + n % 10) ∷ rest) ((omega arith, omega arith), h))

plus_minus : (m : ℕ) → b'0' + m - b'0' ≡ m
plus_minus m = omega arith

regroup : (q r p v : ℕ) → q * (p * 10) + (r * p + v) ≡ (q * 10 + r) * p + v
regroup q r p v = omega arith

nothing : (n m v : ℕ) → n ≡ 0 → v ≡ n * m + v
nothing n m v e = sym (ap (λ k. k * m + v) e ∙ omega arith)

by_place : (n p v : ℕ) → (n / 10) * (p * 10) + ((b'0' + n % 10 - b'0') * p + v) ≡ n * p + v
by_place n p v = pull (n / 10) (n % 10) n p v (omega arith)
  where
    pull : (q r n p v : ℕ) → n ≡ q * 10 + r → q * (p * 10) + ((48 + r - 48) * p + v) ≡ n * p + v
    pull q r n p v e =
        ap (λ d. q * (p * 10) + (d * p + v)) (plus_minus r)
        ∙ regroup q r p v
        ∙ ap (λ m. m * p + v) (sym e)

numeral_value-digits :
    (k n : ℕ) (rest : List ℕ)
    → n < 10 ^ k
    → numeral_value (digits k n rest) ≡ n * 10 ^ length rest + numeral_value rest
unfolding digits numeral_value
numeral_value-digits zero n rest lt =
    nothing n (10 ^ length rest) (numeral_value rest) (omega arith)
numeral_value-digits (suc k) n rest lt =
    one_digit (λ l. numeral_value l ≡ n * 10 ^ length rest + numeral_value rest) k n rest
      (λ less. ap (λ m. m * 10 ^ length rest + numeral_value rest) (plus_minus n))
      (numeral_value-digits k (n / 10) ((b'0' + n % 10) ∷ rest) (omega (arith, lt, pow-suc 10 k))
        ∙ ap (λ q. (n / 10) * q + ((b'0' + n % 10 - b'0') * 10 ^ length rest + numeral_value rest))
            (pow-suc 10 (length rest))
        ∙ by_place n (10 ^ length rest) (numeral_value rest))

length-decimal : (n : ℕ) → length (decimal n) ≤ 20
unfolding decimal numeral_value
length-decimal n = length-digits 20 n []

-- %zu, of any `size_t`: a numeral of 20 digits at most, which spells the number.
pub numeral_value-decimal :
    (n : ℕ)
    → n < 2 ^ 64
    → (length (decimal n) ≤ 20) × All IsDigit (decimal n) × (numeral_value (decimal n) ≡ n)
unfolding decimal numeral_value
numeral_value-decimal n lt = (
  length-decimal n,
  digits-All 20 n [] tt,
  numeral_value-digits 20 n [] (omega arith) ∙ omega arith,
)
