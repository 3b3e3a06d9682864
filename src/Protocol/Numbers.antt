-- ===== src/Protocol/Numbers.antt =====
-- src/memcached_protocol.c: the numbers that `atoi` and `atol` read.
use native.Mathlib.Nat.{pow-suc}
use linglongta.Prelude.{
  ℕ, zero, suc, ◌+◌, ◌-◌, ◌*◌, ◌^◌, ◌≤◌, ◌<◌, ◌≡◌, ◌≢◌, refl, sym, ap, ◌∙◌, arith, true, List, [],
  ◌∷◌, length, All, min, if◌then◌else◌, pos,
}
use linglongta.Protocol.CString.{
  is_digit, skip_blanks, number, minus, signed_number, atol, atoi, as_size_t,
}
use linglongta.Protocol.Words.{IsWordByte, IsWord}

abbrev pub IsDigit : ℕ → Type 0
IsDigit c = (b'0' ≤ c) × (c ≤ b'9')

pub record IsNumeral (s : List ℕ) : Type 0 where
  pub some_digit : s ≢ []
  pub digits : All IsDigit s

-- The number that decimal digits spell: each by its place.
unfoldable pub numeral_value : List ℕ → ℕ
numeral_value [] = 0
numeral_value (c ∷ s) = (c - b'0') * 10 ^ length s + numeral_value s

pub IsNumeral-IsWord : (s : List ℕ) → IsNumeral s → IsWord s
IsNumeral-IsWord s h = record { some_byte = h.some_digit; bytes = bytes s h.digits }
  where
    bytes : (t : List ℕ) → All IsDigit t → All IsWordByte t
    bytes [] d = tt
    bytes (c ∷ t) (dc, d) = ((omega arith, omega arith), bytes t d)

digit_test : (c : ℕ) → IsDigit c → is_digit c ≡ true
digit_test c h = ground arith

regroup : (n d p v : ℕ) → (n * 10 + d) * p + v ≡ n * (p * 10) + (d * p + v)
regroup n d p v = omega arith

number-digits :
    (s : List ℕ) (n : ℕ) → All IsDigit s → number s n ≡ n * 10 ^ length s + numeral_value s
unfolding number numeral_value
number-digits [] n h = omega arith
number-digits (c ∷ s) n (hc, h) =
    ap (λ b. if b then number s (n * 10 + (c - b'0')) else n) (digit_test c hc)
    ∙ number-digits s (n * 10 + (c - b'0')) h
    ∙ regroup n (c - b'0') (10 ^ length s) (numeral_value s)
    ∙ ap (λ k. n * k + ((c - b'0') * 10 ^ length s + numeral_value s)) (sym (pow-suc 10 (length s)))

number_lem : (s : List ℕ) → All IsDigit s → number s 0 ≡ numeral_value s
number_lem s h = number-digits s 0 h ∙ omega arith

pub atol-numeral :
    (s : List ℕ) → IsNumeral s → numeral_value s < 2 ^ 63 → atol s ≡ pos (numeral_value s)
unfolding atol skip_blanks signed_number
atol-numeral [] h lt = absurd (h.some_digit refl)
atol-numeral (c ∷ s) h lt = ground (arith, h.digits.0, number_lem (c ∷ s) h.digits)

pub atoi-numeral :
    (s : List ℕ) → IsNumeral s → numeral_value s < 2 ^ 31 → atoi s ≡ pos (numeral_value s)
unfolding atoi
atoi-numeral s h lt = rw (atol-numeral s h (omega arith)) (ground arith)

pub as_size_t-atol_numeral :
    (s : List ℕ) → IsNumeral s → numeral_value s < 2 ^ 63 → as_size_t (atol s) ≡ numeral_value s
unfolding as_size_t
as_size_t-atol_numeral s h lt = rw (atol-numeral s h lt) (omega arith)

as_size_t-minus : (n : ℕ) → 0 < n → n ≤ 2 ^ 63 → as_size_t (minus n) ≡ 2 ^ 64 - n
unfolding as_size_t
as_size_t-minus zero h le = absurd (omega arith)
as_size_t-minus (suc n) h le = omega arith

-- A minus sign in front of digits makes a size of nearly 2^64.
pub as_size_t-atol_negative :
    (s : List ℕ)
    → IsNumeral s
    → 0 < numeral_value s
    → numeral_value s ≤ 2 ^ 63
    → as_size_t (atol (b'-' ∷ s)) ≡ 2 ^ 64 - numeral_value s
unfolding atol skip_blanks signed_number
as_size_t-atol_negative s h gt le = rw (number_lem s h.digits) (
    ap (λ n. as_size_t (minus n)) (min_le (numeral_value s) le)
    ∙ as_size_t-minus (numeral_value s) gt le)
  where
    min_le : (n : ℕ) → n ≤ 2 ^ 63 → min n (2 ^ 63) ≡ n
    min_le n h' = omega arith
