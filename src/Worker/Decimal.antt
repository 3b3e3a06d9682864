-- ===== src/Worker/Decimal.antt =====
-- What src/query_thread.c uses of `snprintf`: the conversion %zu.
use linglongta.Prelude.{ℕ, zero, suc, ◌+◌, ◌/◌, ◌%◌, List, [], ◌∷◌, ltb, if◌then◌else◌}

-- The decimal digits of a number in front of others, for so many digits at most.
unfoldable pub digits : (fuel : ℕ) → ℕ → List ℕ → List ℕ
digits zero n rest = rest
digits (suc k) n rest =
    let more = digits k (n / 10) ((b'0' + n % 10) ∷ rest) in
    if ltb n 10 then (b'0' + n) ∷ rest else more

-- %zu: a `size_t` has 20 digits at most.
unfoldable pub decimal : ℕ → List ℕ
decimal n = digits 20 n []
