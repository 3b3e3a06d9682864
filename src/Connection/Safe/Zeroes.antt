-- ===== src/Connection/Safe/Zeroes.antt =====
-- src/assign_thread.c: the zeroes behind the bytes of a head, and the place where the head ends.
use mathlib.Core.Option
use linglongta.Prelude.{
  none_ne_some, ℕ, zero, suc, ◌==◌, ◌+◌, ◌≤◌, ◌≡◌, ◌&&◌, refl, sym, ap, ◌∙◌, subst, arith,
  Bool-cases, inl, inr, some, none, List, [], ◌∷◌, ◌++◌, length, drop, Option,
}
use linglongta.Protocol.CString.{c_string}
use linglongta.Protocol.Head.{find_crlf}
use linglongta.Connection.Buffers.{drop-append_more}
use linglongta.Connection.Receive.{store_at}
use linglongta.Connection.Safe.{AllZero}

-- The bytes behind a point are zero.
AllZero-suc : (h : ℕ) (l : List ℕ) → AllZero (drop h l) → AllZero (drop (suc h) l)
AllZero-suc zero [] z = tt
AllZero-suc zero (c ∷ l) z = z.1
AllZero-suc (suc h) [] z = tt
AllZero-suc (suc h) (c ∷ l) z = AllZero-suc h l z

tail_zero : (h : ℕ) (c : ℕ) (l : List ℕ) → AllZero (drop h (c ∷ l)) → AllZero (drop h l)
tail_zero zero c l z = z.1
tail_zero (suc h) c l z = AllZero-suc h l z

AllZero-drop : (k h : ℕ) (l : List ℕ) → AllZero (drop h l) → AllZero (drop h (drop k l))
AllZero-drop zero h l z = z
AllZero-drop (suc k) h [] z = z
AllZero-drop (suc k) h (c ∷ l) z = AllZero-drop k h l (tail_zero h c l z)

add_comm : (a b : ℕ) → a + b ≡ b + a
add_comm a b = omega arith

from_zero : (n : ℕ) → n ≡ 0 + n
from_zero n = omega arith

-- The bytes of a read, at the start of the buffer.
pub AllZero-store_at :
    (bs buf : List ℕ) (h : ℕ)
    → AllZero (drop h buf)
    → AllZero (drop (h + length bs) (store_at 0 bs buf))
unfolding store_at
AllZero-store_at bs buf h z =
    subst AllZero
      (sym (drop-append_more bs (drop (length bs) buf) h)
        ∙ ap (λ n. drop n (bs ++ drop (length bs) buf)) (add_comm (length bs) h)
        ∙ ap (λ n. drop (h + length bs) (bs ++ drop n buf)) (from_zero (length bs)))
      (AllZero-drop (length bs) h buf z)

pub length-c_string : (h : ℕ) (buf : List ℕ) → AllZero (drop h buf) → length (c_string buf) ≤ h
unfolding c_string
length-c_string zero [] z = omega arith
length-c_string zero (c ∷ s) z = ground (arith, z.0)
length-c_string (suc h) [] z = omega arith
length-c_string (suc h) (c ∷ s) z = ground (arith, length-c_string h s z)

found_first : (i n : ℕ) → some 0 ≡ some i → i + 2 ≤ suc (suc n)
found_first i n e = ground (arith, e)

found_behind :
    (x : Option ℕ) (n i : ℕ)
    → ((j : ℕ) → x ≡ some j → j + 2 ≤ n)
    → Option.map suc x ≡ some i
    → i + 2 ≤ suc n
found_behind none n i h e = absurd (none_ne_some i e)
found_behind (some j) n i h e = ground (arith, h j refl, e)

pub find_crlf_lt : (s : List ℕ) (i : ℕ) → find_crlf s ≡ some i → i + 2 ≤ length s
unfolding find_crlf
find_crlf_lt [] i e = absurd (none_ne_some i e)
find_crlf_lt (c ∷ []) i e = elim (Bool-cases (c == b'\r')) [
  | inl q ↦ absurd (none_ne_some i (rw q at e))
  | inr q ↦ absurd (none_ne_some i (rw q at e))
]
find_crlf_lt (c ∷ d ∷ s) i e = elim (Bool-cases ((c == b'\r') && (d == b'\n'))) [
  | inl q ↦ found_first i (length s) (rw q at e)
  | inr q ↦ found_behind (find_crlf (d ∷ s)) (length (d ∷ s)) i (find_crlf_lt (d ∷ s)) (rw q at e)
]
