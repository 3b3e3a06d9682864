-- ===== src/Protocol/Words.antt =====
-- src/memcached_protocol.c: what the scanning finds in a text of words.
use mathlib.Core.List.{reverse_aux, reverse_aux-eq, reverse_aux-append}
use linglongta.Prelude.{
  ℕ, zero, suc, ◌+◌, ◌-◌, ◌≤◌, ◌≡◌, ◌≢◌, refl, sym, ap, ◌∙◌, arith, true, false, some, List, [],
  ◌∷◌, ◌++◌, append-nil, length, length-append, All, take, take-append,
}
use linglongta.Protocol.CString.{space, c_string, skip_spaces, word, after_word, token_at, strtok_r}
use linglongta.Protocol.Commands.{is_byte, from_end, ends_in_crlf, cut}

abbrev pub line_end : List ℕ
line_end = b'\r' ∷ b'\n' ∷ []

-- A byte of a word: no space and no NUL.
abbrev pub IsWordByte : ℕ → Type 0
IsWordByte c = (c ≢ space) × (c ≢ 0)

pub record IsWord (w : List ℕ) : Type 0 where
  pub some_byte : w ≢ []
  pub bytes : All IsWordByte w

-- The bytes up to a NUL, in a buffer that is cut behind them.
pub c_string-take :
    (n : ℕ) (s rest : List ℕ)
    → All (λ c. c ≢ 0) s
    → length s ≤ n
    → c_string (take n (s ++ 0 ∷ rest)) ≡ s
unfolding c_string
c_string-take zero [] rest h le = refl
c_string-take (suc n) [] rest h le = refl
c_string-take zero (c ∷ s) rest h le = absurd (omega arith)
c_string-take (suc n) (c ∷ s) rest (hc, h) le =
    ground (arith, c_string-take n s rest h (omega arith))

word-append : (w s : List ℕ) → All IsWordByte w → word (w ++ space ∷ s) ≡ w
unfolding word
word-append [] s h = refl
word-append (c ∷ w) s (hc, h) = ground (arith, word-append w s h)

word_last : (w : List ℕ) → All IsWordByte w → word w ≡ w
unfolding word
word_last [] h = refl
word_last (c ∷ w) (hc, h) = ground (arith, word_last w h)

after_word-append :
    (b w s : List ℕ)
    → All IsWordByte w
    → after_word b (w ++ space ∷ s) ≡ record { before = 0 ∷ reverse_aux w b; rest = s }
unfolding after_word
after_word-append b [] s h = refl
after_word-append b (c ∷ w) s (hc, h) = ground (arith, after_word-append (c ∷ b) w s h)

after_word_last :
    (b w : List ℕ)
    → All IsWordByte w
    → after_word b w ≡ record { before = reverse_aux w b; rest = [] }
unfolding after_word
after_word_last b [] h = refl
after_word_last b (c ∷ w) (hc, h) = ground (arith, after_word_last (c ∷ b) w h)

pub skip_spaces-word :
    (b w s : List ℕ) → IsWord w → skip_spaces b (w ++ s) ≡ record { before = b; rest = w ++ s }
unfolding skip_spaces
skip_spaces-word b [] s h = absurd (h.some_byte refl)
skip_spaces-word b (c ∷ w) s h = ground (arith, h.bytes.0)

token_at-cons : (b w : List ℕ) → w ≢ [] → token_at b w ≡ (some (word w), after_word b w)
token_at-cons b [] ne = absurd (ne refl)
token_at-cons b (c ∷ w) ne = refl

append-ne-nil : (w s : List ℕ) → w ≢ [] → w ++ s ≢ []
append-ne-nil [] s ne = absurd (ne refl)
append-ne-nil (c ∷ w) s ne = λ e. cc

-- The next token is the word up to the space.
pub strtok_r-word :
    (b w s : List ℕ)
    → IsWord w
    → strtok_r (record { before = b; rest = w ++ space ∷ s })
      ≡ (some w, record { before = 0 ∷ reverse_aux w b; rest = s })
unfolding strtok_r
strtok_r-word b w s h = rw (skip_spaces-word b w (space ∷ s) h) (
    token_at-cons b (w ++ space ∷ s) (append-ne-nil w (space ∷ s) h.some_byte)
    ∙ rw (word-append w s h.bytes, after_word-append b w s h.bytes))

pub strtok_r-last :
    (b w : List ℕ)
    → IsWord w
    → strtok_r (record { before = b; rest = w })
      ≡ (some w, record { before = reverse_aux w b; rest = [] })
unfolding strtok_r
strtok_r-last b w h =
    ap (λ s. token_at s.before s.rest)
      (ap (skip_spaces b) (sym (append-nil w)) ∙ skip_spaces-word b w [] h)
    ∙ rw (append-nil w)
        (token_at-cons b w h.some_byte ∙ rw (word_last w h.bytes, after_word_last b w h.bytes))

from_end-line_end :
    (b x : List ℕ)
    → from_end (record { before = b; rest = x ++ line_end }) ≡ b'\n' ∷ b'\r' ∷ reverse_aux x b
from_end-line_end b x = sym (reverse_aux-eq (x ++ line_end) b) ∙ reverse_aux-append x line_end b

pub ends_in_crlf-line_end :
    (b x : List ℕ) → ends_in_crlf (record { before = b; rest = x ++ line_end }) ≡ true
ends_in_crlf-line_end b x = rw (from_end-line_end b x)

pub cut-append : (b x s : List ℕ) → cut (length s) (record { before = b; rest = x ++ s }) ≡ x
unfolding cut
cut-append b x s =
    rw (length-append x s)
      (ground (arith, take-append (length x) x s refl, rest (length x) (length s)))
  where
    rest : (n m : ℕ) → n + m - m ≡ n
    rest n m = omega arith

last_byte :
    (c : ℕ) (w b : List ℕ)
    → All IsWordByte (c ∷ w)
    → is_byte space 0 (reverse_aux (c ∷ w) b) ≡ false
last_byte c [] b (hc, h) = ground arith
last_byte c (d ∷ w) b (hc, h) = last_byte d w (c ∷ b) h

-- The third byte from the end, where a word stands in front of the line end.
pub word_in_front :
    (b w : List ℕ)
    → IsWord w
    → is_byte space 2 (from_end (record { before = b; rest = w ++ line_end })) ≡ false
word_in_front b [] h = absurd (h.some_byte refl)
word_in_front b (c ∷ w) h = rw (from_end-line_end b (c ∷ w)) (last_byte c w b h.bytes)

pub space_in_front :
    (b w : List ℕ)
    → is_byte space 2 (from_end (record { before = b; rest = (w ++ space ∷ []) ++ line_end }))
      ≡ true
space_in_front b w =
    rw (from_end-line_end b (w ++ space ∷ [])) (rw (reverse_aux-append w (space ∷ []) b))
