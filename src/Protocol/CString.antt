-- ===== src/Protocol/CString.antt =====
-- What src/memcached_protocol.c uses of the C library: strings as the bytes up to their NUL, `strtok_r` with
-- a space for its delimiter, `strcasecmp`, `atoi` and `atol`.
use linglongta.Prelude.{
  ℕ, zero, suc, ◌+◌, ◌-◌, ◌*◌, ◌%◌, ◌^◌, Bool, ◌&&◌, ◌||◌, Option, none, some, List, [], ◌∷◌, map,
  min, ltb, leb, ◌==◌, if◌then◌else◌, ℤ, pos, negsuc, same_bytes,
}

abbrev pub space : ℕ
space = 32

-- The string that starts at a buffer.
unfoldable pub c_string : List ℕ → List ℕ
c_string [] = []
c_string (c ∷ s) = if c == 0 then [] else c ∷ c_string s

-- A `char *` into a string: the bytes from it up to the NUL, and those in front of it, the nearest first.
pub record Cursor : Type 0 where
  pub before : List ℕ
  pub rest : List ℕ

-- while (*ptr == ' ') ++ptr
unfoldable pub skip_spaces : (before rest : List ℕ) → Cursor
skip_spaces before [] = record { before = before; rest = [] }
skip_spaces before (c ∷ s) =
    if c == space then skip_spaces (c ∷ before) s else record { before = before; rest = c ∷ s }

-- the bytes up to the next space
unfoldable pub word : List ℕ → List ℕ
word [] = []
word (c ∷ s) = if c == space then [] else c ∷ word s

-- Where `strtok_r` leaves its pointer: behind the space, which becomes a NUL, or at the end.
unfoldable pub after_word : (before rest : List ℕ) → Cursor
after_word before [] = record { before = before; rest = [] }
after_word before (c ∷ s) =
    if c == space then record { before = 0 ∷ before; rest = s } else after_word (c ∷ before) s

abbrev pub token_at : (before rest : List ℕ) → Option (List ℕ) × Cursor
token_at before [] = (none, record { before = before; rest = [] })
token_at before (c ∷ s) = (some (word (c ∷ s)), after_word before (c ∷ s))

-- strtok_r(ptr, " ", &ptr)
unfoldable pub strtok_r : Cursor → Option (List ℕ) × Cursor
strtok_r c = let s = skip_spaces c.before c.rest in token_at s.before s.rest

unfoldable pub lower : ℕ → ℕ
lower c = if leb b'A' c && leb c b'Z' then c + 32 else c

-- strcasecmp(a, b) == 0
unfoldable pub same_word : List ℕ → List ℕ → Bool
unfolding lower
same_word a b = same_bytes (map lower a) (map lower b)

abbrev pub is_digit : ℕ → Bool
is_digit c = leb b'0' c && leb c b'9'

abbrev pub is_blank : ℕ → Bool
is_blank c = c == space || (leb 9 c && leb c 13)

unfoldable pub skip_blanks : List ℕ → List ℕ
skip_blanks [] = []
skip_blanks (c ∷ s) = if is_blank c then skip_blanks s else c ∷ s

-- the number that leading digits spell behind `n`
unfoldable pub number : List ℕ → ℕ → ℕ
number [] n = n
number (c ∷ s) n = if is_digit c then number s (n * 10 + (c - b'0')) else n

abbrev pub minus : ℕ → ℤ
minus zero = pos 0
minus (suc n) = negsuc n

-- `atol`: out of the range of `long` the nearest end of it, as `strtol` has it.
unfoldable pub signed_number : List ℕ → ℤ
signed_number [] = pos 0
signed_number (c ∷ s) =
    if c == b'-'
    then minus (min (number s 0) (2 ^ 63))
    else if c == b'+'
    then pos (min (number s 0) (2 ^ 63 - 1))
    else pos (min (number (c ∷ s) 0) (2 ^ 63 - 1))

unfoldable pub atol : List ℕ → ℤ
atol s = signed_number (skip_blanks s)

-- the low 32 bits of a `long`, and the `int` that they stand for
abbrev pub low_32 : ℤ → ℕ
low_32 (pos n) = n % 2 ^ 32
low_32 (negsuc n) = 2 ^ 32 - 1 - n % 2 ^ 32

abbrev pub int_of : ℕ → ℤ
int_of m = if ltb m (2 ^ 31) then pos m else negsuc (2 ^ 32 - 1 - m)

unfoldable pub atoi : List ℕ → ℤ
atoi s = int_of (low_32 (atol s))

-- the cast of a `long` to `size_t`
unfoldable pub as_size_t : ℤ → ℕ
as_size_t (pos n) = n % 2 ^ 64
as_size_t (negsuc n) = 2 ^ 64 - 1 - n % 2 ^ 64
