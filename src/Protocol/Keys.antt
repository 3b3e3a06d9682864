-- ===== src/Protocol/Keys.antt =====
-- src/memcached_protocol.c: the loop of `parse_set_cmd`, and the room for the key.
use linglongta.Prelude.{
  ℕ, zero, suc, ◌≤◌, ◌<◌, ◌≡◌, inl, inr, refl, arith, Bool, Bool-cases, Option, none, some, List,
  length, if◌then◌else◌, length-take_le,
}
use linglongta.Protocol.CString.{Cursor, strtok_r, skip_spaces, space}
use linglongta.Protocol.Commands.{
  QueryRequest, max_key_size, is_byte, from_end, ends_in_crlf, cut, SetState, SetLoop, set_round,
  set_loop, key_token, flag_token, exptime_token, bytes_token, with_key, scan_key, scan_at,
  parse_set_cmd,
}

-- How many rounds of the loop of `parse_set_cmd` are left at most.
abbrev pub rounds_left : SetState → ℕ
rounds_left SetState.s_set_done = 0
rounds_left SetState.s_set_failed = 1
rounds_left SetState.s_set_bytes = 2
rounds_left SetState.s_set_exptime = 3
rounds_left SetState.s_set_flag = 4
rounds_left SetState.s_set_key = 5

key_token-down :
    (l : SetLoop) (r : Option (List ℕ) × Cursor) → rounds_left (key_token l r).state ≤ 4
key_token-down l (none, c) = omega arith
key_token-down l (some token, c) = ground arith

flag_token-down :
    (l : SetLoop) (r : Option (List ℕ) × Cursor) → rounds_left (flag_token l r).state ≤ 3
flag_token-down l (none, c) = omega arith
flag_token-down l (some token, c) = omega arith

exptime_token-down :
    (l : SetLoop) (r : Option (List ℕ) × Cursor) → rounds_left (exptime_token l r).state ≤ 2
exptime_token-down l (none, c) = omega arith
exptime_token-down l (some token, c) = omega arith

bytes_token-down :
    (l : SetLoop) (r : Option (List ℕ) × Cursor) → rounds_left (bytes_token l r).state ≤ 1
bytes_token-down l (none, c) = omega arith
bytes_token-down l (some token, c) = omega arith

set_round-down :
    (s : SetState) (l : SetLoop) (n : ℕ)
    → l.state ≡ s
    → rounds_left s ≤ suc n
    → rounds_left (set_round s l).state ≤ n
set_round-down SetState.s_set_key l n e h = omega (arith, key_token-down l (strtok_r l.saveptr))
set_round-down SetState.s_set_flag l n e h = omega (arith, flag_token-down l (strtok_r l.saveptr))
set_round-down SetState.s_set_exptime l n e h =
    omega (arith, exptime_token-down l (strtok_r l.saveptr))
set_round-down SetState.s_set_bytes l n e h = omega (arith, bytes_token-down l (strtok_r l.saveptr))
set_round-down SetState.s_set_failed l n e h = omega arith
set_round-down SetState.s_set_done l n e h = ground arith

none_left : (s : SetState) → rounds_left s ≤ 0 → s ≡ SetState.s_set_done
none_left s h = ground arith

-- The loop of `parse_set_cmd` ends, from any state and at any text, within five rounds.
pub set_loop-ends :
    (n : ℕ) (l : SetLoop) → rounds_left l.state ≤ n → (set_loop n l).state ≡ SetState.s_set_done
unfolding set_loop
set_loop-ends zero l h = none_left l.state h
set_loop-ends (suc n) l h =
    set_loop-ends n (set_round l.state l) (set_round-down l.state l n refl h)

-- A key that its array has room for, with a NUL behind it.
abbrev pub KeyFits : QueryRequest → Type 0
KeyFits qr = length qr.key < max_key_size

scan_at-fits : (c : Cursor) (k : List ℕ) → scan_at c ≡ some k → length k < max_key_size
scan_at-fits c k e =
    ground (arith, length-take_le 250 (if is_byte space 2 (from_end c) then cut 3 c else cut 2 c))

with_key-KeyFits :
    (qr : QueryRequest) (accept : List ℕ → Bool) (o : Option (List ℕ))
    → ((k : List ℕ) → o ≡ some k → length k < max_key_size)
    → KeyFits qr
    → KeyFits (with_key qr accept o).1
with_key-KeyFits qr accept none short h = h
with_key-KeyFits qr accept (some k) short h = short k refl

pub scanned-KeyFits :
    (qr : QueryRequest) (accept : List ℕ → Bool) (c : Cursor)
    → KeyFits qr
    → KeyFits (with_key qr accept (scan_key c)).1
unfolding scan_key
scanned-KeyFits qr accept c =
    with_key-KeyFits qr accept (scan_at (skip_spaces c.before c.rest))
      (scan_at-fits (skip_spaces c.before c.rest))

key_token-KeyFits :
    (l : SetLoop) (r : Option (List ℕ) × Cursor)
    → KeyFits l.request
    → KeyFits (key_token l r).request
key_token-KeyFits l (none, c) h = h
key_token-KeyFits l (some token, c) h = ground arith

flag_token-KeyFits :
    (l : SetLoop) (r : Option (List ℕ) × Cursor)
    → KeyFits l.request
    → KeyFits (flag_token l r).request
flag_token-KeyFits l (none, c) h = h
flag_token-KeyFits l (some token, c) h = h

exptime_token-KeyFits :
    (l : SetLoop) (r : Option (List ℕ) × Cursor)
    → KeyFits l.request
    → KeyFits (exptime_token l r).request
exptime_token-KeyFits l (none, c) h = h
exptime_token-KeyFits l (some token, c) h = h

bytes_token-KeyFits :
    (l : SetLoop) (r : Option (List ℕ) × Cursor)
    → KeyFits l.request
    → KeyFits (bytes_token l r).request
bytes_token-KeyFits l (none, c) h = h
bytes_token-KeyFits l (some token, c) h = h

set_round-KeyFits :
    (s : SetState) (l : SetLoop) → KeyFits l.request → KeyFits (set_round s l).request
set_round-KeyFits SetState.s_set_key l h = key_token-KeyFits l (strtok_r l.saveptr) h
set_round-KeyFits SetState.s_set_flag l h = flag_token-KeyFits l (strtok_r l.saveptr) h
set_round-KeyFits SetState.s_set_exptime l h = exptime_token-KeyFits l (strtok_r l.saveptr) h
set_round-KeyFits SetState.s_set_bytes l h = bytes_token-KeyFits l (strtok_r l.saveptr) h
set_round-KeyFits SetState.s_set_failed l h = h
set_round-KeyFits SetState.s_set_done l h = h

set_loop-KeyFits : (n : ℕ) (l : SetLoop) → KeyFits l.request → KeyFits (set_loop n l).request
unfolding set_loop
set_loop-KeyFits zero l h = h
set_loop-KeyFits (suc n) l h =
    set_loop-KeyFits n (set_round l.state l) (set_round-KeyFits l.state l h)

pub parse_set_cmd-KeyFits :
    (c : Cursor) (qr : QueryRequest) → KeyFits qr → KeyFits (parse_set_cmd c qr).1
unfolding parse_set_cmd
parse_set_cmd-KeyFits c qr h = elim (Bool-cases (ends_in_crlf c)) [
  | inl ended ↦ rw ended (set_loop-KeyFits 6 _ h)
  | inr open_end ↦ rw open_end h
]
