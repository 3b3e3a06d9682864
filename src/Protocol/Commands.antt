-- ===== src/Protocol/Commands.antt =====
-- src/memcached_protocol.c: what follows the name of a command in the head of a request.
use linglongta.Prelude.{
  ℕ, zero, suc, ◌-◌, Bool, true, false, ◌&&◌, ◌||◌, Option, none, some, List, [], ◌∷◌, ◌++◌, length,
  take, leb, ◌==◌, if◌then◌else◌, ℤ,
}
use mathlib.Core.List.{reverse}
use linglongta.Protocol.CString.{
  Cursor, space, skip_spaces, strtok_r, same_word, atoi, atol, as_size_t,
}

abbrev pub max_key_size : ℕ
max_key_size = 251

-- enum cmd_type_e
pub data CmdType : Type 0 where
  cmd_unknown cmd_set cmd_get cmd_delete cmd_sync cmd_power : CmdType

-- enum parse_status_e
pub data ParseStatus : Type 0 where
  ps_unknown ps_succ ps_failed : ParseStatus

-- struct query_request_s: the bytes of the head, and the string that the array `key` holds.
pub record QueryRequest : Type 0 where
  pub query_head_buf : List ℕ
  pub query_head_buf_size : ℕ
  pub content : Option (List ℕ)
  pub data_size : ℕ
  pub cmd_type : CmdType
  pub parse_status : ParseStatus
  pub flag : ℤ
  pub exptime : ℤ
  pub key : List ℕ

-- Byte `i` in front of the NUL, counted from it; a byte in front of the buffer is none.
abbrev pub is_byte : ℕ → ℕ → List ℕ → Bool
is_byte c i [] = false
is_byte c zero (b ∷ bs) = b == c
is_byte c (suc i) (b ∷ bs) = is_byte c i bs

-- the bytes in front of the NUL of the string at a cursor, the last one first
abbrev pub from_end : Cursor → List ℕ
from_end c = reverse c.rest ++ c.before

abbrev pub ends_in_crlf : Cursor → Bool
ends_in_crlf c = is_byte b'\n' 0 (from_end c) && is_byte b'\r' 1 (from_end c)

-- A NUL over the byte that stands `n` before the end. It may stand in front of the cursor.
unfoldable pub cut : ℕ → Cursor → List ℕ
cut n c = if leb n (length c.rest) then take (length c.rest - n) c.rest else c.rest

-- ScanKey past the spaces: the string without its line end and one space in front of that.
abbrev pub scan_at : Cursor → Option (List ℕ)
scan_at c =
    if ends_in_crlf c
    then some (take (max_key_size - 1) (if is_byte space 2 (from_end c) then cut 3 c else cut 2 c))
    else none

unfoldable pub scan_key : Cursor → Option (List ℕ)
scan_key c = scan_at (skip_spaces c.before c.rest)

abbrev pub with_key : QueryRequest → (List ℕ → Bool) → Option (List ℕ) → Bool × QueryRequest
with_key qr accept none = (false, qr)
with_key qr accept (some k) = (accept k, record qr { key = k })

abbrev pub halt : List ℕ
halt = b'h' ∷ b'a' ∷ b'l' ∷ b't' ∷ []

abbrev pub index_word : List ℕ
index_word = b'i' ∷ b'n' ∷ b'd' ∷ b'e' ∷ b'x' ∷ []

abbrev pub all_word : List ℕ
all_word = b'a' ∷ b'l' ∷ b'l' ∷ []

unfoldable pub parse_power_cmd : Cursor → QueryRequest → Bool × QueryRequest
parse_power_cmd c qr = with_key qr (λ k. same_word k halt) (scan_key c)

unfoldable pub parse_sync_cmd : Cursor → QueryRequest → Bool × QueryRequest
parse_sync_cmd c qr = with_key qr (λ k. same_word k index_word || same_word k all_word) (scan_key c)

unfoldable pub parse_get_cmd : Cursor → QueryRequest → Bool × QueryRequest
parse_get_cmd c qr = with_key qr (λ _. true) (scan_key c)

unfoldable pub parse_delete_cmd : Cursor → QueryRequest → Bool × QueryRequest
parse_delete_cmd c qr = with_key qr (λ _. true) (scan_key c)

-- enum parse_set_state_s
pub data SetState : Type 0 where
  s_set_key s_set_flag s_set_exptime s_set_bytes s_set_done s_set_failed : SetState

-- The variables of the loop of `parse_set_cmd`.
pub record SetLoop : Type 0 where
  pub state : SetState
  pub saveptr : Cursor
  pub request : QueryRequest
  pub retval : Bool

abbrev pub key_token : SetLoop → Option (List ℕ) × Cursor → SetLoop
key_token l (none, c) = record l { state = SetState.s_set_failed; saveptr = c }
key_token l (some token, c) =
    if leb max_key_size (length token)
    then record l { state = SetState.s_set_failed; saveptr = c }
    else record l {
      state = SetState.s_set_flag;
      saveptr = c;
      request = record (l.request) { key = token };
    }

abbrev pub flag_token : SetLoop → Option (List ℕ) × Cursor → SetLoop
flag_token l (none, c) = record l { state = SetState.s_set_failed; saveptr = c }
flag_token l (some token, c) = record l {
  state = SetState.s_set_exptime;
  saveptr = c;
  request = record (l.request) { flag = atoi token };
}

abbrev pub exptime_token : SetLoop → Option (List ℕ) × Cursor → SetLoop
exptime_token l (none, c) = record l { state = SetState.s_set_failed; saveptr = c }
exptime_token l (some token, c) = record l {
  state = SetState.s_set_bytes;
  saveptr = c;
  request = record (l.request) { exptime = atoi token };
}

abbrev pub bytes_token : SetLoop → Option (List ℕ) × Cursor → SetLoop
bytes_token l (none, c) = record l { state = SetState.s_set_failed; saveptr = c }
bytes_token l (some token, c) = record l {
  state = SetState.s_set_done;
  saveptr = c;
  request = record (l.request) { data_size = as_size_t (atol token) };
}

-- one round of the loop
abbrev pub set_round : SetState → SetLoop → SetLoop
set_round SetState.s_set_key l = key_token l (strtok_r l.saveptr)
set_round SetState.s_set_flag l = flag_token l (strtok_r l.saveptr)
set_round SetState.s_set_exptime l = exptime_token l (strtok_r l.saveptr)
set_round SetState.s_set_bytes l = bytes_token l (strtok_r l.saveptr)
set_round SetState.s_set_failed l = record l { state = SetState.s_set_done; retval = false }
set_round SetState.s_set_done l = l

-- for ( ; state != s_set_done; )
unfoldable pub set_loop : (fuel : ℕ) → SetLoop → SetLoop
set_loop zero l = l
set_loop (suc n) l = set_loop n (set_round l.state l)

-- Six rounds lead to the end of the loop. The line end must stand behind the cursor.
unfoldable pub parse_set_cmd : Cursor → QueryRequest → Bool × QueryRequest
parse_set_cmd c qr =
    let l = set_loop 6 (record {
      state = SetState.s_set_key;
      saveptr = record c { rest = cut 2 c };
      request = qr;
      retval = true;
    }) in
    if ends_in_crlf c then (l.retval, l.request) else (false, qr)
