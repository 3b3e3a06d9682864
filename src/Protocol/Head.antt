-- ===== src/Protocol/Head.antt =====
-- src/memcached_protocol.c: `parse_memcached_string_head` and `try_parse_memcached_string_head`.
use linglongta.Prelude.{
  ℕ, zero, suc, ◌-◌, Bool, true, false, Option, none, some, ◌&&◌, List, [], ◌∷◌, take, ◌==◌,
  if◌then◌else◌,
}
use mathlib.Core.Option
use linglongta.Protocol.CString.{Cursor, c_string, strtok_r, same_word}
use linglongta.Protocol.Commands.{
  CmdType, ParseStatus, QueryRequest, is_byte, parse_power_cmd, parse_sync_cmd, parse_get_cmd,
  parse_delete_cmd, parse_set_cmd,
}

abbrev pub max_query_header_size : ℕ
max_query_header_size = 512

-- enum imgstack_ret_code
pub data RetCode : Type 0 where
  ret_failed ret_success ret_no_mem ret_parse_req_failed : RetCode

-- enum parse_state_s
pub data ParseState : Type 0 where
  s_ready s_get s_set s_delete s_sync s_power s_show s_done s_fatal : ParseState

abbrev pub get_word : List ℕ
get_word = b'g' ∷ b'e' ∷ b't' ∷ []

abbrev pub set_word : List ℕ
set_word = b's' ∷ b'e' ∷ b't' ∷ []

abbrev pub delete_word : List ℕ
delete_word = b'd' ∷ b'e' ∷ b'l' ∷ b'e' ∷ b't' ∷ b'e' ∷ []

abbrev pub sync_word : List ℕ
sync_word = b's' ∷ b'y' ∷ b'n' ∷ b'c' ∷ []

abbrev pub power_word : List ℕ
power_word = b'p' ∷ b'o' ∷ b'w' ∷ b'e' ∷ b'r' ∷ []

-- the state that the first word leads to
unfoldable pub command_state : List ℕ → ParseState
command_state token =
    if same_word token get_word
    then ParseState.s_get
    else if same_word token set_word
    then ParseState.s_set
    else if same_word token delete_word
    then ParseState.s_delete
    else if same_word token sync_word
    then ParseState.s_sync
    else if same_word token power_word
    then ParseState.s_power
    else ParseState.s_fatal

-- The variables of the loop.
pub record HeadLoop : Type 0 where
  pub state : ParseState
  pub request : QueryRequest
  pub retval : RetCode

-- HandleCmd
unfoldable pub handle_cmd : CmdType → HeadLoop → Bool × QueryRequest → HeadLoop
handle_cmd type l (true, qr) = record l {
  state = ParseState.s_done;
  request = record qr { cmd_type = type; parse_status = ParseStatus.ps_succ };
}
handle_cmd type l (false, qr) = record l {
  state = ParseState.s_fatal;
  request = record qr { cmd_type = type; parse_status = ParseStatus.ps_failed };
}

-- one round of the loop, with the first word and the place behind it
unfoldable pub head_round : List ℕ → Cursor → ParseState → HeadLoop → HeadLoop
head_round token c ParseState.s_ready l = record l { state = command_state token }
head_round token c ParseState.s_get l = handle_cmd CmdType.cmd_get l (parse_get_cmd c l.request)
head_round token c ParseState.s_set l = handle_cmd CmdType.cmd_set l (parse_set_cmd c l.request)
head_round token c ParseState.s_delete l =
    handle_cmd CmdType.cmd_delete l (parse_delete_cmd c l.request)
head_round token c ParseState.s_sync l = handle_cmd CmdType.cmd_sync l (parse_sync_cmd c l.request)
head_round token c ParseState.s_power l =
    handle_cmd CmdType.cmd_power l (parse_power_cmd c l.request)
head_round token c ParseState.s_fatal l = record l {
  state = ParseState.s_done;
  retval = RetCode.ret_parse_req_failed;
  request = record (l.request) { parse_status = ParseStatus.ps_failed };
}
head_round token c ParseState.s_show l = record l { state = ParseState.s_fatal }
head_round token c ParseState.s_done l = l

-- for ( ; state != s_done; )
unfoldable pub head_loop : (fuel : ℕ) → List ℕ → Cursor → HeadLoop → HeadLoop
head_loop zero token c l = l
head_loop (suc n) token c l = head_loop n token c (head_round token c l.state l)

abbrev pub parse_tokens : QueryRequest → Option (List ℕ) × Cursor → HeadLoop
parse_tokens qr (none, c) = record {
  state = ParseState.s_done;
  request = record qr { parse_status = ParseStatus.ps_failed };
  retval = RetCode.ret_parse_req_failed;
}
parse_tokens qr (some token, c) =
    head_loop 3 token c
      (record { state = ParseState.s_ready; request = qr; retval = RetCode.ret_success })

-- The copy of the head, and its last byte set to NUL; then three rounds lead to the end of the loop.
unfoldable pub parse_head_loop : QueryRequest → HeadLoop
parse_head_loop qr =
    parse_tokens (record qr { cmd_type = CmdType.cmd_unknown })
      (strtok_r (record {
        before = [];
        rest = c_string (take (max_query_header_size - 1) qr.query_head_buf);
      }))

unfoldable pub parse_memcached_string_head : QueryRequest → RetCode × QueryRequest
parse_memcached_string_head qr = ((parse_head_loop qr).retval, (parse_head_loop qr).request)

-- strstr(head, "\r\n"): how many bytes stand in front of the first line end.
unfoldable pub find_crlf : List ℕ → Option ℕ
find_crlf [] = none
find_crlf (c ∷ s) = if c == b'\r' && is_byte b'\n' 0 s then some 0 else Option.map suc (find_crlf s)

unfoldable pub try_parse_memcached_string_head : QueryRequest → Option ℕ
try_parse_memcached_string_head qr = find_crlf (c_string qr.query_head_buf)
