-- ===== src/Protocol/Tests.antt =====
-- The parser at concrete heads, and the theorems on it there.
use Prim.Native.Char.{code}
use Prim.Native.String.{String}
use linglongta.Prelude.{ℕ, ◌≡◌, refl, arith, true, List, [], ◌∷◌, ◌++◌, replicate, none, pos}
use linglongta.Protocol.CString.{
  space, c_string, skip_spaces, word, after_word, strtok_r, same_word, number, skip_blanks,
  signed_number, atol, atoi, as_size_t,
}
use linglongta.Protocol.Commands.{
  QueryRequest, CmdType, ParseStatus, SetState, SetLoop, cut, scan_key, parse_sync_cmd,
  parse_set_cmd, set_loop,
}
use linglongta.Protocol.Head.{
  RetCode, command_state, handle_cmd, head_round, head_loop, parse_head_loop,
  parse_memcached_string_head,
}
use linglongta.Protocol.Words.{IsWord, line_end}
use linglongta.Protocol.Numbers.{IsNumeral, numeral_value}
use linglongta.Protocol.Keys.{set_loop-ends}
use linglongta.Protocol.Outcome.{IsOutcome, parse_head_loop-IsOutcome}
use linglongta.Protocol.SetLine.{set_line, parse_head-set_line}
use linglongta.Protocol.KeyLine.{get_key, parse_head-blank_key}

abbrev codes : String → List ℕ
codes String.[] = []
codes (String.◌∷◌ c s) = code c ∷ codes s

abbrev request : List ℕ → QueryRequest
request head = record {
  query_head_buf = head;
  query_head_buf_size = 0;
  content = none;
  data_size = 0;
  cmd_type = CmdType.cmd_unknown;
  parse_status = ParseStatus.ps_unknown;
  flag = pos 0;
  exptime = pos 0;
  key = [];
}

-- test_parse_set_cmd of test/test_memcached_protocol.c
set_run :
    parse_memcached_string_head (request (codes "SET setkey  123   10 1" ++ line_end ++ 0 ∷ [])) ≡ (
      RetCode.ret_success,
      record (request (codes "SET setkey  123   10 1" ++ line_end ++ 0 ∷ [])) {
        cmd_type = CmdType.cmd_set;
        parse_status = ParseStatus.ps_succ;
        key = codes "setkey";
        flag = pos 123;
        exptime = pos 10;
        data_size = 1;
      },
    )
unfolding parse_memcached_string_head parse_head_loop c_string strtok_r skip_spaces word after_word
    head_loop head_round command_state same_word handle_cmd parse_set_cmd cut set_loop atoi atol
    skip_blanks signed_number number as_size_t
set_run = refl

-- test_parse_sync_cmd
sync_run :
    (parse_memcached_string_head (request (codes "sync index_error" ++ line_end))).0
    ≡ RetCode.ret_parse_req_failed
unfolding parse_memcached_string_head parse_head_loop c_string strtok_r skip_spaces word after_word
    head_loop head_round command_state same_word handle_cmd parse_sync_cmd scan_key cut
sync_run = refl

get_text-IsWord : IsWord (codes "Get")
get_text-IsWord = record { some_byte = λ e. cc; bytes = omega arith }

set_text-IsWord : IsWord (codes "set")
set_text-IsWord = record { some_byte = λ e. cc; bytes = omega arith }

key_text-IsWord : IsWord (codes "name")
key_text-IsWord = record { some_byte = λ e. cc; bytes = omega arith }

twelve-IsNumeral : IsNumeral (codes "12")
twelve-IsNumeral = record { some_digit = λ e. cc; digits = omega arith }

abbrev key_text : List ℕ
key_text = codes "Get" ++ space ∷ (codes "name" ++ ([] ++ line_end))

abbrev set_text : List ℕ
set_text =
    codes "set"
    ++ space ∷ (set_line (codes "name") (codes "12") (codes "12") (codes "12") ++ line_end)

abbrev negative_text : List ℕ
negative_text =
    codes "set"
    ++ space ∷ (set_line (codes "name") (codes "0") (codes "0") (codes "-12") ++ line_end)

abbrev blank_text : List ℕ
blank_text = codes "Get" ++ space ∷ (replicate 1 space ++ line_end)

parse_head-set_line_example : parse_memcached_string_head (request (set_text ++ 0 ∷ [])) ≡ (
  RetCode.ret_success,
  record (request (set_text ++ 0 ∷ [])) {
    cmd_type = CmdType.cmd_set;
    parse_status = ParseStatus.ps_succ;
    key = codes "name";
    flag = pos (numeral_value (codes "12"));
    exptime = pos (numeral_value (codes "12"));
    data_size = numeral_value (codes "12");
  },
)
unfolding command_state same_word numeral_value
parse_head-set_line_example =
    parse_head-set_line (request (set_text ++ 0 ∷ [])) (codes "set") (codes "name") (codes "12")
      (codes "12") (codes "12") [] set_text-IsWord refl key_text-IsWord (omega arith)
      twelve-IsNumeral (omega arith) twelve-IsNumeral (omega arith) twelve-IsNumeral (omega arith)
      (omega arith) refl

parse_head-blank_key_example : parse_memcached_string_head (request (blank_text ++ 0 ∷ [])) ≡ (
  RetCode.ret_success,
  record (request (blank_text ++ 0 ∷ [])) {
    cmd_type = CmdType.cmd_get;
    parse_status = ParseStatus.ps_succ;
    key = line_end;
  },
)
unfolding command_state same_word
parse_head-blank_key_example =
    parse_head-blank_key (request (blank_text ++ 0 ∷ [])) (codes "Get") [] 0 _ _ get_key
      get_text-IsWord refl (omega arith) refl

parse_head_loop-IsOutcome_example : IsOutcome (parse_head_loop (request (codes "get" ++ line_end)))
parse_head_loop-IsOutcome_example =
    parse_head_loop-IsOutcome (request (codes "get" ++ line_end)) (omega arith)

abbrev set_start : SetLoop
set_start = record {
  state = SetState.s_set_key;
  saveptr = record { before = []; rest = codes "name 1" };
  request = request [];
  retval = true;
}

set_loop-ends_example : (set_loop 5 set_start).state ≡ SetState.s_set_done
set_loop-ends_example = set_loop-ends 5 set_start (omega arith)
