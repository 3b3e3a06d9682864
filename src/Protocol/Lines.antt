-- ===== src/Protocol/Lines.antt =====
-- src/memcached_protocol.c: how the parser gets to the command of a line.
use mathlib.Core.List.{reverse_aux}
use linglongta.Prelude.{
  ℕ, ◌≤◌, ◌≡◌, ◌≢◌, ap, ◌∙◌, arith, List, [], ◌∷◌, ◌++◌, length, All, All-append, take,
}
use linglongta.Protocol.CString.{space, c_string, Cursor, strtok_r}
use linglongta.Protocol.Commands.{CmdType, ParseStatus, QueryRequest}
use linglongta.Protocol.Head.{RetCode, ParseState, head_loop, parse_tokens, parse_head_loop}
use linglongta.Protocol.Words.{IsWordByte, IsWord, c_string-take, strtok_r-word}

abbrev pub IsTextByte : ℕ → Type 0
IsTextByte c = c ≢ 0

pub text_of_word : (w : List ℕ) → All IsWordByte w → All IsTextByte w
text_of_word [] h = tt
text_of_word (c ∷ w) (hc, h) = (hc.1, text_of_word w h)

-- the loop of the parser behind the first word
abbrev pub behind_word : List ℕ → List ℕ → Cursor
behind_word cmd args = record { before = 0 ∷ reverse_aux cmd []; rest = args }

pub head_loop-command :
    (qr : QueryRequest) (cmd args rest : List ℕ)
    → IsWord cmd
    → All IsTextByte args
    → length (cmd ++ space ∷ args) ≤ 511
    → qr.query_head_buf ≡ (cmd ++ space ∷ args) ++ 0 ∷ rest
    → parse_head_loop qr
      ≡ head_loop 3 cmd (behind_word cmd args) (record {
        state = ParseState.s_ready;
        request = record qr { cmd_type = CmdType.cmd_unknown };
        retval = RetCode.ret_success;
      })
unfolding parse_head_loop
head_loop-command qr cmd args rest w text short e =
    ap
      (λ s.
        parse_tokens (record qr { cmd_type = CmdType.cmd_unknown })
          (strtok_r (record { before = []; rest = s })))
      (ap (λ b. c_string (take 511 b)) e
        ∙ c_string-take 511 (cmd ++ space ∷ args) rest
            (All-append IsTextByte cmd (space ∷ args) (text_of_word cmd w.bytes)
              (omega arith, text))
            short)
    ∙ ap (parse_tokens (record qr { cmd_type = CmdType.cmd_unknown })) (strtok_r-word [] cmd args w)

-- A command that is parsed successfully.
abbrev pub parsed_as : CmdType → QueryRequest → QueryRequest
parsed_as type qr = record qr { cmd_type = type; parse_status = ParseStatus.ps_succ }
