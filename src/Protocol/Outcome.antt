-- ===== src/Protocol/Outcome.antt =====
-- src/memcached_protocol.c: how the parsing of any head ends.
use linglongta.Prelude.{
  ℕ, ◌<◌, ◌≡◌, ◌≢◌, ◌⊎◌, inl, inr, refl, arith, Bool, true, false, Option, none, some, List, length,
}
use linglongta.Protocol.Keys.{KeyFits, scanned-KeyFits, parse_set_cmd-KeyFits}
use linglongta.Protocol.CString.{Cursor, strtok_r}
use linglongta.Protocol.Commands.{
  CmdType, ParseStatus, QueryRequest, max_key_size, parse_get_cmd, parse_delete_cmd, parse_sync_cmd,
  parse_power_cmd,
}
use linglongta.Protocol.Head.{
  RetCode, ParseState, HeadLoop, command_state, handle_cmd, head_round, head_loop, parse_tokens,
  parse_head_loop,
}

-- The parse is over, with a code that agrees with the status that it leaves, and a key that fits.
pub record IsOutcome (l : HeadLoop) : Type 0 where
  pub ended : l.state ≡ ParseState.s_done
  pub code :
      ((l.retval ≡ RetCode.ret_success)
        × (l.request.parse_status ≡ ParseStatus.ps_succ)
        × (l.request.cmd_type ≢ CmdType.cmd_unknown))
      ⊎ ((l.retval ≡ RetCode.ret_parse_req_failed)
          × (l.request.parse_status ≡ ParseStatus.ps_failed))
  pub key_fits : KeyFits l.request

handled-IsOutcome :
    (token : List ℕ) (c : Cursor) (type : CmdType) (l : HeadLoop) (r : Bool × QueryRequest)
    → type ≢ CmdType.cmd_unknown
    → l.retval ≡ RetCode.ret_success
    → KeyFits r.1
    → IsOutcome (head_loop 1 token c (handle_cmd type l r))
unfolding head_loop head_round handle_cmd
handled-IsOutcome token c type l (true, qr) ne e h = record {
  ended = refl;
  code = inl (e, refl, ne);
  key_fits = h;
}
handled-IsOutcome token c type l (false, qr) ne e h = record {
  ended = refl;
  code = inr (refl, refl);
  key_fits = h;
}

-- a word that `command_state` leads to
abbrev IsCommand : ParseState → Type 0
IsCommand ParseState.s_show = ⊥
IsCommand ParseState.s_ready = ⊥
IsCommand ParseState.s_done = ⊥
IsCommand _ = Unit

command_state-IsCommand : (token : List ℕ) → IsCommand (command_state token)
unfolding command_state
command_state-IsCommand token = ground arith

command-IsOutcome :
    (token : List ℕ) (c : Cursor) (s : ParseState) (l : HeadLoop)
    → IsCommand s
    → l.state ≡ s
    → l.retval ≡ RetCode.ret_success
    → KeyFits l.request
    → IsOutcome (head_loop 1 token c (head_round token c s l))
unfolding head_loop head_round parse_get_cmd parse_delete_cmd parse_sync_cmd parse_power_cmd
command-IsOutcome token c ParseState.s_get l i at e h =
    handled-IsOutcome token c CmdType.cmd_get l _ (λ p. cc) e (scanned-KeyFits l.request _ c h)
command-IsOutcome token c ParseState.s_set l i at e h =
    handled-IsOutcome token c CmdType.cmd_set l _ (λ p. cc) e (parse_set_cmd-KeyFits c l.request h)
command-IsOutcome token c ParseState.s_delete l i at e h =
    handled-IsOutcome token c CmdType.cmd_delete l _ (λ p. cc) e (scanned-KeyFits l.request _ c h)
command-IsOutcome token c ParseState.s_sync l i at e h =
    handled-IsOutcome token c CmdType.cmd_sync l _ (λ p. cc) e (scanned-KeyFits l.request _ c h)
command-IsOutcome token c ParseState.s_power l i at e h =
    handled-IsOutcome token c CmdType.cmd_power l _ (λ p. cc) e (scanned-KeyFits l.request _ c h)
command-IsOutcome token c ParseState.s_fatal l i at e h = record {
  ended = refl;
  code = inr (refl, refl);
  key_fits = h;
}
command-IsOutcome token c ParseState.s_ready l i at e h = absurd i
command-IsOutcome token c ParseState.s_show l i at e h = absurd i
command-IsOutcome token c ParseState.s_done l i at e h = absurd i

parse_tokens-IsOutcome :
    (qr : QueryRequest) (r : Option (List ℕ) × Cursor) → KeyFits qr → IsOutcome (parse_tokens qr r)
unfolding head_loop head_round
parse_tokens-IsOutcome qr (none, c) h = record {
  ended = refl;
  code = inr (refl, refl);
  key_fits = h;
}
parse_tokens-IsOutcome qr (some token, c) h =
    command-IsOutcome token c (command_state token)
      (record { state = command_state token; request = qr; retval = RetCode.ret_success })
      (command_state-IsCommand token) refl refl h

-- The parsing of any head ends. It returns RET_SUCCESS with the status ps_succ and a known command, or
-- RET_PARSE_REQ_FAILED with the status ps_failed; and the key, if it did so before, fits its array with a
-- NUL behind it.
pub parse_head_loop-IsOutcome :
    (qr : QueryRequest) → length qr.key < max_key_size → IsOutcome (parse_head_loop qr)
unfolding parse_head_loop
parse_head_loop-IsOutcome qr h = parse_tokens-IsOutcome _ (strtok_r _) h
