-- ===== src/Worker/Reply.antt =====
-- src/query_thread.c: `handle_request`, `build_response` and `send_response`. An `assert` that fails ends
-- in `aborted`.
use Prim.Native.Char.{code}
use Prim.Native.String.{String}
use linglongta.Prelude.{
  ℕ, ◌+◌, Bool, true, false, Option, none, some, List, [], ◌∷◌, ◌++◌, take, ◌==◌, if◌then◌else◌, ℤ,
}
use linglongta.Protocol.CString.{space}
use linglongta.Protocol.Commands.{CmdType, ParseStatus, QueryRequest}
use linglongta.Protocol.Head.{RetCode}
use linglongta.Protocol.Words.{line_end}
use linglongta.Storage.Types.{BdbOps, Storage, Env, Run, done, aborted, blocked, undefined}
use linglongta.Storage.Blocks.{is_zero}
use linglongta.Storage.Ops.{Found, update_block, find_block, delete_block}
use linglongta.Worker.Decimal.{decimal}

-- enum query_state_e, from where a worker has the task
pub data ReplyState : Type 0 where
  s_dispatched s_set_success s_get_success s_delete_success : ReplyState
  s_set_failed s_get_failed s_delete_failed s_return_failed : ReplyState

-- struct query_response_s, and whether the task has an error log
pub record QueryResponse : Type 0 where
  pub error_log : Bool
  pub resp_head_buf : List ℕ
  pub resp_data_buf : Option (List ℕ)
  pub resp_data_size : ℕ
  pub resp_tailor_buf : Option (List ℕ)

abbrev codes : String → List ℕ
codes String.[] = []
codes (String.◌∷◌ c s) = code c ∷ codes s

abbrev pub mc_set_done : List ℕ
mc_set_done = codes "STORED" ++ line_end

abbrev pub mc_get_done : List ℕ
mc_get_done = codes "END" ++ line_end

abbrev pub mc_del_done : List ℕ
mc_del_done = codes "DELETED" ++ line_end

abbrev pub mc_err : List ℕ
mc_err = codes "ERROR" ++ line_end

-- MC_GET_HEADER_PATTERN, in a buffer of 512 bytes, for a number of flags that is a digit
unfoldable pub get_header : (key : List ℕ) (flag size : ℕ) → List ℕ
get_header key flag size =
    take 511 (
      codes "VALUE"
      ++ space ∷ (key ++ space ∷ ((b'0' + flag) ∷ space ∷ (decimal size ++ line_end))))

abbrev pub no_data : QueryResponse → Bool
no_data r = elim r.resp_data_buf [ none ↦ r.resp_data_size == 0 | some d ↦ false ]

-- A head without data.
unfoldable pub only_head : List ℕ → QueryResponse → Run QueryResponse
only_head head r = if no_data r then done (record r { resp_head_buf = head }) else aborted

-- Log, and such a head.
unfoldable pub log_and_head : List ℕ → QueryResponse → Run QueryResponse
log_and_head head r =
    if r.error_log then aborted else only_head head (record r { error_log = true })

unfoldable pub build_response : ReplyState → QueryRequest → QueryResponse → Run QueryResponse
build_response ReplyState.s_set_success q r = only_head mc_set_done r
build_response ReplyState.s_set_failed q r = log_and_head mc_err r
build_response ReplyState.s_get_success q r = done (record r {
  resp_head_buf = get_header q.key 0 r.resp_data_size;
  resp_tailor_buf = some line_end;
})
build_response ReplyState.s_get_failed q r = log_and_head mc_get_done r
build_response ReplyState.s_delete_success q r = only_head mc_del_done r
build_response ReplyState.s_delete_failed q r = log_and_head mc_err r
build_response ReplyState.s_return_failed q r = only_head mc_err r
build_response ReplyState.s_dispatched q r = done r

-- What a worker leaves of a task: the code of `handle_request`, the state, the response and the store.
pub record Answered (Db : Type 0) : Type 0 where
  pub retval : RetCode
  pub state : ReplyState
  pub response : QueryResponse
  pub storage : Storage Db

module _ {Db : Type 0} (bdb : BdbOps Db) (crc32_calc : List ℕ → ℕ) (env : Env) where
  -- the task once its state is set, with the response built
  abbrev pub answer :
      RetCode → ReplyState → QueryRequest → Storage Db → Run QueryResponse → Run (Answered Db)
  answer ret st q s (done r) = done (record { retval = ret; state = st; response = r; storage = s })
  answer ret st q s aborted = aborted
  answer ret st q s blocked = blocked
  answer ret st q s undefined = undefined

  abbrev pub as_state : (good bad : ReplyState) → ℤ → ReplyState
  as_state good bad ret = if is_zero ret then good else bad

  abbrev pub as_ret : ℤ → RetCode
  as_ret ret = if is_zero ret then RetCode.ret_success else RetCode.ret_failed

  -- The answer to a set or a delete, by the code of the store's call.
  abbrev pub by_code :
      (good bad : ReplyState)
      → QueryRequest
      → QueryResponse
      → Run (ℤ × Storage Db)
      → Run (Answered Db)
  by_code good bad q r (done (ret, s)) =
      answer (as_ret ret) (as_state good bad ret) q s (build_response (as_state good bad ret) q r)
  by_code good bad q r aborted = aborted
  by_code good bad q r blocked = blocked
  by_code good bad q r undefined = undefined

  -- The answer to a get: the store's call hands out the buffer and its size.
  abbrev pub by_found : QueryRequest → QueryResponse → Run (Found × Storage Db) → Run (Answered Db)
  by_found q r (done (found, s)) =
      by_code ReplyState.s_get_success ReplyState.s_get_failed q
        (record r { resp_data_buf = found.value; resp_data_size = found.value_len })
        (done (found.ret, s))
  by_found q r aborted = aborted
  by_found q r blocked = blocked
  by_found q r undefined = undefined

  -- The data of the request are the first `data_size` bytes at `data`.
  unfoldable pub store_request : QueryRequest → QueryResponse → Storage Db → Run (Answered Db)
  store_request q r s = elim q.content [
    | none ↦ aborted
    | some d ↦
        by_code ReplyState.s_set_success ReplyState.s_set_failed q r
          (update_block bdb crc32_calc env q.key (take q.data_size d) s)
  ]

  unfoldable pub get_request : QueryRequest → QueryResponse → Storage Db → Run (Answered Db)
  get_request q r s = elim r.resp_data_buf [
    | none ↦ by_found q r (find_block bdb crc32_calc env q.key s)
    | some d ↦ aborted
  ]

  -- An unknown command gets no response.
  unfoldable pub no_request : ReplyState → QueryResponse → Storage Db → Run (Answered Db)
  no_request st r s =
      done (record { retval = RetCode.ret_failed; state = st; response = r; storage = s })

  unfoldable pub on_request :
      CmdType → QueryRequest → QueryResponse → Storage Db → Run (Answered Db)
  on_request CmdType.cmd_set q r s = store_request q r s
  on_request CmdType.cmd_get q r s = get_request q r s
  on_request CmdType.cmd_delete q r s =
      by_code ReplyState.s_delete_success ReplyState.s_delete_failed q r
        (delete_block bdb crc32_calc env q.key s)
  on_request CmdType.cmd_unknown q r s = no_request ReplyState.s_dispatched r s
  on_request CmdType.cmd_sync q r s = no_request ReplyState.s_dispatched r s
  on_request CmdType.cmd_power q r s = no_request ReplyState.s_dispatched r s

  -- The tasks whose head was refused come in `s_return_failed`, the others in `s_dispatch_query_task`.
  unfoldable pub handle_parsed :
      ParseStatus → ReplyState → QueryRequest → QueryResponse → Storage Db → Run (Answered Db)
  handle_parsed ParseStatus.ps_succ st q r s = on_request q.cmd_type q r s
  handle_parsed ParseStatus.ps_unknown ReplyState.s_return_failed q r s =
      answer RetCode.ret_success ReplyState.s_return_failed q s
        (build_response ReplyState.s_return_failed q r)
  handle_parsed ParseStatus.ps_failed ReplyState.s_return_failed q r s =
      answer RetCode.ret_success ReplyState.s_return_failed q s
        (build_response ReplyState.s_return_failed q r)
  handle_parsed _ _ q r s = aborted

  unfoldable pub handle_request :
      ReplyState → QueryRequest → QueryResponse → Storage Db → Run (Answered Db)
  handle_request st q r s = handle_parsed q.parse_status st q r s

-- What `send_response` puts on the socket where `net_write` and `net_writev` take all bytes.
unfoldable pub sent_bytes : QueryResponse → List ℕ
sent_bytes r = r.resp_head_buf ++ elim r.resp_data_buf [
  | none ↦ []
  | some d ↦ take r.resp_data_size d ++ elim r.resp_tailor_buf [ none ↦ [] | some l ↦ l ]
]
