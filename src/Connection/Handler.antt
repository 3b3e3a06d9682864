-- ===== src/Connection/Handler.antt =====
-- src/assign_thread.c: `query_io_event_handler`, `dispatch_query_task`, and a connection over its events.
-- The write to a worker's pipe is taken to succeed.
use linglongta.Prelude.{
  ℕ, zero, suc, Bool, true, false, none, List, [], ◌∷◌, leb, if◌then◌else◌, pos,
}
use linglongta.Protocol.Commands.{CmdType, ParseStatus}
use linglongta.Connection.Task.{
  QueryState, QueryTask, Checked, ok, assert_failed, is_zero, change_query_task_state,
}
use linglongta.Connection.Receive.{
  NetRead, go_to, asked, recv_req_head, parse_query_request_head, over, go, recv_data_round,
}

-- The pipe that `dispatch_query_task` writes to; one more is the next `last_fd`.
unfoldable pub worker_of : (worker_thread_cnt last_fd : ℕ) → ℕ
worker_of worker_thread_cnt last_fd = if leb worker_thread_cnt last_fd then 0 else last_fd

-- How a call of the handler ends: it waits for an event, the task goes to a worker, the task is destroyed
-- (after the storage has been synced, or not), the process ends, an assert fails, the reads that are
-- described are used up, or the rounds are.
pub data Handled : Type 0 where
  waits : QueryTask → Handled
  dispatched : (worker : ℕ) → QueryTask → Handled
  destroyed : (synced : Bool) → QueryTask → Handled
  halted crashed starved out_of_rounds : Handled

-- A round of its loop: a function ran, or the call ends.
pub data Round : Type 0 where
  ran : Checked (QueryTask × Bool) → Round
  ends : Handled → Round

module _ (can_alloc : ℕ → Bool) (worker_thread_cnt last_fd : ℕ) where
  -- `recv_req_data`, again and again on EAGAIN and EINTR.
  unfoldable pub recv_data_loop : QueryTask → List NetRead → Round × List NetRead
  recv_data_loop t [] = (ends starved, [])
  recv_data_loop t (r ∷ reads) = elim (recv_data_round (asked t.need_read) r t) [
    | over res ↦ (ran res, reads)
    | go ↦ recv_data_loop t reads
  ]

  unfoldable pub recv_req_data : QueryTask → List NetRead → Round × List NetRead
  recv_req_data t reads =
      if is_zero t.need_read
      then (ran (go_to QueryState.s_dispatch_query_task true t), reads)
      else recv_data_loop t reads

  abbrev pub recv_head_next : QueryTask → List NetRead → Round × List NetRead
  recv_head_next t [] = (ends starved, [])
  recv_head_next t (r ∷ reads) = (ran (recv_req_head r t), reads)

  -- one case of the switch
  unfoldable pub handle_state : QueryState → QueryTask → List NetRead → Round × List NetRead
  handle_state QueryState.s_recv_req_head t reads = recv_head_next t reads
  handle_state QueryState.s_parse_req_head t reads =
      (ran (parse_query_request_head can_alloc t), reads)
  handle_state QueryState.s_recv_req_data t reads = recv_req_data t reads
  handle_state QueryState.s_dispatch_query_task t reads =
      (ends (dispatched (worker_of worker_thread_cnt last_fd) t), reads)
  handle_state QueryState.s_return_failed t reads =
      (ends (dispatched (worker_of worker_thread_cnt last_fd) t), reads)
  handle_state QueryState.s_destroy_recv t reads = (ends (destroyed false t), reads)
  handle_state QueryState.s_do_sync t reads =
      (ends (destroyed true (record t { state = QueryState.s_destroy_recv })), reads)
  handle_state QueryState.s_do_power t reads = (ends halted, reads)

  abbrev pub go_on :
      (QueryTask → List NetRead → Handled × List NetRead)
      → Round × List NetRead
      → Handled × List NetRead
  go_on again (ran (ok (t, true)), reads) = again t reads
  go_on again (ran (ok (t, false)), reads) = (waits t, reads)
  go_on again (ran assert_failed, reads) = (crashed, reads)
  go_on again (ends h, reads) = (h, reads)

  -- do { … } while (need_loop), for so many rounds at most
  unfoldable pub query_io_event_handler :
      (rounds : ℕ) → QueryTask → List NetRead → Handled × List NetRead
  query_io_event_handler zero t reads = (out_of_rounds, reads)
  query_io_event_handler (suc n) t reads =
      go_on (query_io_event_handler n) (handle_state t.state t reads)

  abbrev pub next_event : (QueryTask → List NetRead → Handled) → Handled × List NetRead → Handled
  next_event again (waits t, reads) = again t reads
  next_event again (dispatched w t, reads) = dispatched w t
  next_event again (destroyed s t, reads) = destroyed s t
  next_event again (halted, reads) = halted
  next_event again (crashed, reads) = crashed
  next_event again (starved, reads) = starved
  next_event again (out_of_rounds, reads) = out_of_rounds

  -- The handler at one event after the other, each with enough rounds for the reads that are left.
  unfoldable pub serve : (events : ℕ) → (rounds : ℕ) → QueryTask → List NetRead → Handled
  serve zero rounds t reads = waits t
  serve (suc n) rounds t reads = next_event (serve n rounds) (query_io_event_handler rounds t reads)

-- `do_accept_connection`: all zero but the state and what there is to read.
unfoldable pub do_accept_connection : (zeroes : List ℕ) → Checked QueryTask
do_accept_connection zeroes = change_query_task_state QueryState.s_recv_req_head (record {
  error_log = false;
  state = QueryState.s_recv_req_head;
  have_read = 0;
  need_read = pos 0;
  query_request = record {
    query_head_buf = zeroes;
    query_head_buf_size = 0;
    content = none;
    data_size = 0;
    cmd_type = CmdType.cmd_unknown;
    parse_status = ParseStatus.ps_unknown;
    flag = pos 0;
    exptime = pos 0;
    key = [];
  };
})
