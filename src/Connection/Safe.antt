-- ===== src/Connection/Safe.antt =====
-- src/assign_thread.c: that a connection never fails an assert of the assign thread, nor keeps it in a loop.
mod Zeroes
mod Steps
pub mod Calls
use linglongta.Prelude.{ℕ, ◌+◌, ◌*◌, ◌≤◌, ◌≡◌, Bool, true, false, some, List, All, length, drop}
use linglongta.Connection.Task.{QueryState, QueryTask, Checked, ok, assert_failed}
use linglongta.Connection.Receive.{NetRead}
use linglongta.Connection.Handler.{
  Handled, waits, dispatched, destroyed, halted, crashed, starved, out_of_rounds,
}
use linglongta.Connection.Destroy.{TimerEvent, destroy_query_task, query_timer_event_handler}
use linglongta.Worker.Reply.{QueryResponse}

abbrev pub AllZero : List ℕ → Type 0
AllZero = All (λ c. c ≡ 0)

-- A task whose head has not come whole: what stands in its buffer behind the bytes read is zero.
pub record Reading (t : QueryTask) : Type 0 where
  pub no_error : t.error_log ≡ false
  pub at_start : t.query_request.query_head_buf_size ≡ 0
  pub zeroes_behind : AllZero (drop t.have_read t.query_request.query_head_buf)

-- The invariant of a task, by its state.
abbrev pub LiveIn : QueryState → QueryTask → Type 0
LiveIn QueryState.s_recv_req_head t = Reading t
LiveIn QueryState.s_parse_req_head t = Reading t
LiveIn QueryState.s_recv_req_data t = t.error_log ≡ false
LiveIn _ t = Unit

abbrev pub Live : QueryTask → Type 0
Live t = LiveIn t.state t

-- The rounds that the handler takes at most, by the state and the number of reads.
abbrev pub rounds : QueryState → ℕ → ℕ
rounds QueryState.s_recv_req_head n = 2 * n + 2
rounds QueryState.s_parse_req_head n = 2 * n + 3
rounds QueryState.s_recv_req_data n = 2
rounds _ n = 1

-- What a function of the switch leaves, for so many rounds to come.
abbrev pub Leaves : (left reads : ℕ) → Checked (QueryTask × Bool) → Type 0
Leaves left reads (ok (t, true)) = Live t × (rounds t.state reads ≤ left)
Leaves left reads (ok (t, false)) = Live t × (t.error_log ≡ false)
Leaves left reads assert_failed = ⊥

-- A connection after any events: no assert has failed and the handler has come to its end; where it waits,
-- its timer can fire, which destroys the task.
abbrev pub IsSafe : Handled → Type 0
IsSafe (waits t) =
    (r : QueryResponse)
    → query_timer_event_handler TimerEvent.ev_timeout r t
      ≡ ok (some (destroy_query_task true t.query_request r))
IsSafe (dispatched w t) = Unit
IsSafe (destroyed s t) = Unit
IsSafe halted = Unit
IsSafe starved = Unit
IsSafe crashed = ⊥
IsSafe out_of_rounds = ⊥
