-- ===== src/Connection/Accept.antt =====
-- src/assign_thread.c: a set command on a connection that has just been accepted.
use linglongta.Prelude.{
  ℕ, suc, ◌<◌, ◌≤◌, ◌≡◌, refl, ap, ◌∙◌, arith, Bool, true, false, some, none, List, [], ◌∷◌, ◌++◌,
  length, drop, pos, le→leb,
}
use linglongta.Protocol.Commands.{CmdType, ParseStatus}
use linglongta.Protocol.Words.{line_end}
use linglongta.Connection.Task.{
  QueryTask, QueryState, ok, ssize_sub, on_state, more_head, change_query_task_state,
}
use linglongta.Connection.Receive.{NetRead, got, store_at, recv_req_head, parse_query_request_head}
use linglongta.Connection.Handler.{
  Handled, dispatched, ran, go_on, handle_state, query_io_event_handler, do_accept_connection,
}
use linglongta.Connection.Data.{handler_lem}

-- A request as a worker gets it for a set command.
pub record IsSent (worker : ℕ) (key content : List ℕ) (flag exptime : ℕ) (h : Handled)
    : Type 0 where
  pub task : QueryTask
  pub handled : h ≡ dispatched worker task
  pub no_error : task.error_log ≡ false
  pub cmd_type : task.query_request.cmd_type ≡ CmdType.cmd_set
  pub parse_status : task.query_request.parse_status ≡ ParseStatus.ps_succ
  pub same_key : task.query_request.key ≡ key
  pub same_flag : task.query_request.flag ≡ pos flag
  pub same_exptime : task.query_request.exptime ≡ pos exptime
  pub data_size : task.query_request.data_size ≡ length content
  pub same_content : task.query_request.content ≡ some (content ++ line_end)

-- the task of a connection that has been accepted
abbrev pub accepted : List ℕ → QueryTask
accepted zeroes = record {
  error_log = false;
  state = QueryState.s_recv_req_head;
  have_read = 0;
  need_read = pos 512;
  query_request = record {
    query_head_buf = zeroes;
    query_head_buf_size = 0;
    content = none;
    data_size = 0;
    cmd_type = CmdType.cmd_unknown;
    parse_status = ParseStatus.ps_unknown;
    flag = pos 0;
    exptime = pos 0;
    key = [];
  };
}

pub do_accept_connection_lem :
    (zeroes : List ℕ) → do_accept_connection zeroes ≡ ok (accepted zeroes)
unfolding do_accept_connection change_query_task_state on_state more_head ssize_sub
do_accept_connection_lem zeroes = refl

-- the task once its first bytes have come
abbrev pub with_head : List ℕ → List ℕ → QueryTask
with_head zeroes bs = record (accepted zeroes) {
  state = QueryState.s_parse_req_head;
  have_read = length bs;
  need_read = pos 0;
  query_request = record ((accepted zeroes).query_request) {
    query_head_buf = bs ++ drop (length bs) zeroes;
  };
}

pub recv_req_head-got :
    (zeroes bs : List ℕ)
    → 0 < length bs
    → length bs ≤ 512
    → recv_req_head (got bs) (accepted zeroes) ≡ ok (with_head zeroes bs, true)
unfolding recv_req_head change_query_task_state on_state store_at
recv_req_head-got zeroes bs some_byte room = ground (arith, le→leb (length bs) 512 room)

module _ (can_alloc : ℕ → Bool) (worker_thread_cnt last_fd n : ℕ) where
  -- The first event, up to where the head is parsed.
  pub first_event :
      (zeroes bs : List ℕ) (reads : List NetRead)
      → 0 < length bs
      → length bs ≤ 512
      → query_io_event_handler can_alloc worker_thread_cnt last_fd
          (suc (suc n))
          (accepted zeroes)
          (got bs ∷ reads)
        ≡ go_on can_alloc worker_thread_cnt last_fd
            (query_io_event_handler can_alloc worker_thread_cnt last_fd n)
            (ran (parse_query_request_head can_alloc (with_head zeroes bs)), reads)
  unfolding handle_state
  first_event zeroes bs reads some_byte room =
      handler_lem can_alloc worker_thread_cnt last_fd (suc n) (accepted zeroes)
        QueryState.s_recv_req_head (got bs ∷ reads) refl
      ∙ ap
          (λ r.
            go_on can_alloc worker_thread_cnt last_fd
              (query_io_event_handler can_alloc worker_thread_cnt last_fd (suc n)) (ran r, reads))
          (recv_req_head-got zeroes bs some_byte room)
      ∙ handler_lem can_alloc worker_thread_cnt last_fd n (with_head zeroes bs)
          QueryState.s_parse_req_head reads refl
