-- ===== src/Connection/Sent.antt =====
-- src/assign_thread.c: a set command from the accepted connection to a worker.
use linglongta.Prelude.{
  ℕ, ◌==◌, if◌then◌else◌, suc, ◌+◌, ◌-◌, ◌%◌, ◌^◌, ◌<◌, ◌≤◌, ◌≡◌, refl, sym, ap, ◌∙◌, arith, Bool,
  true, false, some, List, [], ◌∷◌, ◌++◌, append_assoc, length, length-append, drop, ℤ, pos, negsuc,
}
use linglongta.Protocol.CString.{space}
use linglongta.Protocol.SetLine.{set_line}
use linglongta.Protocol.Words.{line_end}
use linglongta.Protocol.Numbers.{numeral_value}
use linglongta.Connection.Task.{
  QueryTask, QueryState, Checked, ok, ssize_sub, without_crlf, on_state, change_query_task_state,
}
use linglongta.Connection.Receive.{NetRead, got, with_crlf, after_set_head, go_to}
use linglongta.Connection.Handler.{Handled, worker_of, ran, go_on, query_io_event_handler}
use linglongta.Connection.SetHead.{IsSetCommand, set_text, with_data, parse-set_head, head_size}
use linglongta.Connection.Data.{Receiving, Dispatched}
use linglongta.Connection.Accept.{IsSent, accepted, with_head, first_event}

pub with_crlf_lem : (n : ℕ) → n + 2 < 2 ^ 63 → with_crlf n ≡ n + 2
unfolding with_crlf
with_crlf_lem n lt = omega arith

back : (n k : ℕ) → n + 2 < 2 ^ 63 → k ≡ n + 2 → (k + 2 ^ 64 - 2) % 2 ^ 64 ≡ n
back n k lt e = omega arith

-- `after_set_head` by what there is to read
abbrev pub by_need : ℤ → QueryTask → Checked (QueryTask × Bool)
by_need z t = elim z [
  | pos n ↦
      if n == 0
      then go_to QueryState.s_dispatch_query_task true t
      else go_to QueryState.s_recv_req_data false t
  | negsuc n ↦ go_to QueryState.s_destroy_recv true t
]

pub after_head_more :
    (t : QueryTask) (m : ℕ)
    → t.need_read ≡ pos (suc m)
    → t.error_log ≡ false
    → after_set_head t ≡ ok (record t { state = QueryState.s_recv_req_data }, false)
unfolding change_query_task_state on_state
after_head_more t m e no_error = ap (λ z. by_need z t) e ∙ ground (arith, no_error)

pub after_head_all :
    (t : QueryTask)
    → t.need_read ≡ pos 0
    → after_set_head t ≡ go_to QueryState.s_dispatch_query_task true t
after_head_all t e = ap (λ z. by_need z t) e

pub after_head_over :
    (t : QueryTask) (k : ℕ)
    → t.need_read ≡ negsuc k
    → after_set_head t ≡ ok (record t { state = QueryState.s_destroy_recv }, true)
unfolding change_query_task_state on_state
after_head_over t k e = ap (λ z. by_need z t) e

pub left_of : (a b : ℕ) → a < 2 ^ 63 → b < a → ssize_sub a b ≡ pos (suc (a - b - 1))
unfolding ssize_sub
left_of a b fits lt = ground arith

pub nothing_left : (a : ℕ) → a < 2 ^ 63 → ssize_sub a a ≡ pos 0
unfolding ssize_sub
nothing_left a fits = ground arith

module _ (can_alloc : ℕ → Bool) (worker_thread_cnt last_fd : ℕ)
    (cmd key flag exptime bytes zeroes : List ℕ) (h : IsSetCommand cmd key flag exptime bytes) where
  -- the task behind the head, for the data that comes with it
  abbrev pub headed : List ℕ → QueryTask
  headed extra =
      with_data cmd key flag exptime bytes h
        (with_head zeroes (set_text cmd key flag exptime bytes ++ extra)) extra
        (drop (length (set_text cmd key flag exptime bytes ++ extra)) zeroes)

  -- The first event, up to what follows the head.
  pub set_event :
      (n : ℕ) (extra : List ℕ) (reads : List NetRead)
      → can_alloc (with_crlf (numeral_value bytes)) ≡ true
      → length (set_text cmd key flag exptime bytes ++ extra) ≤ 512
      → query_io_event_handler can_alloc worker_thread_cnt last_fd
          (suc (suc n))
          (accepted zeroes)
          (got (set_text cmd key flag exptime bytes ++ extra) ∷ reads)
        ≡ go_on can_alloc worker_thread_cnt last_fd
            (query_io_event_handler can_alloc worker_thread_cnt last_fd n)
            (ran (after_set_head (headed extra)), reads)
  set_event n extra reads memory room =
      first_event can_alloc worker_thread_cnt last_fd n zeroes
        (set_text cmd key flag exptime bytes ++ extra) reads some_byte room
      ∙ ap
          (λ r.
            go_on can_alloc worker_thread_cnt last_fd
              (query_io_event_handler can_alloc worker_thread_cnt last_fd n) (ran r, reads))
          (parse-set_head cmd key flag exptime bytes h can_alloc
            (with_head zeroes (set_text cmd key flag exptime bytes ++ extra)) extra
            (drop (length (set_text cmd key flag exptime bytes ++ extra)) zeroes) memory
            (append_assoc (set_text cmd key flag exptime bytes) extra _)
            (length-append (set_text cmd key flag exptime bytes) extra))
    where
      some_byte : 0 < length (set_text cmd key flag exptime bytes ++ extra)
      some_byte = omega (
        arith,
        length-append (set_text cmd key flag exptime bytes) extra,
        length-append cmd (space ∷ (set_line key flag exptime bytes ++ line_end)),
      )

  pub headed-Receiving :
      (extra : List ℕ) (m : ℕ)
      → (headed extra).need_read ≡ pos (suc m)
      → Receiving (record (headed extra) { state = QueryState.s_recv_req_data }) extra (suc m)
  headed-Receiving extra m e = record {
    state = refl;
    no_error = refl;
    need_read = e;
    content = refl;
    have_read =
        length-append (set_text cmd key flag exptime bytes) extra
        ∙ ap (λ k. k + length extra)
            (head_size cmd key flag exptime bytes h
              (with_head zeroes (set_text cmd key flag exptime bytes ++ extra)).query_request []);
  }

  pub as-IsSent :
      (extra rest content : List ℕ) (handled : Handled)
      → extra ++ rest ≡ content ++ line_end
      → length content ≡ numeral_value bytes
      → Dispatched
          (worker_of worker_thread_cnt last_fd)
          (headed extra).query_request
          (extra ++ rest)
          handled
      → IsSent
          (worker_of worker_thread_cnt last_fd)
          key
          content
          (numeral_value flag)
          (numeral_value exptime)
          handled
  unfolding without_crlf
  as-IsSent extra rest content handled e size d = record {
    task = d.task;
    handled = d.handled;
    no_error = d.no_error;
    cmd_type = ap (λ r. r.cmd_type) d.request;
    parse_status = ap (λ r. r.parse_status) d.request;
    same_key = ap (λ r. r.key) d.request;
    same_flag = ap (λ r. r.flag) d.request;
    same_exptime = ap (λ r. r.exptime) d.request;
    data_size =
        ap (λ r. r.data_size) d.request
        ∙ back (numeral_value bytes) _ h.bytes_fit (with_crlf_lem _ h.bytes_fit)
        ∙ sym size;
    same_content = ap (λ r. r.content) d.request ∙ ap some e;
  }
