-- ===== src/Connection/Data.antt =====
-- src/assign_thread.c: the data of a set command, as it arrives piece by piece.
use linglongta.Prelude.{
  ℕ, suc, ◌+◌, ◌-◌, ◌<◌, ◌≡◌, refl, ap, ◌∙◌, arith, Bool, true, false, none, some, List, ◌∷◌, ◌++◌,
  length, length-append, if◌then◌else◌, pos,
}
use linglongta.Protocol.Commands.{QueryRequest}
use linglongta.Connection.Buffers.{store_at_end}
use linglongta.Connection.Task.{
  QueryState, QueryTask, ok, on_state, change_query_task_state, is_zero, without_crlf,
}
use linglongta.Connection.Receive.{
  NetRead, got, store_at, go_to, asked, data_bytes, store_data, recv_data_round,
}
use linglongta.Connection.Handler.{
  Handled, dispatched, waits, worker_of, ran, recv_data_loop, recv_req_data, handle_state, go_on,
  query_io_event_handler,
}

-- A task that has this much of its data, and waits for so many bytes more.
pub record Receiving (t : QueryTask) (sofar : List ℕ) (need : ℕ) : Type 0 where
  pub state : t.state ≡ QueryState.s_recv_req_data
  pub no_error : t.error_log ≡ false
  pub need_read : t.need_read ≡ pos need
  pub content : t.query_request.content ≡ some sofar
  pub have_read : t.have_read ≡ t.query_request.query_head_buf_size + length sofar

-- What goes to a worker: the request with its data, and the size without the line end.
pub record Dispatched (worker : ℕ) (r : QueryRequest) (content : List ℕ) (h : Handled)
    : Type 0 where
  pub task : QueryTask
  pub handled : h ≡ dispatched worker task
  pub no_error : task.error_log ≡ false
  pub request : task.query_request ≡ without_crlf (record r { content = some content })

stored :
    (t : QueryTask) (sofar bs : List ℕ) (need : ℕ)
    → Receiving t sofar need
    → (store_data bs t).query_request ≡ record (t.query_request) { content = some (sofar ++ bs) }
stored t sofar bs need h =
    ap
      (λ o. record (t.query_request) {
        content = elim o [
          | none ↦ none
          | some d ↦ some (store_at (t.have_read - t.query_request.query_head_buf_size) bs d)
        ];
      })
      h.content
    ∙ ap (λ n. record (t.query_request) { content = some (store_at n bs sofar) })
        (offset t.have_read t.query_request.query_head_buf_size (length sofar) h.have_read)
    ∙ ap (λ l. record (t.query_request) { content = some l }) (store_at_end sofar bs)
  where
    offset : (a b c : ℕ) → a ≡ b + c → a - b ≡ c
    offset a b c e = omega arith

module _ (can_alloc : ℕ → Bool) (worker_thread_cnt last_fd : ℕ) where
  pub handler_lem :
      (n : ℕ) (t : QueryTask) (s : QueryState) (reads : List NetRead)
      → t.state ≡ s
      → query_io_event_handler can_alloc worker_thread_cnt last_fd (suc n) t reads
        ≡ go_on can_alloc worker_thread_cnt last_fd
            (query_io_event_handler can_alloc worker_thread_cnt last_fd n)
            (handle_state can_alloc worker_thread_cnt last_fd s t reads)
  unfolding query_io_event_handler
  handler_lem n t s reads e =
      ap
        (λ q.
          go_on can_alloc worker_thread_cnt last_fd
            (query_io_event_handler can_alloc worker_thread_cnt last_fd n)
            (handle_state can_alloc worker_thread_cnt last_fd q t reads))
        e

  data_arrives :
      (t : QueryTask) (sofar bs : List ℕ) (m : ℕ) (reads : List NetRead)
      → Receiving t sofar (suc m)
      → handle_state can_alloc worker_thread_cnt last_fd QueryState.s_recv_req_data t
          (got bs ∷ reads)
        ≡ (ran (data_bytes bs (suc m) t), reads)
  unfolding handle_state recv_req_data recv_data_loop recv_data_round
  data_arrives t sofar bs m reads h =
      ap
        (λ z.
          if is_zero z
          then (ran (go_to QueryState.s_dispatch_query_task true t), got bs ∷ reads)
          else (ran (data_bytes bs (asked z) t), reads))
        h.need_read

  part_bytes :
      (t : QueryTask) (sofar bs : List ℕ) (m : ℕ)
      → 0 < length bs
      → length bs < suc m
      → data_bytes bs (suc m) t
        ≡ ok (
          record (store_data bs t) {
            have_read = t.have_read + length bs;
            need_read = pos (suc m - length bs);
          },
          false,
        )
  part_bytes t sofar bs m some_byte less = ground arith

  -- Some of the data: the handler waits for the rest.
  pub part_arrives :
      (n : ℕ) (t : QueryTask) (sofar bs : List ℕ) (m : ℕ) (reads : List NetRead)
      → Receiving t sofar (suc m)
      → 0 < length bs
      → length bs < suc m
      → (t' : QueryTask) × (query_io_event_handler can_alloc worker_thread_cnt last_fd
            (suc n)
            t
            (got bs ∷ reads)
          ≡ (waits t', reads))
        × Receiving t' (sofar ++ bs) (suc m - length bs)
        × (t'.query_request ≡ record (t.query_request) { content = some (sofar ++ bs) })
  part_arrives n t sofar bs m reads h some_byte less = (
    record (store_data bs t) {
      have_read = t.have_read + length bs;
      need_read = pos (suc m - length bs);
    },
    handler_lem n t QueryState.s_recv_req_data (got bs ∷ reads) h.state
        ∙ rw (data_arrives t sofar bs m reads h) (rw (part_bytes t sofar bs m some_byte less) refl),
    record {
      state = h.state;
      no_error = h.no_error;
      need_read = refl;
      content = ap (λ r. r.content) (stored t sofar bs (suc m) h);
      have_read = omega (arith, h.have_read, length-append sofar bs);
    },
    stored t sofar bs (suc m) h,
  )

  pub to_worker :
      (t : QueryTask)
      → t.error_log ≡ false
      → go_to QueryState.s_dispatch_query_task true t
        ≡ ok (
          record t {
            state = QueryState.s_dispatch_query_task;
            query_request = without_crlf t.query_request;
          },
          true,
        )
  unfolding change_query_task_state on_state
  to_worker t e = ground arith

  pub at_worker :
      (n : ℕ) (t : QueryTask) (reads : List NetRead)
      → t.state ≡ QueryState.s_dispatch_query_task
      → query_io_event_handler can_alloc worker_thread_cnt last_fd (suc n) t reads
        ≡ (dispatched (worker_of worker_thread_cnt last_fd) t, reads)
  unfolding handle_state
  at_worker n t reads e = handler_lem n t QueryState.s_dispatch_query_task reads e

  last_bytes :
      (t : QueryTask) (bs : List ℕ) (m : ℕ)
      → length bs ≡ suc m
      → data_bytes bs (suc m) t ≡ go_to QueryState.s_dispatch_query_task true (store_data bs t)
  last_bytes t bs m e = ground arith

  -- The rest of the data: the handler hands the task to a worker.
  pub last_arrives :
      (n : ℕ) (t : QueryTask) (sofar bs : List ℕ) (m : ℕ) (reads : List NetRead)
      → Receiving t sofar (suc m)
      → length bs ≡ suc m
      → (t' : QueryTask) × (query_io_event_handler can_alloc worker_thread_cnt last_fd
            (suc (suc n))
            t
            (got bs ∷ reads)
          ≡ (dispatched (worker_of worker_thread_cnt last_fd) t', reads))
        × (t'.error_log ≡ false)
        × (t'.query_request
            ≡ without_crlf (record (t.query_request) { content = some (sofar ++ bs) }))
  last_arrives n t sofar bs m reads h e = (
    record (store_data bs t) {
      state = QueryState.s_dispatch_query_task;
      query_request = without_crlf (store_data bs t).query_request;
    },
    handler_lem (suc n) t QueryState.s_recv_req_data (got bs ∷ reads) h.state
        ∙ ap
            (go_on can_alloc worker_thread_cnt last_fd
              (query_io_event_handler can_alloc worker_thread_cnt last_fd (suc n)))
            (data_arrives t sofar bs m reads h
              ∙ ap (λ r. (ran r, reads))
                  (last_bytes t bs m e ∙ to_worker (store_data bs t) h.no_error))
        ∙ at_worker n _ reads refl,
    h.no_error,
    ap without_crlf (stored t sofar bs (suc m) h),
  )
