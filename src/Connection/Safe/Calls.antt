-- ===== src/Connection/Safe/Calls.antt =====
-- src/assign_thread.c: the handler over its rounds, and a connection over its events.
use linglongta.Prelude.{
  ℕ, zero, suc, ◌+◌, ◌*◌, ◌≤◌, ◌≡◌, refl, sym, ap, subst, arith, Bool, Bool-cases, inl, inr, true,
  false, List, [], ◌∷◌, length,
}
use linglongta.Connection.Task.{
  QueryState, QueryTask, Checked, ok, assert_failed, log, ◌>>=◌, is_zero, on_state,
  change_query_task_state,
}
use linglongta.Connection.Receive.{NetRead, asked, DataRound, over, go, recv_data_round}
use linglongta.Connection.Handler.{
  Handled, waits, dispatched, destroyed, halted, crashed, starved, out_of_rounds, Round, ran, ends,
  recv_data_loop, recv_req_data, handle_state, go_on, query_io_event_handler, next_event, serve,
  do_accept_connection,
}
use linglongta.Connection.Destroy.{query_timer_event_handler}
use linglongta.Connection.Data.{handler_lem}
use linglongta.Connection.Accept.{accepted, do_accept_connection_lem}
use linglongta.Connection.Safe.{AllZero, Live, LiveIn, rounds, Leaves, IsSafe}
use linglongta.Connection.Safe.Steps.{
  DataLeaves, recv_req_head-Leaves, recv_data_round-Leaves, parse_query_request_head-Leaves,
}

-- The calls that do not go on.
abbrev IsEnd : Handled → Type 0
IsEnd (waits t) = ⊥
IsEnd (dispatched w t) = Unit
IsEnd (destroyed s t) = Unit
IsEnd halted = Unit
IsEnd starved = Unit
IsEnd crashed = ⊥
IsEnd out_of_rounds = ⊥

-- A round, with so many rounds left and so many reads before it.
abbrev RoundLeaves : (left reads : ℕ) → Round × List NetRead → Type 0
RoundLeaves left n (ran res, reads) = (length reads ≤ n) × Leaves left (length reads) res
RoundLeaves left n (ends h, reads) = IsEnd h

-- A call of the handler.
abbrev CallLeaves : (reads : ℕ) → Handled × List NetRead → Type 0
CallLeaves n (waits t, reads) = (length reads ≤ n) × (Live t × (t.error_log ≡ false))
CallLeaves n (h, reads) = IsEnd h

some_round : (s : QueryState) (n : ℕ) → ¬ (rounds s n ≤ 0)
some_round QueryState.s_recv_req_head n h = omega arith
some_round QueryState.s_parse_req_head n h = omega arith
some_round QueryState.s_recv_req_data n h = omega arith
some_round QueryState.s_dispatch_query_task n h = omega arith
some_round QueryState.s_return_failed n h = omega arith
some_round QueryState.s_destroy_recv n h = omega arith
some_round QueryState.s_do_sync n h = omega arith
some_round QueryState.s_do_power n h = omega arith

most_rounds : (s : QueryState) (n : ℕ) → rounds s n ≤ 2 * n + 3
most_rounds QueryState.s_recv_req_head n = omega arith
most_rounds QueryState.s_parse_req_head n = omega arith
most_rounds QueryState.s_recv_req_data n = omega arith
most_rounds QueryState.s_dispatch_query_task n = omega arith
most_rounds QueryState.s_return_failed n = omega arith
most_rounds QueryState.s_destroy_recv n = omega arith
most_rounds QueryState.s_do_sync n = omega arith
most_rounds QueryState.s_do_power n = omega arith

-- More rounds left are as good.
weaker : (a b n : ℕ) (res : Checked (QueryTask × Bool)) → a ≤ b → Leaves a n res → Leaves b n res
weaker a b n (ok (t, true)) h (live, fits) = (live, omega arith)
weaker a b n (ok (t, false)) h l = l
weaker a b n assert_failed h l = l

weaker_round :
    (a b n : ℕ) (r : Round × List NetRead) → a ≤ b → RoundLeaves a n r → RoundLeaves b n r
weaker_round a b n (ran res, reads) h (fewer, l) = (fewer, weaker a b (length reads) res h l)
weaker_round a b n (ends e, reads) h l = l

module _ (can_alloc : ℕ → Bool) (memory : (k : ℕ) → can_alloc k ≡ true)
    (worker_thread_cnt last_fd : ℕ) where
  by_round :
      (d : DataRound) (reads : List NetRead) (n : ℕ) (again : Round × List NetRead)
      → length reads ≤ n
      → DataLeaves (length reads) d
      → RoundLeaves 1 n again
      → RoundLeaves 1 n (elim d [ over res ↦ (ran res, reads) | go ↦ again ])
  by_round (over res) reads n again h l rest = (h, l)
  by_round go reads n again h l rest = rest

  recv_data_loop-Leaves :
      (t : QueryTask) (reads : List NetRead) (n : ℕ)
      → t.state ≡ QueryState.s_recv_req_data
      → t.error_log ≡ false
      → length reads ≤ n
      → RoundLeaves 1 n (recv_data_loop can_alloc worker_thread_cnt last_fd t reads)
  unfolding recv_data_loop
  recv_data_loop-Leaves t [] n s e h = tt
  recv_data_loop-Leaves t (r ∷ reads) n s e h =
      by_round (recv_data_round (asked t.need_read) r t) reads n
        (recv_data_loop can_alloc worker_thread_cnt last_fd t reads) (omega arith)
        (recv_data_round-Leaves (length reads) (asked t.need_read) r t s e)
        (recv_data_loop-Leaves t reads n s e (omega arith))

  recv_req_data-Leaves :
      (t : QueryTask) (reads : List NetRead)
      → t.state ≡ QueryState.s_recv_req_data
      → t.error_log ≡ false
      → RoundLeaves 1 (length reads) (recv_req_data can_alloc worker_thread_cnt last_fd t reads)
  unfolding recv_req_data change_query_task_state on_state
  recv_req_data-Leaves t reads s e = elim (Bool-cases (is_zero t.need_read)) [
    | inl z ↦ rw z (rw e (omega arith, (tt, omega arith)))
    | inr z ↦ rw z (recv_data_loop-Leaves t reads (length reads) s e (omega arith))
  ]

  handle_state-Leaves :
      (left : ℕ) (s : QueryState) (t : QueryTask) (reads : List NetRead)
      → t.state ≡ s
      → LiveIn s t
      → rounds s (length reads) ≤ suc left
      → RoundLeaves left (length reads) (handle_state can_alloc worker_thread_cnt last_fd s t reads)
  unfolding handle_state
  handle_state-Leaves left QueryState.s_recv_req_head t [] s live h = tt
  handle_state-Leaves left QueryState.s_recv_req_head t (r ∷ reads) s live h = (
    omega arith,
    weaker _ _ _ _ (omega arith) (recv_req_head-Leaves can_alloc memory (length reads) r t live),
  )
  handle_state-Leaves left QueryState.s_parse_req_head t reads s live h = (
    omega arith,
    weaker _ _ _ _ (omega arith)
        (parse_query_request_head-Leaves can_alloc memory (length reads) t live),
  )
  handle_state-Leaves left QueryState.s_recv_req_data t reads s live h =
      weaker_round _ _ _ _ (omega arith) (recv_req_data-Leaves t reads s live)
  handle_state-Leaves left QueryState.s_dispatch_query_task t reads s live h = tt
  handle_state-Leaves left QueryState.s_return_failed t reads s live h = tt
  handle_state-Leaves left QueryState.s_destroy_recv t reads s live h = tt
  handle_state-Leaves left QueryState.s_do_sync t reads s live h = tt
  handle_state-Leaves left QueryState.s_do_power t reads s live h = tt

  weaker_call : (a b : ℕ) (c : Handled × List NetRead) → a ≤ b → CallLeaves a c → CallLeaves b c
  weaker_call a b (waits t, reads) h (fewer, l) = (omega arith, l)
  weaker_call a b (dispatched w t, reads) h l = l
  weaker_call a b (destroyed s t, reads) h l = l
  weaker_call a b (halted, reads) h l = l
  weaker_call a b (starved, reads) h l = l
  weaker_call a b (crashed, reads) h l = l
  weaker_call a b (out_of_rounds, reads) h l = l

  ended-Leaves : (n : ℕ) (h : Handled) (reads : List NetRead) → IsEnd h → CallLeaves n (h, reads)
  ended-Leaves n (waits t) reads l = absurd l
  ended-Leaves n (dispatched w t) reads l = l
  ended-Leaves n (destroyed s t) reads l = l
  ended-Leaves n halted reads l = l
  ended-Leaves n starved reads l = l
  ended-Leaves n crashed reads l = l
  ended-Leaves n out_of_rounds reads l = l

  go_on-Leaves :
      (left n : ℕ) (again : QueryTask → List NetRead → Handled × List NetRead)
      (r : Round × List NetRead)
      → RoundLeaves left n r
      → ((t : QueryTask) (reads : List NetRead)
          → Live t
          → rounds t.state (length reads) ≤ left
          → CallLeaves (length reads) (again t reads))
      → CallLeaves n (go_on can_alloc worker_thread_cnt last_fd again r)
  go_on-Leaves left n again (ran (ok (t, true)), reads) (fewer, (live, fits)) follows =
      weaker_call (length reads) n (again t reads) fewer (follows t reads live fits)
  go_on-Leaves left n again (ran (ok (t, false)), reads) (fewer, l) follows = (fewer, l)
  go_on-Leaves left n again (ran assert_failed, reads) (fewer, l) follows = l
  go_on-Leaves left n again (ends h, reads) l follows = ended-Leaves n h reads l

  handler-Leaves :
      (m : ℕ) (t : QueryTask) (reads : List NetRead)
      → Live t
      → rounds t.state (length reads) ≤ m
      → CallLeaves
          (length reads)
          (query_io_event_handler can_alloc worker_thread_cnt last_fd m t reads)
  handler-Leaves zero t reads live h = absurd (some_round t.state (length reads) h)
  handler-Leaves (suc m) t reads live h =
      subst (CallLeaves (length reads))
        (sym (handler_lem can_alloc worker_thread_cnt last_fd m t t.state reads refl))
        (go_on-Leaves m (length reads)
          (query_io_event_handler can_alloc worker_thread_cnt last_fd m)
          (handle_state can_alloc worker_thread_cnt last_fd t.state t reads)
          (handle_state-Leaves m t.state t reads refl live h) (handler-Leaves m))

  next_event-IsSafe :
      (n : ℕ) (again : QueryTask → List NetRead → Handled) (c : Handled × List NetRead)
      → CallLeaves n c
      → ((t : QueryTask) (reads : List NetRead)
          → length reads ≤ n
          → Live t
          → t.error_log ≡ false
          → IsSafe (again t reads))
      → IsSafe (next_event can_alloc worker_thread_cnt last_fd again c)
  next_event-IsSafe n again (waits t, reads) (fewer, (live, e)) follows =
      follows t reads fewer live e
  next_event-IsSafe n again (dispatched w t, reads) l follows = tt
  next_event-IsSafe n again (destroyed s t, reads) l follows = tt
  next_event-IsSafe n again (halted, reads) l follows = tt
  next_event-IsSafe n again (starved, reads) l follows = tt
  next_event-IsSafe n again (crashed, reads) l follows = l
  next_event-IsSafe n again (out_of_rounds, reads) l follows = l

  serve-Live :
      (events m : ℕ) (t : QueryTask) (reads : List NetRead)
      → 2 * length reads + 3 ≤ m
      → Live t
      → t.error_log ≡ false
      → IsSafe (serve can_alloc worker_thread_cnt last_fd events m t reads)
  unfolding serve query_timer_event_handler log
  serve-Live zero m t reads h live e = λ r. rw e refl
  serve-Live (suc events) m t reads h live e =
      next_event-IsSafe (length reads) (serve can_alloc worker_thread_cnt last_fd events m)
        (query_io_event_handler can_alloc worker_thread_cnt last_fd m t reads)
        (handler-Leaves m t reads live (omega (arith, most_rounds t.state (length reads))))
        (λ t' reads' fewer live' e'. serve-Live events m t' reads' (omega arith) live' e')

  -- Whatever bytes come on a new connection, in whatever pieces, and whatever reads fail, over any number
  -- of events, where the allocator has any memory that is asked for, and bytes that a set command copies
  -- behind its memory do no harm there: no assert of the assign thread fails, and the handler needs no more
  -- rounds than twice the number of reads and three. At the end the task is at a worker or destroyed, or
  -- the process is told to stop, or the handler is at a read for which no answer is given, or the task
  -- waits for an event; where it waits, the timeout handler fails no assert and destroys it.
  pub serve-IsSafe :
      (zeroes : List ℕ) (events m : ℕ) (reads : List NetRead)
      → AllZero zeroes
      → 2 * length reads + 3 ≤ m
      → (h : Handled) × ((do_accept_connection zeroes >>= λ t.
            ok (serve can_alloc worker_thread_cnt last_fd events m t reads))
          ≡ ok h)
        × IsSafe h
  serve-IsSafe zeroes events m reads z enough = (
    serve can_alloc worker_thread_cnt last_fd events m (accepted zeroes) reads,
    ap (λ t. t >>= λ t'. ok (serve can_alloc worker_thread_cnt last_fd events m t' reads))
        (do_accept_connection_lem zeroes),
    serve-Live events m (accepted zeroes) reads enough
        (record { no_error = refl; at_start = refl; zeroes_behind = z }) refl,
  )
