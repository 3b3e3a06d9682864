-- ===== src/Connection/Overrun.antt =====
-- src/assign_thread.c: bytes behind a set command that are more than its data, and a head in two pieces.
use linglongta.Prelude.{
  ℕ, suc, ◌+◌, ◌-◌, ◌^◌, ◌<◌, ◌≤◌, ◌≡◌, refl, ap, ◌∙◌, arith, drop, le→leb, Bool, true, false, none,
  some, List, ◌∷◌, ◌++◌, length, length-append, pos, negsuc,
}
use linglongta.Protocol.Numbers.{numeral_value}
use linglongta.Protocol.Head.{try_parse_memcached_string_head}
use linglongta.Connection.Task.{
  QueryTask, QueryState, ok, ssize_sub, log, on_state, more_head, change_query_task_state,
}
use linglongta.Connection.Receive.{
  NetRead, got, failed, with_crlf, go_to, with_loop, store_at, parse_found,
  parse_query_request_head, recv_req_head,
}
use linglongta.Connection.Handler.{destroyed, go_on, ran, handle_state, query_io_event_handler}
use linglongta.Connection.SetHead.{IsSetCommand, set_text}
use linglongta.Connection.Data.{handler_lem}
use linglongta.Connection.Accept.{accepted, with_head, first_event}
use linglongta.Connection.Sent.{headed, set_event, with_crlf_lem, left_of, after_head_over}

over_by : (a b : ℕ) → a < b → b < 2 ^ 63 → ssize_sub a b ≡ negsuc (b - a - 1)
unfolding ssize_sub
over_by a b lt fits = ground arith

module _ (can_alloc : ℕ → Bool) (worker_thread_cnt last_fd n : ℕ) where
  destroyed_lem :
      (t : QueryTask) (reads : List NetRead)
      → t.state ≡ QueryState.s_destroy_recv
      → query_io_event_handler can_alloc worker_thread_cnt last_fd (suc n) t reads
        ≡ (destroyed false t, reads)
  unfolding handle_state
  destroyed_lem t reads e =
      handler_lem can_alloc worker_thread_cnt last_fd n t QueryState.s_destroy_recv reads e

  -- On a new connection whose first read, of 512 bytes at most, has a set command (its line 511 bytes at
  -- most, with no carriage return in it but the last, and its key and numbers in range) and behind it more
  -- bytes than the data that it announces and the line end: with memory for that data, the handler destroys
  -- the task at once, with no error for the client, and by then all of these bytes have been copied to the
  -- memory for the data, which has room for fewer.
  pub handler-overrun :
      (cmd key flag exptime bytes zeroes extra : List ℕ) (reads : List NetRead)
      → IsSetCommand cmd key flag exptime bytes
      → can_alloc (numeral_value bytes + 2) ≡ true
      → length (set_text cmd key flag exptime bytes ++ extra) ≤ 512
      → numeral_value bytes + 2 < length extra
      → (t : QueryTask) × (query_io_event_handler can_alloc worker_thread_cnt last_fd
            (suc (suc (suc n)))
            (accepted zeroes)
            (got (set_text cmd key flag exptime bytes ++ extra) ∷ reads)
          ≡ (destroyed false t, reads))
        × (t.error_log ≡ false)
        × (t.query_request.content ≡ some extra)
        × (t.query_request.data_size ≡ numeral_value bytes + 2)
        × (t.query_request.data_size < length extra)
  handler-overrun cmd key flag exptime bytes zeroes extra reads h memory room over = (
    record (headed can_alloc worker_thread_cnt last_fd cmd key flag exptime bytes zeroes h extra) {
      state = QueryState.s_destroy_recv;
    },
    set_event can_alloc worker_thread_cnt last_fd cmd key flag exptime bytes zeroes h (suc n) extra
          reads (ap can_alloc size ∙ memory) room
        ∙ ap
            (λ r.
              go_on can_alloc worker_thread_cnt last_fd
                (query_io_event_handler can_alloc worker_thread_cnt last_fd (suc n)) (ran r, reads))
            (after_head_over
              (headed can_alloc worker_thread_cnt last_fd cmd key flag exptime bytes zeroes h extra)
              _
              (ap (λ k. ssize_sub k (length extra)) size
                ∙ over_by (numeral_value bytes + 2) (length extra) over (
                    omega
                      (arith, room, length-append (set_text cmd key flag exptime bytes) extra))))
        ∙ destroyed_lem _ reads refl,
    refl,
    refl,
    size,
    omega (arith, size, over),
  )
    where
      size : with_crlf (numeral_value bytes) ≡ numeral_value bytes + 2
      size = with_crlf_lem (numeral_value bytes) h.bytes_fit

  -- the task that reads on, for the rest of its head
  abbrev reading_on : List ℕ → List ℕ → QueryTask
  reading_on zeroes bs = record (with_head zeroes bs) {
    state = QueryState.s_recv_req_head;
    need_read = pos (suc (512 - length bs - 1));
  }

  reads_on :
      (zeroes bs : List ℕ)
      → length bs < 512
      → go_to QueryState.s_recv_req_head true (with_head zeroes bs)
        ≡ ok (reading_on zeroes bs, true)
  unfolding change_query_task_state on_state more_head ssize_sub
  reads_on zeroes bs more =
      ap
        (λ z. with_loop true (
          more_head
            (record (with_head zeroes bs) { state = QueryState.s_recv_req_head; need_read = z })))
        (left_of 512 (length bs) (omega arith) more)

  -- A head in two pieces, up to the read of the second one.
  reads_again :
      (zeroes bs : List ℕ) (r : NetRead) (reads : List NetRead)
      → 0 < length bs
      → length bs < 512
      → try_parse_memcached_string_head (with_head zeroes bs).query_request ≡ none
      → query_io_event_handler can_alloc worker_thread_cnt last_fd
          (suc (suc (suc n)))
          (accepted zeroes)
          (got bs ∷ r ∷ reads)
        ≡ go_on can_alloc worker_thread_cnt last_fd
            (query_io_event_handler can_alloc worker_thread_cnt last_fd n)
            (ran (recv_req_head r (reading_on zeroes bs)), reads)
  unfolding parse_query_request_head handle_state
  reads_again zeroes bs r reads some_byte more no_end =
      first_event can_alloc worker_thread_cnt last_fd (suc n) zeroes bs (r ∷ reads) some_byte
        (omega arith)
      ∙ ap
          (λ x.
            go_on can_alloc worker_thread_cnt last_fd
              (query_io_event_handler can_alloc worker_thread_cnt last_fd (suc n))
              (ran x, r ∷ reads))
          (ap (parse_found can_alloc (with_head zeroes bs)) no_end ∙ reads_on zeroes bs more)
      ∙ handler_lem can_alloc worker_thread_cnt last_fd n (reading_on zeroes bs)
          QueryState.s_recv_req_head (r ∷ reads) refl

  gives_up :
      (t : QueryTask) (again : Bool)
      → t.error_log ≡ false
      → recv_req_head (failed again) t
        ≡ ok (record t { error_log = true; state = QueryState.s_destroy_recv }, true)
  unfolding recv_req_head log change_query_task_state on_state
  gives_up t again e = ground (arith, e)

  -- the task once the second piece has come
  abbrev pub overwritten : List ℕ → List ℕ → List ℕ → QueryTask
  overwritten zeroes bs cs = record (with_head zeroes bs) {
    have_read = length bs + length cs;
    query_request = record ((with_head zeroes bs).query_request) {
      query_head_buf = cs ++ drop (length cs) (bs ++ drop (length bs) zeroes);
    };
  }

  overwrites :
      (zeroes bs cs : List ℕ)
      → 0 < length cs
      → length bs + length cs ≤ 512
      → length bs < 512
      → recv_req_head (got cs) (reading_on zeroes bs) ≡ ok (overwritten zeroes bs cs, true)
  unfolding recv_req_head change_query_task_state on_state store_at
  overwrites zeroes bs cs some_byte room more =
      ground (arith, le→leb (length cs) (suc (512 - length bs - 1)) (omega arith))

module _ (can_alloc : ℕ → Bool) (worker_thread_cnt last_fd n : ℕ) where
  -- On a new connection whose first read has less than a whole head, the handler reads again at once: if
  -- there is nothing to read yet, or the read fails otherwise, the task is destroyed with an error; and if
  -- more of the head is there, it is stored over the start of the head, where the first read's bytes were,
  -- and parsed.
  pub handler-part_of_head :
      (zeroes bs cs : List ℕ) (again : Bool) (reads : List NetRead)
      → 0 < length bs
      → length bs < 512
      → try_parse_memcached_string_head (with_head zeroes bs).query_request ≡ none
      → 0 < length cs
      → length bs + length cs ≤ 512
      → (query_io_event_handler can_alloc worker_thread_cnt last_fd
            (suc (suc (suc (suc n))))
            (accepted zeroes)
            (got bs ∷ failed again ∷ reads)
          ≡ (
            destroyed false (record (with_head zeroes bs) {
              error_log = true;
              state = QueryState.s_destroy_recv;
              need_read = pos (suc (512 - length bs - 1));
            }),
            reads,
          ))
        × (query_io_event_handler can_alloc worker_thread_cnt last_fd
              (suc (suc (suc (suc n))))
              (accepted zeroes)
              (got bs ∷ got cs ∷ reads)
            ≡ go_on can_alloc worker_thread_cnt last_fd
                (query_io_event_handler can_alloc worker_thread_cnt last_fd n)
                (
                  ran (
                      parse_query_request_head can_alloc
                        (overwritten can_alloc worker_thread_cnt last_fd n zeroes bs cs)),
                  reads,
                ))
  unfolding handle_state
  handler-part_of_head zeroes bs cs again reads some_byte more no_end some_more room = (
    reads_again can_alloc worker_thread_cnt last_fd (suc n) zeroes bs (failed again) reads some_byte
          more no_end
        ∙ ap
            (λ x.
              go_on can_alloc worker_thread_cnt last_fd
                (query_io_event_handler can_alloc worker_thread_cnt last_fd (suc n)) (ran x, reads))
            (gives_up can_alloc worker_thread_cnt last_fd n
              (reading_on can_alloc worker_thread_cnt last_fd n zeroes bs) again refl)
        ∙ destroyed_lem can_alloc worker_thread_cnt last_fd n _ reads refl,
    reads_again can_alloc worker_thread_cnt last_fd (suc n) zeroes bs (got cs) reads some_byte more
          no_end
        ∙ ap
            (λ x.
              go_on can_alloc worker_thread_cnt last_fd
                (query_io_event_handler can_alloc worker_thread_cnt last_fd (suc n)) (ran x, reads))
            (overwrites can_alloc worker_thread_cnt last_fd n zeroes bs cs some_more room more)
        ∙ handler_lem can_alloc worker_thread_cnt last_fd n _ QueryState.s_parse_req_head reads
            refl,
  )
