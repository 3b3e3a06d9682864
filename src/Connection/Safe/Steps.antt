-- ===== src/Connection/Safe/Steps.antt =====
-- src/assign_thread.c: the functions that the handler calls, each from a live task to a live task.
use linglongta.Prelude.{
  ℕ, ◌==◌, ◌+◌, ◌-◌, ◌*◌, ◌≤◌, ◌≡◌, refl, sym, subst, arith, Bool, Bool-cases, inl, inr, true,
  false, some, none, List, length, drop, ℤ, pos, negsuc, leb, ltb, le→leb, Option,
}
use linglongta.Protocol.CString.{c_string}
use linglongta.Protocol.Commands.{CmdType, QueryRequest}
use linglongta.Protocol.Head.{RetCode, find_crlf, try_parse_memcached_string_head}
use linglongta.Connection.Task.{
  QueryState, QueryTask, ssize_sub, log, is_zero, on_state, more_head, change_query_task_state,
}
use linglongta.Connection.Receive.{
  NetRead, got, failed, store_at, go_to, give_up, recv_req_head, set_head, on_command, is_success,
  on_parsed, parse_head_at, parse_found, parse_query_request_head, with_crlf, DataRound, over, go,
  store_data, data_bytes, recv_data_round, asked,
}
use linglongta.Connection.Sent.{by_need}
use linglongta.Connection.Safe.{AllZero, Reading, Live, LiveIn, Leaves}
use linglongta.Connection.Safe.Zeroes.{AllZero-store_at, length-c_string, find_crlf_lt}

module _ (left n : ℕ) (some_left : 1 ≤ left) where
  give_up-Leaves : (t : QueryTask) → t.error_log ≡ false → Leaves left n (give_up t)
  unfolding log change_query_task_state on_state
  give_up-Leaves t e = rw e (tt, some_left)

  -- To a worker, to the data, or to its end.
  need-Leaves : (z : ℤ) (t : QueryTask) → t.error_log ≡ false → Leaves left n (by_need z t)
  unfolding change_query_task_state on_state
  need-Leaves (pos k) t e = elim (Bool-cases (k == 0)) [
    | inl q ↦ rw q (rw e (tt, some_left))
    | inr q ↦ rw q (rw e (refl, refl))
  ]
  need-Leaves (negsuc k) t e = (tt, some_left)

  module _ (can_alloc : ℕ → Bool) (memory : (k : ℕ) → can_alloc k ≡ true) where
    on_command-Leaves :
        (tmp : List ℕ) (type : CmdType) (t : QueryTask)
        → t.error_log ≡ false
        → Leaves left n (on_command can_alloc tmp type t)
    unfolding on_command set_head change_query_task_state on_state
    on_command-Leaves tmp CmdType.cmd_set t e = rw (memory (with_crlf t.query_request.data_size)) (
        need-Leaves (ssize_sub (with_crlf t.query_request.data_size) (length tmp))
          (record t {
            need_read = ssize_sub (with_crlf t.query_request.data_size) (length tmp);
            query_request = record (t.query_request) {
              data_size = with_crlf t.query_request.data_size;
              content = some tmp;
            };
          })
          e)
    on_command-Leaves tmp CmdType.cmd_get t e = rw e (tt, some_left)
    on_command-Leaves tmp CmdType.cmd_delete t e = rw e (tt, some_left)
    on_command-Leaves tmp CmdType.cmd_sync t e = (tt, some_left)
    on_command-Leaves tmp CmdType.cmd_power t e = (tt, some_left)
    on_command-Leaves tmp CmdType.cmd_unknown t e = give_up-Leaves t e

    on_parsed-Leaves :
        (tmp : List ℕ) (ret : RetCode) (r : QueryRequest) (t : QueryTask)
        → t.error_log ≡ false
        → Leaves left n (on_parsed can_alloc tmp (ret, r) t)
    unfolding on_parsed log change_query_task_state on_state
    on_parsed-Leaves tmp ret r t e = elim (Bool-cases (is_success ret r.parse_status)) [
      | inl q ↦ rw q (on_command-Leaves tmp r.cmd_type (record t { query_request = r }) e)
      | inr q ↦ rw q (rw e (tt, some_left))
    ]

    parse_head_at-Leaves :
        (k : ℕ) (t : QueryTask)
        → t.error_log ≡ false
        → k ≤ t.have_read
        → Leaves left n (parse_head_at can_alloc k t)
    unfolding parse_head_at
    parse_head_at-Leaves k t e h = rw (le→leb k t.have_read h) (on_parsed-Leaves _ _ _ t e)

-- A head that is not whole yet, or one that is.
module _ (can_alloc : ℕ → Bool) (memory : (k : ℕ) → can_alloc k ≡ true) (n : ℕ) where
  more-Leaves :
      (t : QueryTask) → Reading t → Leaves (2 * n + 2) n (go_to QueryState.s_recv_req_head true t)
  unfolding change_query_task_state on_state more_head log
  more-Leaves t r = elim (Bool-cases (is_zero (ssize_sub 512 t.have_read))) [
    | inl q ↦ rw q (rw r.no_error (tt, omega arith))
    | inr q ↦ rw q (
      record { no_error = r.no_error; at_start = r.at_start; zeroes_behind = r.zeroes_behind },
      omega arith,
    )
  ]

  parse_found-Leaves :
      (x : Option ℕ) (t : QueryTask)
      → Reading t
      → ((i : ℕ) → x ≡ some i → i + 2 ≤ t.have_read)
      → Leaves (2 * n + 2) n (parse_found can_alloc t x)
  parse_found-Leaves none t r h = more-Leaves t r
  parse_found-Leaves (some i) t r h =
      parse_head_at-Leaves (2 * n + 2) n (omega arith) can_alloc memory (i + 2) t r.no_error
        (h i refl)

  pub parse_query_request_head-Leaves :
      (t : QueryTask) → Reading t → Leaves (2 * n + 2) n (parse_query_request_head can_alloc t)
  unfolding parse_query_request_head try_parse_memcached_string_head
  parse_query_request_head-Leaves t r =
      parse_found-Leaves (find_crlf (c_string t.query_request.query_head_buf)) t r λ i e. omega (
        arith,
        find_crlf_lt (c_string t.query_request.query_head_buf) i e,
        length-c_string t.have_read t.query_request.query_head_buf r.zeroes_behind,
      )

  -- The first bytes, or more of them.
  pub recv_req_head-Leaves :
      (r : NetRead) (t : QueryTask) → Reading t → Leaves (2 * n + 3) n (recv_req_head r t)
  unfolding recv_req_head change_query_task_state on_state
  recv_req_head-Leaves (failed again) t h = give_up-Leaves (2 * n + 3) n (omega arith) t h.no_error
  recv_req_head-Leaves (got bs) t h = elim (Bool-cases (length bs == 0)) [
    | inl q ↦ rw q (elim (Bool-cases (is_zero t.need_read)) [
      | inl z ↦ rw z (give_up-Leaves (2 * n + 3) n (omega arith) t h.no_error)
      | inr z ↦ rw z (tt, h.no_error)
    ])
    | inr q ↦ rw q (elim (Bool-cases (leb (length bs) (asked t.need_read))) [
      | inl z ↦ rw z (
        record {
          no_error = h.no_error;
          at_start = h.at_start;
          zeroes_behind =
              subst
                (λ o.
                  AllZero
                    (drop (t.have_read + length bs) (store_at o bs t.query_request.query_head_buf)))
                (sym h.at_start)
                (AllZero-store_at bs t.query_request.query_head_buf t.have_read h.zeroes_behind);
        },
        omega arith,
      )
      | inr z ↦ rw z (give_up-Leaves (2 * n + 3) n (omega arith) t h.no_error)
    ])
  ]

-- The data, piece by piece.
abbrev pub DataLeaves : (n : ℕ) → DataRound → Type 0
DataLeaves n (over res) = Leaves 1 n res
DataLeaves n go = Unit

in_data-Live : (t : QueryTask) → t.state ≡ QueryState.s_recv_req_data → t.error_log ≡ false → Live t
in_data-Live t s e = subst (λ st. LiveIn st t) (sym s) e

module _ (n : ℕ) where
  data_bytes-Leaves :
      (bs : List ℕ) (need : ℕ) (t : QueryTask)
      → t.state ≡ QueryState.s_recv_req_data
      → t.error_log ≡ false
      → Leaves 1 n (data_bytes bs need t)
  unfolding change_query_task_state on_state
  data_bytes-Leaves bs need t s e = elim (Bool-cases (length bs == 0)) [
    | inl q ↦ rw q (give_up-Leaves 1 n (omega arith) t e)
    | inr q ↦ rw q (elim (Bool-cases (ltb (length bs) need)) [
      | inl z ↦ rw z (
        in_data-Live
            (record (store_data bs t) {
              have_read = t.have_read + length bs;
              need_read = pos (need - length bs);
            })
            s e,
        e,
      )
      | inr z ↦ rw z (elim (Bool-cases (length bs == need)) [
        | inl y ↦ rw y (rw e (tt, omega arith))
        | inr y ↦ rw y (give_up-Leaves 1 n (omega arith) t e)
      ])
    ])
  ]

  pub recv_data_round-Leaves :
      (need : ℕ) (r : NetRead) (t : QueryTask)
      → t.state ≡ QueryState.s_recv_req_data
      → t.error_log ≡ false
      → DataLeaves n (recv_data_round need r t)
  unfolding recv_data_round
  recv_data_round-Leaves need (got bs) t s e = data_bytes-Leaves bs need t s e
  recv_data_round-Leaves need (failed true) t s e = tt
  recv_data_round-Leaves need (failed false) t s e = give_up-Leaves 1 n (omega arith) t e
