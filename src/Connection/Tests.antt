-- ===== src/Connection/Tests.antt =====
-- Connections at concrete bytes, and the theorems on them there.
use Prim.Native.Char.{code}
use Prim.Native.String.{String}
use linglongta.Connection.Safe.{AllZero, IsSafe}
use linglongta.Connection.Turns.{
  dispatch_query_task, last_fd_after, dispatch_query_task-last_fd_after,
}
use linglongta.Connection.Safe.Calls.{serve-IsSafe}
use linglongta.Prelude.{
  ℕ, zero, suc, ◌+◌, ◌<◌, ◌≡◌, refl, arith, Bool, true, false, some, List, [], ◌∷◌, ◌++◌, length,
  replicate, pos,
}
use linglongta.Protocol.CString.{c_string, same_word}
use linglongta.Protocol.Head.{command_state, find_crlf, try_parse_memcached_string_head}
use linglongta.Protocol.Words.{line_end}
use linglongta.Protocol.Numbers.{numeral_value}
use linglongta.Connection.Task.{QueryState, QueryTask, ok, ◌>>=◌}
use linglongta.Connection.Receive.{got, failed, parse_query_request_head}
use linglongta.Connection.Handler.{
  Handled, destroyed, worker_of, go_on, ran, query_io_event_handler, serve, do_accept_connection,
}
use linglongta.Connection.SetHead.{IsSetCommand, set_text}
use linglongta.Connection.Accept.{IsSent, accepted, with_head}
use linglongta.Connection.Serve.{served, serve-set}
use linglongta.Connection.Overrun.{overwritten, handler-overrun, handler-part_of_head}

abbrev pub codes : String → List ℕ
codes String.[] = []
codes (String.◌∷◌ c s) = code c ∷ codes s

abbrev pub can_alloc : ℕ → Bool
can_alloc n = true

abbrev pub zeroes : List ℕ
zeroes = replicate 512 0

-- set k 0 0 3
pub set_k-IsSetCommand : IsSetCommand (codes "set") (codes "k") (codes "0") (codes "0") (codes "3")
unfolding command_state same_word numeral_value
set_k-IsSetCommand = record {
  command = record { some_byte = λ e. cc; bytes = omega arith };
  command_line = omega arith;
  is_set = refl;
  key_word = record { some_byte = λ e. cc; bytes = omega arith };
  key_line = omega arith;
  key_room = omega arith;
  flag_number = record { some_digit = λ e. cc; digits = omega arith };
  flag_fits = omega arith;
  exptime_number = record { some_digit = λ e. cc; digits = omega arith };
  exptime_fits = omega arith;
  bytes_number = record { some_digit = λ e. cc; digits = omega arith };
  bytes_fit = omega arith;
  room = omega arith;
}

abbrev head : List ℕ
head = set_text (codes "set") (codes "k") (codes "0") (codes "0") (codes "3")

serve-set_example :
    (handled : Handled) × ((do_accept_connection zeroes >>= λ t. ok (
        served can_alloc 4 4 0
          (codes "set")
          (codes "k")
          (codes "0")
          (codes "0")
          (codes "3")
          zeroes
          set_k-IsSetCommand
          (codes "a")
          (codes "bc" ∷ line_end ∷ [])
          t))
      ≡ ok handled)
    × IsSent
        (worker_of 4 4)
        (codes "k")
        (codes "abc")
        (numeral_value (codes "0"))
        (numeral_value (codes "0"))
        handled
unfolding numeral_value
serve-set_example =
    serve-set can_alloc 4 4 0 (codes "set") (codes "k") (codes "0") (codes "0") (codes "3") zeroes
      set_k-IsSetCommand (codes "a") (codes "abc") (codes "bc" ∷ line_end ∷ []) refl (omega arith)
      (omega arith, (omega arith, tt)) refl refl

handler-overrun_example :
    (t : QueryTask) × (query_io_event_handler can_alloc 4 0 3
        (accepted zeroes)
        (got (head ++ codes "abcdef") ∷ [])
      ≡ (destroyed false t, []))
    × (t.error_log ≡ false)
    × (t.query_request.content ≡ some (codes "abcdef"))
    × (t.query_request.data_size ≡ numeral_value (codes "3") + 2)
    × (t.query_request.data_size < length (codes "abcdef"))
unfolding numeral_value
handler-overrun_example =
    handler-overrun can_alloc 4 0 0 (codes "set") (codes "k") (codes "0") (codes "0") (codes "3")
      zeroes (codes "abcdef") [] set_k-IsSetCommand refl (omega arith) (omega arith)

handler-part_of_head_example :
    (query_io_event_handler can_alloc 4 0 4
        (accepted zeroes)
        (got (codes "set k") ∷ failed true ∷ [])
      ≡ (
        destroyed false (record (with_head zeroes (codes "set k")) {
          error_log = true;
          state = QueryState.s_destroy_recv;
          need_read = pos 507;
        }),
        [],
      ))
    × (query_io_event_handler can_alloc 4 0 4
          (accepted zeroes)
          (got (codes "set k") ∷ got (codes " 0 0 3" ++ line_end) ∷ [])
        ≡ go_on can_alloc 4 0 (query_io_event_handler can_alloc 4 0 0) (
          ran (
              parse_query_request_head can_alloc
                (overwritten can_alloc 4 0 0 zeroes (codes "set k") (codes " 0 0 3" ++ line_end))),
          [],
        ))
unfolding try_parse_memcached_string_head c_string find_crlf
handler-part_of_head_example =
    handler-part_of_head can_alloc 4 0 0 zeroes (codes "set k") (codes " 0 0 3" ++ line_end) true []
      (omega arith) (omega arith) refl (omega arith) (omega arith)

AllZero-replicate : (n : ℕ) → AllZero (replicate n 0)
AllZero-replicate zero = tt
AllZero-replicate (suc n) = (refl, AllZero-replicate n)

-- a set command with a negative size, which is one byte short of 2^64 with its line end, and data behind it
serve-IsSafe_example :
    (h : Handled) × ((do_accept_connection zeroes >>= λ t. ok (
        serve can_alloc 4 0 2 9 t
          (got (codes "set k 0 0 -3" ++ line_end) ∷ got (codes "abc") ∷ failed false ∷ [])))
      ≡ ok h)
    × IsSafe h
serve-IsSafe_example =
    serve-IsSafe can_alloc (λ k. refl) 4 0 zeroes 2 9
      (got (codes "set k 0 0 -3" ++ line_end) ∷ got (codes "abc") ∷ failed false ∷ [])
      (AllZero-replicate 512) (omega arith)

-- the tenth of the tasks, with eight workers
dispatch_query_task-last_fd_after_example :
    (dispatch_query_task 8 (last_fd_after 8 9) true ≡ some (1, 2)) × (1 < 8)
dispatch_query_task-last_fd_after_example = dispatch_query_task-last_fd_after 8 9 (omega arith)
