-- ===== src/Worker/Tests.antt =====
-- A worker's answers at concrete requests, and the theorems on it there.
use linglongta.Prelude.{
  some_inj, pos_inj, negsuc_ne_pos, ℕ, ◌<◌, ◌^◌, ◌≢◌, ◌⊎◌, subst, true, false, negsuc, ◌≤◌, ◌≡◌,
  refl, arith, List, [], ◌∷◌, ◌++◌, length, some, none, pos,
}
use linglongta.Protocol.Commands.{CmdType, ParseStatus, QueryRequest}
use linglongta.Protocol.Words.{line_end}
use linglongta.Storage.Types.{Storage, done, aborted}
use linglongta.Storage.Blocks.{append_at, store_block}
use linglongta.Storage.Tests.Objects.{name, one_object, one_object-Holds}
use linglongta.Worker.NoMemory.{handle_request-no_memory}
use linglongta.Storage.Tests.{
  Table, index, index-laws, crc, no_memory, working, working-Works, empty_store,
  empty_store-IsStore, as_lookup-ne-failed,
}
use linglongta.Storage.Sizes.Powers.{nth_size}
use linglongta.Connection.Task.{QueryTask, QueryState}
use linglongta.Connection.Destroy.{LogLevel}
use linglongta.Worker.Send.{Socket, Kernel, send_response}
use linglongta.Worker.Send.Writes.{IsPosix, AllSent, PartSent}
use linglongta.Worker.Send.Outcome.{IsResponse, send_response-sent_bytes}
use linglongta.Worker.Pipe.{Ended, task_done}
use linglongta.Worker.Missing.{IsGet, in_turn, worker_at, pipe_event_handler-missing}
use linglongta.Worker.Reply.{
  ReplyState, QueryResponse, sent_bytes, mc_get_done, get_header, mc_set_done, handle_request,
}
use linglongta.Worker.Answer.{Answers, no_response, handle_request-set_get}

abbrev object : List ℕ
object = b'a' ∷ b'b' ∷ []

abbrev set_request : QueryRequest
set_request = record {
  query_head_buf = [];
  query_head_buf_size = 0;
  content = some (object ++ line_end);
  data_size = 2;
  cmd_type = CmdType.cmd_set;
  parse_status = ParseStatus.ps_succ;
  flag = pos 0;
  exptime = pos 0;
  key = b'k' ∷ [];
}

abbrev get_request : QueryRequest
get_request = record set_request { content = none; data_size = 0; cmd_type = CmdType.cmd_get }

handle_request-set_get_example :
    (s : Storage Table) × Answers mc_set_done s
      (handle_request index crc working ReplyState.s_dispatched set_request no_response empty_store)
    × Answers
        (get_header (b'k' ∷ []) 0 2 ++ (object ++ line_end))
        s
        (handle_request index crc working ReplyState.s_dispatched get_request no_response s)
unfolding nth_size
handle_request-set_get_example =
    handle_request-set_get index-laws crc working working-Works empty_store ReplyState.s_dispatched
      ReplyState.s_dispatched set_request get_request object 0 empty_store-IsStore refl refl refl
      refl refl refl refl refl (omega arith) (omega arith) (omega arith)
      (λ e q. as_lookup-ne-failed none e q)

handle_request-no_memory_example :
    handle_request index crc no_memory ReplyState.s_dispatched
      (record get_request { key = name })
      no_response
      one_object
    ≡ aborted
unfolding append_at store_block
handle_request-no_memory_example =
    handle_request-no_memory index crc no_memory one_object ReplyState.s_dispatched
      (record get_request { key = name }) one_object-Holds.iv refl refl refl refl
      one_object-Holds.entry (rw (← one_object-Holds.whole) refl)
      (omega (arith, one_object-Holds.whole))

-- a kernel that takes all bytes, and one whose writes fail
abbrev pub willing : Kernel
willing = record { getfl = pos 0; setfl = pos 0; errno = pos 9; write = λ s n. pos n }

pub willing-IsPosix : IsPosix willing
willing-IsPosix = record {
  getfl_works = refl;
  setfl_works = refl;
  takes_at_most = λ s n j e. omega (arith, pos_inj e);
}

abbrev broken : Kernel
broken = record willing { write = λ s n. negsuc 0 }

broken-IsPosix : IsPosix broken
broken-IsPosix = record {
  getfl_works = refl;
  setfl_works = refl;
  takes_at_most = λ s n j e. absurd (negsuc_ne_pos 0 j e);
}

abbrev pub fresh_socket : Socket
fresh_socket = record { taken = []; writes = 0; is_blocking = false; net_write_bytes = 0 }

abbrev get_answer : QueryResponse
get_answer = record {
  error_log = false;
  resp_head_buf = b'V' ∷ line_end;
  resp_data_buf = some object;
  resp_data_size = 2;
  resp_tailor_buf = some line_end;
}

get_answer-IsResponse : IsResponse get_answer
get_answer-IsResponse = record {
  head_fits = omega arith;
  in_buffer = λ d e. subst (λ m. 2 ≤ length m) (some_inj e) (omega arith);
  tailor_bytes = λ l e. subst (λ m. 0 < length m) (some_inj e) (omega arith);
  data_fits = omega arith;
  tailor_fits = λ l e. subst (λ m. length m < 2 ^ 62) (some_inj e) (omega arith);
}

send_response-sent_bytes_example :
    AllSent get_answer fresh_socket
      (sent_bytes get_answer)
      (send_response willing get_answer fresh_socket)
    ⊎ PartSent willing get_answer fresh_socket
        (sent_bytes get_answer)
        (send_response willing get_answer fresh_socket)
send_response-sent_bytes_example =
    send_response-sent_bytes willing get_answer fresh_socket willing-IsPosix get_answer-IsResponse

-- the task of a get request, at a worker
abbrev get_task : QueryTask
get_task = record {
  error_log = false;
  state = QueryState.s_dispatch_query_task;
  have_read = 7;
  need_read = pos 0;
  query_request = get_request;
}

get_task-IsGet : IsGet index empty_store get_task
get_task-IsGet = record { no_error = refl; parse_status = refl; cmd_type = refl; none_there = refl }

pipe_event_handler-missing_example :
    (broken.write (in_turn fresh_socket) 5 ≡ pos 5
      → (ended : Ended Table) × (worker_at index-laws crc working empty_store refl refl broken
            broken-IsPosix 0 get_task get_task-IsGet fresh_socket
          ≡ done (task_done ended))
        × (ended.socket.taken ≡ mc_get_done)
        × (ended.storage ≡ empty_store)
        × (ended.destroyed.level ≡ LogLevel.log_warn)
        × (ended.destroyed.is_closed ≡ true))
    × (broken.write (in_turn fresh_socket) 5 ≢ pos 5
        → worker_at index-laws crc working empty_store refl refl broken broken-IsPosix 0 get_task
            get_task-IsGet fresh_socket
          ≡ aborted)
pipe_event_handler-missing_example =
    pipe_event_handler-missing index-laws crc working empty_store refl refl broken broken-IsPosix 0
      get_task get_task-IsGet fresh_socket
