-- ===== src/Worker/Pipe.antt =====
-- src/query_thread.c: `pipe_event_handler`, a task from a worker's pipe to the end of its connection.
use linglongta.Prelude.{ℕ, List}
use linglongta.Protocol.Commands.{QueryRequest}
use linglongta.Storage.Types.{BdbOps, Storage, Env, Run, done, aborted, blocked, undefined}
use linglongta.Connection.Task.{QueryState, QueryTask}
use linglongta.Connection.Destroy.{Destroyed, destroy_query_task}
use linglongta.Worker.Reply.{ReplyState, QueryResponse, Answered, handle_request}
use linglongta.Worker.Answer.{no_response}
use linglongta.Worker.Send.{Socket, Kernel, Sent, send_response}

pub data PipeEvent : Type 0 where
  ev_read ev_unknown : PipeEvent

-- What the read from the pipe gives: the pointer to a task, or an error or fewer bytes than that.
pub data PipeRead : Type 0 where
  read_task : QueryTask → PipeRead
  read_failed : PipeRead

-- The state in which the assign thread dispatches a task, as the worker tells them apart.
unfoldable pub reply_state : QueryState → ReplyState
reply_state QueryState.s_return_failed = ReplyState.s_return_failed
reply_state _ = ReplyState.s_dispatched

-- The response of a task that comes from the assign thread: all zero, with the task's error log.
abbrev pub response_of : QueryTask → QueryResponse
response_of t = record no_response { error_log = t.error_log }

-- A task at its end: the worker that had it, the store behind it, what the client got, and what became of the
-- task's memory and socket.
pub record Ended (Db : Type 0) : Type 0 where
  pub thread_id : ℕ
  pub storage : Storage Db
  pub socket : Socket
  pub destroyed : Destroyed

-- An event that brings no task is only logged.
pub data PipeResult (Db : Type 0) : Type 0 where
  only_logged : PipeResult Db
  task_done : Ended Db → PipeResult Db

module _ {Db : Type 0} (bdb : BdbOps Db) (crc32_calc : List ℕ → ℕ) (env : Env) (k : Kernel)
    (thread_id : ℕ) where
  abbrev pub end_task : QueryRequest → Storage Db → Run Sent → Run (PipeResult Db)
  end_task q s (done x) = done (
      task_done (record {
        thread_id = thread_id;
        storage = s;
        socket = x.socket;
        destroyed = destroy_query_task x.response.error_log q x.response;
      }))
  end_task q s aborted = aborted
  end_task q s blocked = blocked
  end_task q s undefined = undefined

  -- The code that `handle_request` returns is not looked at.
  abbrev pub send_answer : QueryRequest → Socket → Run (Answered Db) → Run (PipeResult Db)
  send_answer q sock (done a) = end_task q a.storage (send_response k a.response sock)
  send_answer q sock aborted = aborted
  send_answer q sock blocked = blocked
  send_answer q sock undefined = undefined

  unfoldable pub pipe_event_handler :
      PipeEvent → PipeRead → Storage Db → Socket → Run (PipeResult Db)
  pipe_event_handler PipeEvent.ev_read (read_task t) s sock =
      send_answer t.query_request sock
        (handle_request bdb crc32_calc env (reply_state t.state) t.query_request (response_of t) s)
  pipe_event_handler PipeEvent.ev_read read_failed s sock = done only_logged
  pipe_event_handler PipeEvent.ev_unknown read s sock = done only_logged
