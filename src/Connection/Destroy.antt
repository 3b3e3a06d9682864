-- ===== src/Connection/Destroy.antt =====
-- src/assign_thread.c: `destroy_query_task` and `query_timer_event_handler`.
use linglongta.Prelude.{Bool, true, Option, none, some, List, [], ◌∷◌, ◌++◌, if◌then◌else◌}
use linglongta.Protocol.Commands.{QueryRequest}
use linglongta.Worker.Reply.{QueryResponse}
use linglongta.Connection.Task.{QueryTask, Checked, ok, log, ◌>>=◌}

pub data LogLevel : Type 0 where
  log_warn log_notice : LogLevel

-- The memory that a task has.
pub data Owned : Type 0 where
  error_text request_data response_data task_memory : Owned

-- What happens to a task at its end: a line of this level in the log, its memory freed in this order, and its
-- socket closed.
pub record Destroyed : Type 0 where
  pub level : LogLevel
  pub freed : List Owned
  pub is_closed : Bool

abbrev pub owned_if : {A : Type 0} → Owned → Option A → List Owned
owned_if o none = []
owned_if o (some d) = o ∷ []

unfoldable pub destroy_query_task : (error_log : Bool) → QueryRequest → QueryResponse → Destroyed
destroy_query_task error_log q r = record {
  level = if error_log then LogLevel.log_warn else LogLevel.log_notice;
  freed =
      (if error_log then Owned.error_text ∷ [] else [])
      ++ (owned_if Owned.request_data q.content
          ++ (owned_if Owned.response_data r.resp_data_buf ++ Owned.task_memory ∷ []));
  is_closed = true;
}

-- An event of a timer.
pub data TimerEvent : Type 0 where
  ev_timeout ev_unknown : TimerEvent

-- A task without its request in time: it is destroyed, with an error log. It has no response yet.
unfoldable pub query_timer_event_handler :
    TimerEvent → QueryResponse → QueryTask → Checked (Option Destroyed)
query_timer_event_handler TimerEvent.ev_timeout r t =
    log t >>= λ t'. ok (some (destroy_query_task t'.error_log t'.query_request r))
query_timer_event_handler TimerEvent.ev_unknown r t = ok none
