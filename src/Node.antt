-- ===== src/Node.antt =====
-- src/datanode.c: a connection from its accept to its end, through the assign thread and a worker.
pub mod SetGet
mod Tests
use linglongta.Prelude.{
  ℕ, ◌≡◌, refl, ap, ◌∙◌, Bool, true, false, Option, none, some, List, ◌++◌, pos,
}
use linglongta.Storage.Types.{BdbOps, Storage, Env, Run, done}
use linglongta.Protocol.Commands.{QueryRequest}
use linglongta.Connection.Task.{QueryTask, Checked, ok, assert_failed}
use linglongta.Connection.Handler.{Handled, dispatched}
use linglongta.Connection.Destroy.{LogLevel, destroy_query_task}
use linglongta.Worker.Reply.{ReplyState, QueryResponse, handle_request}
use linglongta.Worker.Answer.{Answers, no_response}
use linglongta.Worker.Send.{Socket, Kernel, send_response}
use linglongta.Worker.Send.Writes.{IsPosix}
use linglongta.Worker.Send.Outcome.{send_response-all}
use linglongta.Worker.Pipe.{
  PipeEvent, PipeRead, PipeResult, Ended, task_done, response_of, reply_state, end_task,
  send_answer, pipe_event_handler,
}

-- The pointer that `dispatch_query_task` writes to the pipe of a worker is the one that this worker reads.
unfoldable pub hand_over :
    {Db : Type 0} (bdb : BdbOps Db) (crc32_calc : List ℕ → ℕ) (env : Env) (k : Kernel)
    → Checked Handled
    → Storage Db
    → Socket
    → Option (Run (PipeResult Db))
hand_over bdb crc32_calc env k (ok (dispatched worker t)) s sock =
    some (
      pipe_event_handler bdb crc32_calc env k worker PipeEvent.ev_read (PipeRead.read_task t) s
        sock)
hand_over bdb crc32_calc env k _ s sock = none

-- The client has got these bytes, no more than these, and its connection is closed, with no error in the log.
pub record Finished {Db : Type 0} (bytes : List ℕ) (worker : ℕ) (s : Storage Db) (sock : Socket)
    (res : Option (Run (PipeResult Db))) : Type 0 where
  pub ended : Ended Db
  pub ends : res ≡ some (done (task_done ended))
  pub thread_id : ended.thread_id ≡ worker
  pub storage : ended.storage ≡ s
  pub taken : ended.socket.taken ≡ sock.taken ++ bytes
  pub is_closed : ended.destroyed.is_closed ≡ true
  pub level : ended.destroyed.level ≡ LogLevel.log_notice

module _ {Db : Type 0} (bdb : BdbOps Db) (crc32_calc : List ℕ → ℕ) (env : Env) (k : Kernel)
    (posix : IsPosix k) (whole : (sock : Socket) (n : ℕ) → k.write sock n ≡ pos n) where
  -- What a worker answers goes to the client.
  pub Answers-Finished :
      (worker : ℕ) (t : QueryTask) (s s' : Storage Db) (sock : Socket) (bytes : List ℕ)
      (h : Checked Handled)
      → h ≡ ok (dispatched worker t)
      → t.error_log ≡ false
      → Answers bytes s'
          (handle_request bdb crc32_calc env (reply_state t.state) t.query_request no_response s)
      → Finished bytes worker s' sock (hand_over bdb crc32_calc env k h s sock)
  unfolding hand_over pipe_event_handler destroy_query_task
  Answers-Finished worker t s s' sock bytes h e no_error a =
      let sent = send_response-all k a.answered.response sock posix a.sendable whole in
      record {
        ended = record {
          thread_id = worker;
          storage = a.answered.storage;
          socket = sent.socket;
          destroyed =
              destroy_query_task a.answered.response.error_log t.query_request a.answered.response;
        };
        ends =
            ap (λ c. hand_over bdb crc32_calc env k c s sock) e
            ∙ ap
                (λ b. some (
                  send_answer bdb crc32_calc env k worker t.query_request sock (
                    handle_request bdb crc32_calc env (reply_state t.state) t.query_request
                      (record no_response { error_log = b }) s)))
                no_error
            ∙ ap (λ r. some (send_answer bdb crc32_calc env k worker t.query_request sock r)) a.ends
            ∙ ap
                (λ r.
                  some (end_task bdb crc32_calc env k worker t.query_request a.answered.storage r))
                sent.ends;
        thread_id = refl;
        storage = a.storage;
        taken = sent.taken ∙ ap (λ l. sock.taken ++ l) a.sent;
        is_closed = refl;
        level = rw a.no_error refl;
      }
