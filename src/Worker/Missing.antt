-- ===== src/Worker/Missing.antt =====
-- src/query_thread.c: a get request for a key that the index does not have, whose client is gone.
use linglongta.Prelude.{
  ℕ, zero, suc, ◌^◌, ◌<◌, ◌≡◌, ◌≢◌, refl, ap, ◌∙◌, arith, true, false, List, ◌++◌, length, ◌==◌, ℤ,
  pos, negsuc,
}
use linglongta.Rwlock.{rwlock_build}
use linglongta.Protocol.Commands.{CmdType, ParseStatus, QueryRequest}
use linglongta.Protocol.Head.{RetCode}
use linglongta.Storage.Types.{BdbOps, BdbLaws, Storage, Env, Run, done, aborted, fix_key, miss}
use linglongta.Storage.Blocks.{is_zero}
use linglongta.Storage.Find.{find_block-miss}
use linglongta.Connection.Task.{QueryTask}
use linglongta.Connection.Destroy.{LogLevel, destroy_query_task}
use linglongta.Worker.Reply.{
  ReplyState, QueryResponse, mc_get_done, only_head, log_and_head, build_response, get_request,
  by_found, on_request, handle_parsed, handle_request,
}
use linglongta.Worker.Answer.{no_response}
use linglongta.Worker.Send.{
  Socket, Kernel, Sent, same_ssize, as_ssize, wrote, check_written, send_failed, send_data,
  net_write, send_response,
}
use linglongta.Worker.Send.Writes.{IsPosix, as_ssize-pos}
use linglongta.Worker.Send.Outcome.{send_response-blocking}
use linglongta.Worker.Pipe.{
  PipeEvent, PipeRead, PipeResult, Ended, task_done, reply_state, end_task, send_answer,
  pipe_event_handler,
}

is_zero-false : (z : ℤ) → z ≢ pos 0 → is_zero z ≡ false
is_zero-false (pos zero) h = absurd (h refl)
is_zero-false (pos (suc n)) h = refl
is_zero-false (negsuc n) h = refl

same_ssize-ne : (z : ℤ) (n : ℕ) → n < 2 ^ 63 → z ≢ pos n → same_ssize z (as_ssize n) ≡ false
unfolding same_ssize
same_ssize-ne (pos j) n lt h =
    ap (λ a. same_ssize (pos j) a) (as_ssize-pos n lt) ∙ other j n (λ e. h (ap pos e))
  where
    other : (a b : ℕ) → a ≢ b → (a == b) ≡ false
    other a b g = ground arith
same_ssize-ne (negsuc j) n lt h = ap (λ a. same_ssize (negsuc j) a) (as_ssize-pos n lt)

check_written-short :
    (z : ℤ) (n : ℕ) (r : QueryResponse) (next : Socket → Run Sent) (buf : List ℕ) (s : Socket)
    → n < 2 ^ 63
    → z ≢ pos n
    → r.error_log ≡ true
    → check_written n r next (wrote z buf s) ≡ aborted
unfolding check_written wrote send_failed
check_written-short (pos j) n r next buf s lt h logged =
    rw (same_ssize-ne (pos j) n lt h) (rw logged refl)
check_written-short (negsuc j) n r next buf s lt h logged =
    rw (same_ssize-ne (negsuc j) n lt h) (rw logged refl)

same_ssize_self : (n : ℕ) → n < 2 ^ 63 → same_ssize (pos n) (as_ssize n) ≡ true
unfolding same_ssize
same_ssize_self n lt = ap (λ a. same_ssize (pos n) a) (as_ssize-pos n lt) ∙ equal n
  where
    equal : (a : ℕ) → (a == a) ≡ true
    equal a = ground arith

-- the socket when the head is written
abbrev pub in_turn : Socket → Socket
in_turn sock = record sock { is_blocking = true }

module _ (k : Kernel) (r : QueryResponse) (sock : Socket) (p : IsPosix k)
    (fits : length r.resp_head_buf < 2 ^ 63) where
  -- A task with an error log, and a head that does not go out whole.
  send_response-logged :
      r.error_log ≡ true
      → k.write (in_turn sock) (length r.resp_head_buf) ≢ pos (length r.resp_head_buf)
      → send_response k r sock ≡ aborted
  unfolding net_write
  send_response-logged logged short =
      send_response-blocking k r sock p
      ∙ check_written-short (k.write (in_turn sock) (length r.resp_head_buf))
          (length r.resp_head_buf) r (send_data k r) r.resp_head_buf (in_turn sock) fits short
          logged

  -- A head that goes out whole.
  send_response-head :
      k.write (in_turn sock) (length r.resp_head_buf) ≡ pos (length r.resp_head_buf)
      → send_response k r sock
        ≡ send_data k r (wrote (pos (length r.resp_head_buf)) r.resp_head_buf (in_turn sock)).1
  unfolding net_write check_written wrote
  send_response-head all =
      send_response-blocking k r sock p
      ∙ ap
          (λ z.
            check_written (length r.resp_head_buf) r (send_data k r)
              (wrote z r.resp_head_buf (in_turn sock)))
          all
      ∙ rw (same_ssize_self (length r.resp_head_buf) fits) refl

-- the response to a get request for a key that is not there
abbrev pub end_only : QueryResponse
end_only = record no_response { error_log = true; resp_head_buf = mc_get_done }

-- A get request as the assign thread hands it over, for a key that the index does not have.
pub record IsGet {Db : Type 0} (bdb : BdbOps Db) (s : Storage Db) (t : QueryTask) : Type 0 where
  pub no_error : t.error_log ≡ false
  pub parse_status : t.query_request.parse_status ≡ ParseStatus.ps_succ
  pub cmd_type : t.query_request.cmd_type ≡ CmdType.cmd_get
  pub none_there : bdb.get s.indexdb.dbp (fix_key t.query_request.key) ≡ miss

module _ {Db : Type 0} {bdb : BdbOps Db} (laws : BdbLaws bdb) (crc32_calc : List ℕ → ℕ) (env : Env)
    (s : Storage Db) (free : s.index_lock ≡ rwlock_build) (room : env.can_alloc 24 ≡ true) where
  handle_request-missing :
      (st : ReplyState) (q : QueryRequest)
      → q.parse_status ≡ ParseStatus.ps_succ
      → q.cmd_type ≡ CmdType.cmd_get
      → bdb.get s.indexdb.dbp (fix_key q.key) ≡ miss
      → handle_request bdb crc32_calc env st q no_response s
        ≡ done (record {
          retval = RetCode.ret_failed;
          state = ReplyState.s_get_failed;
          response = end_only;
          storage = s;
        })
  unfolding handle_request handle_parsed on_request get_request build_response log_and_head
      only_head
  handle_request-missing st q parsed is_get none_there =
      ap (λ p. handle_parsed bdb crc32_calc env p st q no_response s) parsed
      ∙ ap (λ c. on_request bdb crc32_calc env c q no_response s) is_get
      ∙ ap (by_found bdb crc32_calc env q no_response)
          (find_block-miss bdb crc32_calc env s free room q.key none_there)
      ∙ rw (is_zero-false bdb.db_notfound laws.notfound_ne.0) refl

  module _ (k : Kernel) (p : IsPosix k) (worker : ℕ) (t : QueryTask) (g : IsGet bdb s t)
      (sock : Socket) where
    abbrev pub worker_at : Run (PipeResult Db)
    worker_at =
        pipe_event_handler bdb crc32_calc env k worker PipeEvent.ev_read (PipeRead.read_task t) s
          sock

    missing_sent :
        worker_at
        ≡ end_task bdb crc32_calc env k worker t.query_request s (send_response k end_only sock)
    unfolding pipe_event_handler
    missing_sent =
        ap
          (λ b. send_answer bdb crc32_calc env k worker t.query_request sock (
            handle_request bdb crc32_calc env (reply_state t.state) t.query_request
              (record no_response { error_log = b }) s))
          g.no_error
        ∙ ap (send_answer bdb crc32_calc env k worker t.query_request sock) (
            handle_request-missing (reply_state t.state) t.query_request g.parse_status g.cmd_type
              g.none_there)

    -- With the index lock free and memory for an index value: a worker gets a get request for a key that the
    -- index does not have. If the kernel takes the 5 bytes of END and a line end, the client has got these, the
    -- store is as it was, and the connection is closed with a warning in the log. If not, as with a client
    -- that has closed its end, the second message to the error log fails an assert: the whole process ends.
    pub pipe_event_handler-missing :
        (k.write (in_turn sock) 5 ≡ pos 5
          → (ended : Ended Db) × (worker_at ≡ done (task_done ended))
            × (ended.socket.taken ≡ sock.taken ++ mc_get_done)
            × (ended.storage ≡ s)
            × (ended.destroyed.level ≡ LogLevel.log_warn)
            × (ended.destroyed.is_closed ≡ true))
        × (k.write (in_turn sock) 5 ≢ pos 5 → worker_at ≡ aborted)
    unfolding send_data destroy_query_task wrote
    pipe_event_handler-missing = (
      λ all. (
        _,
        missing_sent
            ∙ ap (end_task bdb crc32_calc env k worker t.query_request s)
                (send_response-head k end_only sock p (omega arith) all),
        refl,
        refl,
        refl,
        refl,
      ),
      λ short.
          missing_sent
          ∙ ap (end_task bdb crc32_calc env k worker t.query_request s)
              (send_response-logged k end_only sock p (omega arith) refl short),
    )
