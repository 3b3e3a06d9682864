-- ===== src/Connection/KeyHead.antt =====
-- src/assign_thread.c: a get or delete command on a connection that has just been accepted.
use linglongta.Prelude.{
  ℕ, suc, ◌≤◌, ◌≡◌, ◌≢◌, inl, refl, sym, ap, ◌∙◌, arith, Bool, true, false, List, [], ◌∷◌, ◌++◌,
  append_assoc, length, length-append, All, All-append, drop, take_all,
}
use linglongta.Protocol.CString.{space}
use linglongta.Protocol.Commands.{CmdType, ParseStatus, QueryRequest}
use linglongta.Protocol.Head.{RetCode, ParseState, command_state, parse_memcached_string_head}
use linglongta.Protocol.Words.{IsWord, line_end}
use linglongta.Protocol.Lines.{text_of_word}
use linglongta.Protocol.KeyLine.{KeyCommand, get_key, delete_key, parse_head-key_line}
use linglongta.Connection.HeadLine.{behind_head, cut_request, parse_query_request_head-line}
use linglongta.Connection.Task.{QueryTask, QueryState, ok, without_crlf, ◌>>=◌}
use linglongta.Connection.Receive.{
  NetRead, got, go_to, on_command, on_parsed, parse_query_request_head,
}
use linglongta.Connection.Handler.{
  Handled, dispatched, worker_of, ran, go_on, next_event, serve, query_io_event_handler,
  do_accept_connection,
}
use linglongta.Connection.Data.{to_worker, at_worker}
use linglongta.Connection.Accept.{accepted, with_head, first_event, do_accept_connection_lem}

abbrev pub key_text : (cmd key : List ℕ) → List ℕ
key_text cmd key = cmd ++ space ∷ (key ++ line_end)

-- A command with a key as it is sent: no carriage return in its line but the last.
pub record IsKeyCommand (cmd key : List ℕ) (s : ParseState) (type : CmdType) : Type 0 where
  pub kind : KeyCommand s type
  pub command : IsWord cmd
  pub command_line : All (λ c. c ≢ b'\r') cmd
  pub is_command : command_state cmd ≡ s
  pub key_word : IsWord key
  pub key_line : All (λ c. c ≢ b'\r') key
  pub key_room : length key ≤ 250
  pub room : length (key_text cmd key) ≤ 511

-- A request as a worker gets it for such a command.
pub record IsAsked (worker : ℕ) (key : List ℕ) (type : CmdType) (h : Handled) : Type 0 where
  pub task : QueryTask
  pub handled : h ≡ dispatched worker task
  pub state : task.state ≡ QueryState.s_dispatch_query_task
  pub no_error : task.error_log ≡ false
  pub cmd_type : task.query_request.cmd_type ≡ type
  pub parse_status : task.query_request.parse_status ≡ ParseStatus.ps_succ
  pub same_key : task.query_request.key ≡ key

to_dispatch :
    (can_alloc : ℕ → Bool) (tmp : List ℕ) (s : ParseState) (type : CmdType) (t : QueryTask)
    → KeyCommand s type
    → on_command can_alloc tmp type t ≡ go_to QueryState.s_dispatch_query_task true t
unfolding on_command
to_dispatch can_alloc tmp s type t get_key = refl
to_dispatch can_alloc tmp s type t delete_key = refl

module _ (cmd key : List ℕ) (s : ParseState) (type : CmdType)
    (h : IsKeyCommand cmd key s type) where
  -- the command without its line end
  abbrev line : List ℕ
  line = cmd ++ space ∷ key

  text-line : key_text cmd key ≡ line ++ line_end
  text-line = sym (append_assoc cmd (space ∷ key) line_end)

  no_nul : All (λ c. c ≢ 0) line
  no_nul =
      All-append (λ c. c ≢ 0) cmd (space ∷ key) (text_of_word cmd h.command.bytes)
        (omega arith, text_of_word key h.key_word.bytes)

  no_return : All (λ c. c ≢ b'\r') line
  no_return = All-append (λ c. c ≢ b'\r') cmd (space ∷ key) h.command_line (omega arith, h.key_line)

  -- The request that the head leaves.
  abbrev key_request : QueryRequest → List ℕ → QueryRequest
  key_request r behind =
      record (cut_request line (key_text cmd key) text-line no_nul no_return r behind) {
        cmd_type = type;
        parse_status = ParseStatus.ps_succ;
        key = key;
      }

  parsed :
      (r : QueryRequest) (behind : List ℕ)
      → parse_memcached_string_head
          (cut_request line (key_text cmd key) text-line no_nul no_return r behind)
        ≡ (RetCode.ret_success, key_request r behind)
  parsed r behind =
      parse_head-key_line _ cmd key [] (drop 1 behind) s type h.kind h.command h.is_command
        h.key_word (inl refl) h.room refl
      ∙ ap (λ w. (RetCode.ret_success, record (key_request r behind) { key = w }))
          (take_all 250 key h.key_room)

  -- The head of such a command that has come whole, whatever stands behind it.
  parse-key_head :
      (can_alloc : ℕ → Bool) (t : QueryTask) (behind : List ℕ)
      → t.query_request.query_head_buf ≡ key_text cmd key ++ behind
      → length (key_text cmd key) ≤ t.have_read
      → parse_query_request_head can_alloc t
        ≡ go_to QueryState.s_dispatch_query_task true
            (record t { query_request = key_request t.query_request behind })
  unfolding on_parsed
  parse-key_head can_alloc t behind e n =
      parse_query_request_head-line line (key_text cmd key) text-line no_nul no_return can_alloc t
        behind e n
      ∙ ap
          (λ p.
            on_parsed can_alloc (behind_head line (key_text cmd key) text-line no_nul no_return t) p
              t)
          (parsed t.query_request behind)
      ∙ to_dispatch can_alloc _ s type
          (record t { query_request = key_request t.query_request behind }) h.kind

  module _ (can_alloc : ℕ → Bool) (worker_thread_cnt last_fd n m : ℕ) (zeroes : List ℕ) where
    -- the connection over its first bytes
    abbrev pub asked_for : List ℕ → List NetRead → QueryTask → Handled
    asked_for extra reads t =
        serve can_alloc worker_thread_cnt last_fd (suc m) (suc (suc (suc n))) t
          (got (key_text cmd key ++ extra) ∷ reads)

    abbrev headed : List ℕ → QueryTask
    headed extra = record (with_head zeroes (key_text cmd key ++ extra)) {
      query_request =
          key_request (with_head zeroes (key_text cmd key ++ extra)).query_request
            (extra ++ drop (length (key_text cmd key ++ extra)) zeroes);
    }

    abbrev at_end : List ℕ → QueryTask
    at_end extra = record (headed extra) {
      state = QueryState.s_dispatch_query_task;
      query_request = without_crlf (headed extra).query_request;
    }

    key_event :
        (extra : List ℕ) (reads : List NetRead)
        → length (key_text cmd key ++ extra) ≤ 512
        → query_io_event_handler can_alloc worker_thread_cnt last_fd
            (suc (suc (suc n)))
            (accepted zeroes)
            (got (key_text cmd key ++ extra) ∷ reads)
          ≡ (dispatched (worker_of worker_thread_cnt last_fd) (at_end extra), reads)
    key_event extra reads room =
        first_event can_alloc worker_thread_cnt last_fd (suc n) zeroes (key_text cmd key ++ extra)
          reads
          (omega (
            arith,
            length-append (key_text cmd key) extra,
            length-append cmd (space ∷ (key ++ line_end)),
          ))
          room
        ∙ ap
            (λ r.
              go_on can_alloc worker_thread_cnt last_fd
                (query_io_event_handler can_alloc worker_thread_cnt last_fd (suc n)) (ran r, reads))
            (parse-key_head can_alloc (with_head zeroes (key_text cmd key ++ extra))
                (extra ++ drop (length (key_text cmd key ++ extra)) zeroes)
                (append_assoc (key_text cmd key) extra _)
                (omega (arith, length-append (key_text cmd key) extra))
              ∙ to_worker can_alloc worker_thread_cnt last_fd (headed extra) refl)
        ∙ at_worker can_alloc worker_thread_cnt last_fd n (at_end extra) reads refl

    -- On a new connection a get or delete command arrives in one read of 512 bytes at most, its line of 511
    -- bytes at most with no carriage return in it but the last, and its key of 250 bytes at most: the task
    -- goes to the worker whose turn it is, with no error, and its request is this command with this key;
    -- whatever stands behind the line is passed over.
    pub serve-key :
        (extra : List ℕ) (reads : List NetRead)
        → length (key_text cmd key ++ extra) ≤ 512
        → (handled : Handled) × ((do_accept_connection zeroes >>= λ t. ok (asked_for extra reads t))
            ≡ ok handled)
          × IsAsked (worker_of worker_thread_cnt last_fd) key type handled
    unfolding serve without_crlf
    serve-key extra reads room = (
      asked_for extra reads (accepted zeroes),
      ap (λ t. t >>= λ t'. ok (asked_for extra reads t')) (do_accept_connection_lem zeroes),
      record {
        task = at_end extra;
        handled =
            ap
              (next_event can_alloc worker_thread_cnt last_fd
                (serve can_alloc worker_thread_cnt last_fd m (suc (suc (suc n)))))
              (key_event extra reads room);
        state = refl;
        no_error = refl;
        cmd_type = refl;
        parse_status = refl;
        same_key = refl;
      },
    )
