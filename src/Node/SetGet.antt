-- ===== src/Node/SetGet.antt =====
-- src/datanode.c: a set command on one connection, and a get command on a later one.
use linglongta.Prelude.{
  ℕ, ◌+◌, ◌^◌, ◌<◌, ◌≤◌, ◌≡◌, ◌≢◌, sym, ap, ◌∙◌, Bool, true, List, [], ◌++◌, length, length-append,
  subst, arith, All, ℤ, pos,
}
use linglongta.Rwlock.{rwlock_build}
use linglongta.Protocol.Commands.{CmdType}
use linglongta.Protocol.Head.{ParseState}
use linglongta.Protocol.Words.{line_end}
use linglongta.Protocol.Numbers.{numeral_value}
use linglongta.Storage.Types.{BdbOps, BdbLaws, Storage, Env, fix_key, failed}
use linglongta.Storage.Invariant.{IsStore}
use linglongta.Storage.Stored.{Works}
use linglongta.Connection.Task.{Checked, ok, ◌>>=◌}
use linglongta.Connection.Handler.{Handled, worker_of, do_accept_connection}
use linglongta.Connection.SetHead.{IsSetCommand, set_text}
use linglongta.Connection.Chunks.{concat, NotEmpty}
use linglongta.Connection.Serve.{served, serve-set}
use linglongta.Connection.KeyHead.{IsKeyCommand, key_text, asked_for, serve-key}
use linglongta.Worker.Reply.{mc_set_done, get_header, handle_request}
use linglongta.Worker.Answer.{Answers, no_response, handle_request-set_get}
use linglongta.Worker.Pipe.{reply_state}
use linglongta.Worker.Send.{Socket, Kernel}
use linglongta.Worker.Send.Writes.{IsPosix}
use linglongta.Node.{hand_over, Finished, Answers-Finished}

module _ (can_alloc : ℕ → Bool) (worker_thread_cnt n : ℕ) (zeroes : List ℕ)
    (cmd key flag exptime bytes get : List ℕ) (h : IsSetCommand cmd key flag exptime bytes)
    (g : IsKeyCommand get key ParseState.s_get CmdType.cmd_get) where
  -- the connection of a set command, over its first bytes and the pieces behind them
  abbrev pub set_connection : (last_fd : ℕ) → List ℕ → List (List ℕ) → Checked Handled
  set_connection last_fd extra chunks = do_accept_connection zeroes >>= λ t. ok (
      served can_alloc worker_thread_cnt last_fd n cmd key flag exptime bytes zeroes h extra chunks
        t)

  -- the connection of a get command for the same key
  abbrev pub get_connection : (last_fd : ℕ) → Checked Handled
  get_connection last_fd = do_accept_connection zeroes >>= λ t. ok (
      asked_for get key ParseState.s_get CmdType.cmd_get g can_alloc worker_thread_cnt last_fd n 0
        zeroes [] [] t)

  -- A data node whose store is sound, with the index lock free, and whose allocator, kernel and index work.
  -- A client sends a set command of less than 2 GB of data that some block type holds, with as much data as
  -- it announces; its key has 250 bytes at most, its flags and expiry time are below 2^31, its numbers are
  -- decimal, and its line has 511 bytes at most and no carriage return but the last. The line comes with
  -- some of the data in a first read of 512 bytes at most and the rest in whatever pieces: it gets exactly
  -- the bytes of STORED and a line end. A client that then sends a get command for the key on another
  -- connection, in one read, gets exactly a line that has the key, 0 for the flags and the size, then that
  -- data, then a line end. Each task goes to the worker whose turn it is, and each connection is closed
  -- with no error logged.
  pub hand_over-set_get :
      {Db : Type 0} {bdb : BdbOps Db} (laws : BdbLaws bdb) (crc32_calc : List ℕ → ℕ) (env : Env)
      (works : Works bdb env) (k : Kernel) (s : Storage Db) (sock sock' : Socket)
      (last_fd last_fd' c : ℕ) (extra content : List ℕ) (chunks : List (List ℕ))
      → IsPosix k
      → ((sk : Socket) (count : ℕ) → k.write sk count ≡ pos count)
      → IsStore bdb s
      → s.index_lock ≡ rwlock_build
      → can_alloc (numeral_value bytes + 2) ≡ true
      → length (set_text cmd key flag exptime bytes ++ extra) ≤ 512
      → All NotEmpty chunks
      → extra ++ concat chunks ≡ content ++ line_end
      → length content ≡ numeral_value bytes
      → length content < 2 ^ 31
      → c < s.sizes.block_type_count
      → length content ≤ s.sizes.block_size_array c
      → ((e : ℤ) → bdb.get s.indexdb.dbp (fix_key key) ≢ failed e)
      → (s' : Storage Db) × Finished mc_set_done
          (worker_of worker_thread_cnt last_fd)
          s'
          sock
          (hand_over bdb crc32_calc env k (set_connection last_fd extra chunks) s sock)
        × Finished
            (get_header key 0 (length content) ++ (content ++ line_end))
            (worker_of worker_thread_cnt last_fd')
            s'
            sock'
            (hand_over bdb crc32_calc env k (get_connection last_fd') s' sock')
  hand_over-set_get {bdb = bdb} laws crc32_calc env works k s sock sock' last_fd last_fd' c extra
        content chunks posix whole w free memory room some_bytes same size small c_lt c_fits
        readable =
      let (set_handled, set_served, sent) =
        serve-set can_alloc worker_thread_cnt last_fd n cmd key flag exptime bytes zeroes h extra
          content chunks memory room some_bytes same size in
      let (get_handled, get_served, asked) =
        serve-key get key ParseState.s_get CmdType.cmd_get g can_alloc worker_thread_cnt last_fd' n
          0 zeroes [] [] (omega (arith, g.room, length-append (key_text get key) [])) in
      let (s', stored, found) =
        handle_request-set_get laws crc32_calc env works s (reply_state sent.task.state)
          (reply_state asked.task.state) sent.task.query_request asked.task.query_request content c
          w free sent.parse_status sent.cmd_type sent.same_content sent.data_size asked.parse_status
          asked.cmd_type (asked.same_key ∙ sym sent.same_key) small c_lt c_fits
          (subst (λ q. (e : ℤ) → bdb.get s.indexdb.dbp (fix_key q) ≢ failed e) (sym sent.same_key)
            readable) in
      (
        s',
        Answers-Finished bdb crc32_calc env k posix whole (worker_of worker_thread_cnt last_fd)
            sent.task s s' sock mc_set_done (set_connection last_fd extra chunks)
            (set_served ∙ ap ok sent.handled) sent.no_error stored,
        Answers-Finished bdb crc32_calc env k posix whole (worker_of worker_thread_cnt last_fd')
            asked.task s' s' sock' _ (get_connection last_fd') (get_served ∙ ap ok asked.handled)
            asked.no_error
            (subst
              (λ q. Answers (get_header q 0 (length content) ++ (content ++ line_end)) s' (
                handle_request bdb crc32_calc env (reply_state asked.task.state)
                  asked.task.query_request no_response s'))
              asked.same_key found),
      )
