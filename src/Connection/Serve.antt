-- ===== src/Connection/Serve.antt =====
-- src/assign_thread.c: a set command on a connection, whole.
use linglongta.Prelude.{
  ℕ, suc, ◌+◌, ◌-◌, ◌≤◌, ◌≡◌, refl, sym, ap, ◌∙◌, arith, Bool, true, inl, inr, some, List, ◌∷◌,
  ◌++◌, append-nil, map, length, subst, length-append, All, pos,
}
use linglongta.Protocol.Words.{line_end}
use linglongta.Protocol.Numbers.{numeral_value}
use linglongta.Connection.Task.{QueryTask, Checked, ok, without_crlf, ◌>>=◌, ssize_sub}
use linglongta.Connection.Receive.{got, with_crlf, after_set_head}
use linglongta.Connection.Handler.{
  Handled, worker_of, go_on, ran, query_io_event_handler, next_event, serve, do_accept_connection,
}
use linglongta.Connection.SetHead.{IsSetCommand, set_text}
use linglongta.Connection.Data.{Dispatched, to_worker, at_worker}
use linglongta.Connection.Chunks.{concat, NotEmpty, serve-map, nothing_more, less_or_more}
use linglongta.Connection.Accept.{IsSent, accepted, do_accept_connection_lem}
use linglongta.Connection.Sent.{
  headed, set_event, headed-Receiving, as-IsSent, with_crlf_lem, left_of, nothing_left,
  after_head_more, after_head_all,
}

module _ (can_alloc : ℕ → Bool) (worker_thread_cnt last_fd n : ℕ)
    (cmd key flag exptime bytes zeroes : List ℕ) (h : IsSetCommand cmd key flag exptime bytes) where
  -- the connection over its first bytes and the pieces behind them
  abbrev pub served : List ℕ → List (List ℕ) → QueryTask → Handled
  served extra chunks t =
      serve can_alloc worker_thread_cnt last_fd (suc (length chunks)) (suc (suc (suc (suc n)))) t
        (got (set_text cmd key flag exptime bytes ++ extra) ∷ map got chunks)

  at_first :
      (extra : List ℕ) (chunks : List (List ℕ))
      → can_alloc (with_crlf (numeral_value bytes)) ≡ true
      → length (set_text cmd key flag exptime bytes ++ extra) ≤ 512
      → served extra chunks (accepted zeroes)
        ≡ next_event can_alloc worker_thread_cnt last_fd
            (serve can_alloc worker_thread_cnt last_fd (length chunks) (suc (suc (suc (suc n)))))
            (go_on can_alloc worker_thread_cnt last_fd
              (query_io_event_handler can_alloc worker_thread_cnt last_fd (suc (suc n)))
              (
                ran (
                    after_set_head (
                      headed can_alloc worker_thread_cnt last_fd cmd key flag exptime bytes zeroes h
                        extra)),
                map got chunks,
              ))
  unfolding serve
  at_first extra chunks memory room =
      ap
        (next_event can_alloc worker_thread_cnt last_fd
          (serve can_alloc worker_thread_cnt last_fd (length chunks) (suc (suc (suc (suc n))))))
        (set_event can_alloc worker_thread_cnt last_fd cmd key flag exptime bytes zeroes h
          (suc (suc n)) extra (map got chunks) memory room)

  abbrev head_task : List ℕ → QueryTask
  head_task = headed can_alloc worker_thread_cnt last_fd cmd key flag exptime bytes zeroes h

  after_first :
      (extra : List ℕ) (chunks : List (List ℕ)) (res : Checked (QueryTask × Bool))
      → can_alloc (with_crlf (numeral_value bytes)) ≡ true
      → length (set_text cmd key flag exptime bytes ++ extra) ≤ 512
      → after_set_head (head_task extra) ≡ res
      → Dispatched
          (worker_of worker_thread_cnt last_fd)
          (head_task extra).query_request
          (extra ++ concat chunks)
          (next_event can_alloc worker_thread_cnt last_fd
            (serve can_alloc worker_thread_cnt last_fd (length chunks) (suc (suc (suc (suc n)))))
            (go_on can_alloc worker_thread_cnt last_fd
              (query_io_event_handler can_alloc worker_thread_cnt last_fd (suc (suc n)))
              (ran res, map got chunks)))
      → Dispatched
          (worker_of worker_thread_cnt last_fd)
          (head_task extra).query_request
          (extra ++ concat chunks)
          (served extra chunks (accepted zeroes))
  after_first extra chunks res memory room e d =
      subst
        (Dispatched (worker_of worker_thread_cnt last_fd) (head_task extra).query_request
          (extra ++ concat chunks))
        (sym (
          at_first extra chunks memory room
          ∙ ap
              (λ r.
                next_event can_alloc worker_thread_cnt last_fd
                  (serve can_alloc worker_thread_cnt last_fd (length chunks)
                    (suc (suc (suc (suc n)))))
                  (go_on can_alloc worker_thread_cnt last_fd
                    (query_io_event_handler can_alloc worker_thread_cnt last_fd (suc (suc n)))
                    (ran r, map got chunks)))
              e))
        d

  to_read :
      (extra : List ℕ) (m : ℕ)
      → length extra + suc m ≡ numeral_value bytes + 2
      → (head_task extra).need_read ≡ pos (suc m)
  to_read extra m e =
      ap (λ k. ssize_sub k (length extra)) (with_crlf_lem (numeral_value bytes) h.bytes_fit)
      ∙ left_of (numeral_value bytes + 2) (length extra) h.bytes_fit (omega arith)
      ∙ ap pos (omega arith)

  nothing_to_read :
      (extra : List ℕ)
      → length extra ≡ numeral_value bytes + 2
      → (head_task extra).need_read ≡ pos 0
  nothing_to_read extra e =
      ap (λ k. ssize_sub k (length extra)) (with_crlf_lem (numeral_value bytes) h.bytes_fit ∙ sym e)
      ∙ nothing_left (length extra) (omega (arith, e, h.bytes_fit))

  served-Dispatched :
      (extra : List ℕ) (chunks : List (List ℕ))
      → can_alloc (with_crlf (numeral_value bytes)) ≡ true
      → length (set_text cmd key flag exptime bytes ++ extra) ≤ 512
      → All NotEmpty chunks
      → length extra + length (concat chunks) ≡ numeral_value bytes + 2
      → Dispatched
          (worker_of worker_thread_cnt last_fd)
          (headed can_alloc worker_thread_cnt last_fd cmd key flag exptime bytes zeroes h
            extra).query_request
          (extra ++ concat chunks)
          (served extra chunks (accepted zeroes))
  served-Dispatched extra chunks memory room some_bytes total =
      elim (less_or_more (length extra) (numeral_value bytes + 2)) [
        | inl less ↦
            let m = numeral_value bytes + 1 - length extra in
            let e = to_read extra m (omega arith) in
            after_first extra chunks _ memory room (after_head_more (head_task extra) m e refl) (
              serve-map can_alloc worker_thread_cnt last_fd (suc (suc n)) chunks _ extra m
                (headed-Receiving can_alloc worker_thread_cnt last_fd cmd key flag exptime bytes
                  zeroes h extra m e)
                some_bytes (omega arith))
        | inr more ↦
            after_first extra chunks _ memory room
              (after_head_all (head_task extra) (nothing_to_read extra (omega arith))
                ∙ to_worker can_alloc worker_thread_cnt last_fd (head_task extra) refl)
              (record {
                task = _;
                handled =
                    ap
                      (next_event can_alloc worker_thread_cnt last_fd (
                        serve can_alloc worker_thread_cnt last_fd (length chunks)
                          (suc (suc (suc (suc n))))))
                      (at_worker can_alloc worker_thread_cnt last_fd (suc n) _ (map got chunks)
                        refl);
                no_error = refl;
                request =
                    ap
                      (λ l.
                        without_crlf
                          (record ((head_task extra).query_request) { content = some l }))
                      (sym (append-nil extra)
                        ∙ ap (λ l. extra ++ l)
                            (sym (
                              nothing_more extra chunks some_bytes
                                (omega (arith, length-append extra (concat chunks))))));
              })
      ]

  -- On a new connection with memory for the data, a set command arrives, whose data has the length that it
  -- announces. Its line has 511 bytes at most and no carriage return but the last, its key has 250 bytes at
  -- most, its flags and expiry time are below 2^31, its size with the 2 bytes of the line end is below
  -- 2^63, and its numbers are decimal. Whatever part of the data comes with the line, in a first read of
  -- 512 bytes at most, and in whatever pieces the rest comes: the task goes to the worker whose turn it is,
  -- with no error, and its request is the set command, with its key and numbers, the size announced and the
  -- data with its line end.
  pub serve-set :
      (extra content : List ℕ) (chunks : List (List ℕ))
      → can_alloc (numeral_value bytes + 2) ≡ true
      → length (set_text cmd key flag exptime bytes ++ extra) ≤ 512
      → All NotEmpty chunks
      → extra ++ concat chunks ≡ content ++ line_end
      → length content ≡ numeral_value bytes
      → (handled : Handled) × ((do_accept_connection zeroes >>= λ t. ok (served extra chunks t))
          ≡ ok handled)
        × IsSent
            (worker_of worker_thread_cnt last_fd)
            key
            content
            (numeral_value flag)
            (numeral_value exptime)
            handled
  serve-set extra content chunks memory room some_bytes same size = (
    served extra chunks (accepted zeroes),
    ap (λ t. t >>= λ t'. ok (served extra chunks t')) (do_accept_connection_lem zeroes),
    as-IsSent can_alloc worker_thread_cnt last_fd cmd key flag exptime bytes zeroes h extra
        (concat chunks) content _ same size
        (served-Dispatched extra chunks
          (ap can_alloc (with_crlf_lem (numeral_value bytes) h.bytes_fit) ∙ memory) room some_bytes
          (sym (length-append extra (concat chunks))
            ∙ ap length same
            ∙ length-append content line_end
            ∙ ap (λ k. k + 2) size)),
  )
