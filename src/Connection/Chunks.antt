-- ===== src/Connection/Chunks.antt =====
-- src/assign_thread.c: the data of a set command in as many pieces as the network makes of it.
use linglongta.Prelude.{
  Bool, ℕ, suc, ◌-◌, ◌<◌, ◌≤◌, ◌≡◌, refl, sym, ap, ◌∙◌, arith, inl, inr, ◌⊎◌, some, List, [], ◌∷◌,
  ◌++◌, append_assoc, append-nil, map, length, subst, length-append, All,
}
use linglongta.Connection.Task.{QueryTask, without_crlf}
use linglongta.Connection.Receive.{NetRead, got}
use linglongta.Connection.Handler.{Handled, query_io_event_handler, next_event, serve, worker_of}
use linglongta.Connection.Data.{Receiving, Dispatched, part_arrives, last_arrives}

abbrev pub concat : List (List ℕ) → List ℕ
concat [] = []
concat (c ∷ chunks) = c ++ concat chunks

abbrev pub NotEmpty : List ℕ → Type 0
NotEmpty c = 0 < length c

pub less_or_more : (a b : ℕ) → (a < b) ⊎ (b ≤ a)
less_or_more a b = ground arith

pub nothing_more :
    (c : List ℕ) (chunks : List (List ℕ))
    → All NotEmpty chunks
    → length (c ++ concat chunks) ≤ length c
    → concat chunks ≡ []
nothing_more c [] h le = refl
nothing_more c (d ∷ chunks) (hd, h) le =
    absurd
      (omega (arith, hd, le, length-append c (d ++ concat chunks), length-append d (concat chunks)))

module _ (can_alloc : ℕ → Bool) (worker_thread_cnt last_fd n : ℕ) where
  with_first :
      (t t' : QueryTask) (sofar c rest : List ℕ) (h : Handled)
      → t'.query_request ≡ record (t.query_request) { content = some (sofar ++ c) }
      → Dispatched (worker_of worker_thread_cnt last_fd) t'.query_request ((sofar ++ c) ++ rest) h
      → Dispatched (worker_of worker_thread_cnt last_fd) t.query_request (sofar ++ (c ++ rest)) h
  with_first t t' sofar c rest h e d = record {
    task = d.task;
    handled = d.handled;
    no_error = d.no_error;
    request =
        d.request
        ∙ ap (λ r. without_crlf (record r { content = some ((sofar ++ c) ++ rest) })) e
        ∙ ap (λ l. without_crlf (record (t.query_request) { content = some l }))
            (append_assoc sofar c rest);
  }

  left : (a b : ℕ) → b < suc a → suc a - b ≡ suc (a - b)
  left a b lt = omega arith

  -- what the handler does at the first event, and what follows from there
  as_event :
      (c : List ℕ) (chunks : List (List ℕ)) (t : QueryTask) (sofar : List ℕ)
      (now : Handled × List NetRead)
      → now
        ≡ query_io_event_handler can_alloc worker_thread_cnt last_fd
            (suc (suc n))
            t
            (got c ∷ map got chunks)
      → Dispatched
          (worker_of worker_thread_cnt last_fd)
          t.query_request
          (sofar ++ concat (c ∷ chunks))
          (next_event can_alloc worker_thread_cnt last_fd
            (serve can_alloc worker_thread_cnt last_fd (length chunks) (suc (suc n)))
            now)
      → Dispatched
          (worker_of worker_thread_cnt last_fd)
          t.query_request
          (sofar ++ concat (c ∷ chunks))
          (serve can_alloc worker_thread_cnt last_fd
            (length (c ∷ chunks))
            (suc (suc n))
            t
            (map got (c ∷ chunks)))
  unfolding serve
  as_event c chunks t sofar now e d =
      subst
        (λ p.
          Dispatched (worker_of worker_thread_cnt last_fd) t.query_request
            (sofar ++ concat (c ∷ chunks))
            (next_event can_alloc worker_thread_cnt last_fd
              (serve can_alloc worker_thread_cnt last_fd (length chunks) (suc (suc n))) p))
        e d

  pub serve-map :
      (chunks : List (List ℕ)) (t : QueryTask) (sofar : List ℕ) (m : ℕ)
      → Receiving t sofar (suc m)
      → All NotEmpty chunks
      → length (concat chunks) ≡ suc m
      → Dispatched (worker_of worker_thread_cnt last_fd) t.query_request (sofar ++ concat chunks) (
          serve can_alloc worker_thread_cnt last_fd
            (length chunks)
            (suc (suc n))
            t
            (map got chunks))
  unfolding serve
  serve-map [] t sofar m h some_bytes total = absurd (omega (arith, total))
  serve-map (c ∷ chunks) t sofar m h (hc, some_bytes) total =
      elim (less_or_more (length c) (suc m)) [
        | inl less ↦
            let (t', runs, h', e) =
              part_arrives can_alloc worker_thread_cnt last_fd (suc n) t sofar c m (map got chunks)
                h hc less in
            as_event c chunks t sofar _ (sym runs) (
              with_first t t' sofar c (concat chunks) _ e (
                serve-map chunks t' (sofar ++ c) (m - length c)
                  (subst (Receiving t' (sofar ++ c)) (left m (length c) less) h') some_bytes
                  (omega (arith, total, less, length-append c (concat chunks)))))
        | inr more ↦
            let (t', runs, no_error, e) =
              last_arrives can_alloc worker_thread_cnt last_fd n t sofar c m (map got chunks) h
                (omega (arith, total, more, length-append c (concat chunks))) in
            as_event c chunks t sofar _ (sym runs) (record {
              task = t';
              handled = refl;
              no_error = no_error;
              request =
                  e
                  ∙ ap
                      (λ l. without_crlf (record (t.query_request) { content = some (sofar ++ l) }))
                      (sym (append-nil c)
                        ∙ ap (λ l. c ++ l)
                            (sym (nothing_more c chunks some_bytes (omega (arith, total, more)))));
            })
      ]
