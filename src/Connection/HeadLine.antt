-- ===== src/Connection/HeadLine.antt =====
-- src/assign_thread.c: a head that has come whole, up to what the parser makes of it.
use linglongta.Prelude.{
  ℕ, ◌+◌, ◌-◌, ◌≤◌, ◌≡◌, ◌≢◌, sym, ap, ◌∙◌, arith, Bool, some, List, [], ◌∷◌, ◌++◌, append_assoc,
  length, length-append, All, All-append, take, drop, le→leb,
}
use linglongta.Protocol.CString.{c_string}
use linglongta.Protocol.Commands.{QueryRequest}
use linglongta.Protocol.Head.{
  find_crlf, parse_memcached_string_head, try_parse_memcached_string_head,
}
use linglongta.Protocol.Words.{line_end}
use linglongta.Connection.Buffers.{c_string-append, find_crlf-line, store_at-append}
use linglongta.Connection.Task.{QueryTask}
use linglongta.Connection.Receive.{
  store_at, on_parsed, parse_found, parse_head_at, parse_query_request_head,
}

-- A line with no NUL and no carriage return in it, and the text that has a line end behind it.
module _ (line text : List ℕ) (same : text ≡ line ++ line_end) (no_nul : All (λ c. c ≢ 0) line)
    (no_return : All (λ c. c ≢ b'\r') line) where
  pub length-text : length text ≡ length line + 2
  length-text = ap length same ∙ length-append line line_end

  -- Where the head ends, whatever stands behind it.
  found : (r : List ℕ) → find_crlf (c_string (text ++ r)) ≡ some (length line)
  found r =
      ap (λ s. find_crlf (c_string (s ++ r))) same
      ∙ ap find_crlf (
          c_string-append (line ++ line_end) r
            (All-append (λ c. c ≢ 0) line line_end no_nul (omega arith))
          ∙ append_assoc line line_end (c_string r))
      ∙ find_crlf-line line (c_string r) no_return

  -- What came behind it.
  abbrev pub behind_head : QueryTask → List ℕ
  behind_head t =
      take (t.have_read - (length line + 2)) (drop (length line + 2) t.query_request.query_head_buf)

  -- the request that goes to the parser
  abbrev pub cut_request : QueryRequest → List ℕ → QueryRequest
  cut_request r behind = record r {
    query_head_buf_size = length line + 2;
    query_head_buf = text ++ 0 ∷ drop 1 behind;
  }

  cut_request_lem :
      (r : QueryRequest) (behind : List ℕ)
      → r.query_head_buf ≡ text ++ behind
      → record r {
        query_head_buf_size = length line + 2;
        query_head_buf = store_at (length line + 2) (0 ∷ []) r.query_head_buf;
      }
        ≡ cut_request r behind
  cut_request_lem r behind e =
      ap (λ b. record r { query_head_buf_size = length line + 2; query_head_buf = b })
        (ap (λ n. store_at n (0 ∷ []) r.query_head_buf) (sym length-text)
          ∙ ap (store_at (length text) (0 ∷ [])) e
          ∙ store_at-append text behind (0 ∷ []))

  parse_head_at-line :
      (can_alloc : ℕ → Bool) (t : QueryTask) (behind : List ℕ)
      → t.query_request.query_head_buf ≡ text ++ behind
      → length line + 2 ≤ t.have_read
      → parse_head_at can_alloc (length line + 2) t
        ≡ on_parsed can_alloc
            (behind_head t)
            (parse_memcached_string_head (cut_request t.query_request behind))
            t
  unfolding parse_head_at
  parse_head_at-line can_alloc t behind e n = rw (le→leb (length line + 2) t.have_read n) (
      ap (λ r. on_parsed can_alloc (behind_head t) (parse_memcached_string_head r) t)
        (cut_request_lem t.query_request behind e))

  pub parse_query_request_head-line :
      (can_alloc : ℕ → Bool) (t : QueryTask) (behind : List ℕ)
      → t.query_request.query_head_buf ≡ text ++ behind
      → length text ≤ t.have_read
      → parse_query_request_head can_alloc t
        ≡ on_parsed can_alloc
            (behind_head t)
            (parse_memcached_string_head (cut_request t.query_request behind))
            t
  unfolding parse_query_request_head try_parse_memcached_string_head
  parse_query_request_head-line can_alloc t behind e n =
      ap (λ b. parse_found can_alloc t (find_crlf (c_string b))) e
      ∙ ap (parse_found can_alloc t) (found behind)
      ∙ parse_head_at-line can_alloc t behind e (omega (arith, length-text))
