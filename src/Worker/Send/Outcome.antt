-- ===== src/Worker/Send/Outcome.antt =====
-- src/query_thread.c: what `send_response` puts on the socket, whatever the kernel answers.
use linglongta.Prelude.{
  lt→ne_zero, ℕ, ◌==◌, ◌+◌, ◌^◌, ◌<◌, ◌≤◌, ◌≡◌, ◌⊎◌, inl, inr, refl, sym, ap, ◌∙◌, arith, true,
  Option, if◌then◌else◌, none, some, List, [], ◌∷◌, ◌++◌, append-nil, length, length-append,
  length-take_le, subst, take, take_all, pos,
}
use linglongta.Storage.Types.{Run, aborted}
use linglongta.Worker.Reply.{QueryResponse, sent_bytes}
use linglongta.Worker.Send.{
  Socket, Iovec, Kernel, Sent, set_block, net_write, net_writev, gathered, total, all_sent,
  check_written, send_data, send_head, send_response,
}
use linglongta.Worker.Send.Writes.{IsPosix, AllSent, PartSent, Outcome, check_written-Outcome}

-- A response whose data are in their buffer, with sizes below 2 ^ 63 bytes.
pub record IsResponse (r : QueryResponse) : Type 0 where
  pub head_fits : length r.resp_head_buf < 2 ^ 63
  pub in_buffer : (d : List ℕ) → r.resp_data_buf ≡ some d → r.resp_data_size ≤ length d
  pub tailor_bytes : (l : List ℕ) → r.resp_tailor_buf ≡ some l → 0 < length l
  pub data_fits : r.resp_data_size < 2 ^ 62
  pub tailor_fits : (l : List ℕ) → r.resp_tailor_buf ≡ some l → length l < 2 ^ 62

-- The data that follow the head, for a buffer of data and one behind them.
abbrev data_of : Option (List ℕ) → Option (List ℕ) → ℕ → List ℕ
data_of o t size = elim o [ none ↦ [] | some d ↦ take size d ++ elim t [ none ↦ [] | some l ↦ l ] ]

abbrev send_buffers : Kernel → QueryResponse → Socket → Option (List ℕ) → Option (List ℕ) → Run Sent
send_buffers k r s o t = elim o [
  | none ↦ all_sent r s
  | some d ↦ elim t [
    | none ↦ check_written r.resp_data_size r (all_sent r) (net_write k d r.resp_data_size s)
    | some l ↦
        if length l == 0
        then aborted
        else check_written (r.resp_data_size + length l) r (all_sent r) (
            net_writev k
              (record { iov_base = d; iov_len = r.resp_data_size }
                ∷ record { iov_base = l; iov_len = length l }
                ∷ [])
              s)
  ]
]

all_sent-Outcome : (k : Kernel) (r : QueryResponse) (s : Socket) → Outcome k r s [] (all_sent r s)
all_sent-Outcome k r s = inl (record { socket = s; ends = refl; taken = sym (append-nil s.taken) })

abbrev two : (d l : List ℕ) → ℕ → List Iovec
two d l size =
    record { iov_base = d; iov_len = size } ∷ record { iov_base = l; iov_len = length l } ∷ []

sum_fits : (a b : ℕ) → a < 2 ^ 62 → b < 2 ^ 62 → a + b < 2 ^ 63
sum_fits a b h g = omega arith

same_sum : (a b : ℕ) → a + (b + 0) ≡ a + b
same_sum a b = omega arith

at_most : (a b j : ℕ) → j ≤ a + (b + 0) → j ≤ a + b
at_most a b j h = omega arith

both_taken : (n : ℕ) (d l : List ℕ) → take (n + length l) (gathered (two d l n)) ≡ take n d ++ l
both_taken n d l =
    ap (λ m. take (n + length l) (take n d ++ m))
      (append-nil (take (length l) l) ∙ take_all (length l) l (omega arith))
    ∙ take_all (n + length l) (take n d ++ l)
        (omega (arith, length-append (take n d) l, length-take_le n d))

send_buffers-Outcome :
    (k : Kernel) (r : QueryResponse) (s : Socket) (o t : Option (List ℕ))
    → IsPosix k
    → r.resp_data_size < 2 ^ 62
    → ((l : List ℕ) → t ≡ some l → 0 < length l)
    → ((l : List ℕ) → t ≡ some l → length l < 2 ^ 62)
    → Outcome k r s (data_of o t r.resp_data_size) (send_buffers k r s o t)
unfolding net_write net_writev
send_buffers-Outcome k r s none t p small some_byte fits = all_sent-Outcome k r s
send_buffers-Outcome k r s (some d) none p small some_byte fits =
    check_written-Outcome k (k.write s r.resp_data_size) r (all_sent r) s d [] r.resp_data_size
      (omega arith) (p.takes_at_most s r.resp_data_size) (λ q. (s, r.resp_data_size, q))
      (all_sent-Outcome k r)
send_buffers-Outcome k r s (some d) (some l) p small some_byte fits =
    rw (lt→ne_zero (length l) (some_byte l refl)) (
      subst
        (λ b. Outcome k r s b (
          check_written (r.resp_data_size + length l) r (all_sent r)
            (net_writev k (two d l r.resp_data_size) s)))
        (append-nil _ ∙ both_taken r.resp_data_size d l)
        (check_written-Outcome k (k.write s (total (two d l r.resp_data_size))) r (all_sent r) s
          (gathered (two d l r.resp_data_size)) [] (r.resp_data_size + length l)
          (sum_fits r.resp_data_size (length l) small (fits l refl))
          (λ j e. at_most _ _ j (p.takes_at_most s _ j e))
          (λ q. (s, _, λ h. q (h ∙ ap pos (same_sum r.resp_data_size (length l)))))
          (all_sent-Outcome k r)))

send_head-Outcome :
    (k : Kernel) (r : QueryResponse) (s : Socket)
    → IsPosix k
    → IsResponse r
    → Outcome k r s (sent_bytes r) (send_head k r s)
unfolding send_data sent_bytes net_write
send_head-Outcome k r s p h =
    subst
      (λ b.
        Outcome k r s (b ++ data_of r.resp_data_buf r.resp_tailor_buf r.resp_data_size)
          (send_head k r s))
      (take_all (length r.resp_head_buf) r.resp_head_buf (omega arith))
      (check_written-Outcome k (k.write s (length r.resp_head_buf)) r (send_data k r) s
        r.resp_head_buf (data_of r.resp_data_buf r.resp_tailor_buf r.resp_data_size)
        (length r.resp_head_buf) h.head_fits (p.takes_at_most s (length r.resp_head_buf))
        (λ q. (s, _, q))
        (λ s'.
          send_buffers-Outcome k r s' r.resp_data_buf r.resp_tailor_buf p h.data_fits h.tailor_bytes
            h.tailor_fits))

pub send_response-blocking :
    (k : Kernel) (r : QueryResponse) (s : Socket)
    → IsPosix k
    → send_response k r s ≡ send_head k r (record s { is_blocking = true })
unfolding send_response set_block
send_response-blocking k r s p = rw p.getfl_works (rw p.setfl_works refl)

-- The socket has no other bytes in blocking mode.
behind_block :
    {k : Kernel} {r : QueryResponse} {s : Socket} {bytes : List ℕ} {res : Run Sent}
    → Outcome k r (record s { is_blocking = true }) bytes res
    → Outcome k r s bytes res
behind_block (inl a) = inl (record { socket = a.socket; ends = a.ends; taken = a.taken })
behind_block (inr a) = inr (record {
  socket = a.socket;
  ends = a.ends;
  gone = a.gone;
  rest = a.rest;
  taken = a.taken;
  parts = a.parts;
  short = a.short;
})

-- Whatever a POSIX kernel takes of each write, for a response whose sizes are those of its buffers: either
-- `send_response` returns RET_SUCCESS and has put on the socket the head, the data and the line end behind
-- them, all of them and in this order; or a write has taken less than it was given, what has gone is a first
-- part of these bytes, and it logs the error and returns RET_FAILED if the task had no error log, while a
-- second log fails an assert.
pub send_response-sent_bytes :
    (k : Kernel) (r : QueryResponse) (s : Socket)
    → IsPosix k
    → IsResponse r
    → AllSent r s (sent_bytes r) (send_response k r s)
      ⊎ PartSent k r s (sent_bytes r) (send_response k r s)
send_response-sent_bytes k r s p h =
    subst (Outcome k r s (sent_bytes r)) (sym (send_response-blocking k r s p))
      (behind_block (send_head-Outcome k r (record s { is_blocking = true }) p h))

-- A kernel that takes all bytes of each write: `send_response` puts all bytes of the response on the socket.
pub send_response-all :
    (k : Kernel) (r : QueryResponse) (s : Socket)
    → IsPosix k
    → IsResponse r
    → ((s' : Socket) (n : ℕ) → k.write s' n ≡ pos n)
    → AllSent r s (sent_bytes r) (send_response k r s)
send_response-all k r s p h works = elim (send_response-sent_bytes k r s p h) [
  | inl a ↦ a
  | inr a ↦ absurd (a.short.2 (works a.short.0 a.short.1))
]
