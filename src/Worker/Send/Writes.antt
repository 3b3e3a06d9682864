-- ===== src/Worker/Send/Writes.antt =====
-- src/query_thread.c: a write of `send_response`, and what comes of the number of bytes that it takes.
use linglongta.Prelude.{
  pos_inj, negsuc_ne_pos, ℕ, zero, suc, ◌==◌, ◌^◌, ◌<◌, ◌≤◌, ◌≡◌, ◌≢◌, ◌⊎◌, inl, inr, refl, sym, ap,
  ◌∙◌, arith, true, false, Bool-cases, List, [], ◌∷◌, ◌++◌, append_assoc, append-nil, take,
  take-drop, drop, ℤ, pos, negsuc,
}
use linglongta.Protocol.Head.{RetCode}
use linglongta.Storage.Types.{Run, done}
use linglongta.Worker.Reply.{QueryResponse}
use linglongta.Worker.Send.{
  Socket, Kernel, Sent, is_negative, as_ssize, same_ssize, wrote, send_failed, check_written,
}

-- What the kernel documents: `fcntl` works on an open socket, and a write takes no more than it is given.
pub record IsPosix (k : Kernel) : Type 0 where
  pub getfl_works : is_negative k.getfl ≡ false
  pub setfl_works : is_negative k.setfl ≡ false
  pub takes_at_most : (s : Socket) (n j : ℕ) → k.write s n ≡ pos j → j ≤ n

-- Some write takes less than it is given.
abbrev pub IsShort : Kernel → Type 0
IsShort k = (s : Socket) × (n : ℕ) × (k.write s n ≢ pos n)

-- All bytes have gone.
pub record AllSent (r : QueryResponse) (s : Socket) (bytes : List ℕ) (res : Run Sent) : Type 0 where
  pub socket : Socket
  pub ends : res ≡ done (record { retval = RetCode.ret_success; response = r; socket = socket })
  pub taken : socket.taken ≡ s.taken ++ bytes

-- A part of them has gone: the process goes on with the error in the log, if there was none in it before.
pub record PartSent (k : Kernel) (r : QueryResponse) (s : Socket) (bytes : List ℕ) (res : Run Sent)
    : Type 0 where
  pub socket : Socket
  pub ends : res ≡ send_failed r socket
  pub gone : List ℕ
  pub rest : List ℕ
  pub taken : socket.taken ≡ s.taken ++ gone
  pub parts : gone ++ rest ≡ bytes
  pub short : IsShort k

abbrev pub Outcome :
    (k : Kernel) (r : QueryResponse) (s : Socket) (bytes : List ℕ) (res : Run Sent) → Type 0
Outcome k r s bytes res = AllSent r s bytes res ⊎ PartSent k r s bytes res

pub as_ssize-pos : (n : ℕ) → n < 2 ^ 63 → as_ssize n ≡ pos n
unfolding as_ssize
as_ssize-pos n lt = ground arith

take-take_le : (j n : ℕ) (l : List ℕ) → j ≤ n → take j (take n l) ≡ take j l
take-take_le zero n l h = refl
take-take_le (suc j) zero l h = absurd (omega arith)
take-take_le (suc j) (suc n) [] h = refl
take-take_le (suc j) (suc n) (c ∷ l) h = ap (λ m. c ∷ m) (take-take_le j n l (omega arith))

same_ssize-false :
    (n j : ℕ) → (j == n) ≡ false → n < 2 ^ 63 → same_ssize (pos j) (as_ssize n) ≡ false
unfolding same_ssize
same_ssize-false n j e lt = ap (λ z. same_ssize (pos j) z) (as_ssize-pos n lt) ∙ e

same_ssize-true : (n j : ℕ) → (j == n) ≡ true → n < 2 ^ 63 → same_ssize (pos j) (as_ssize n) ≡ true
unfolding same_ssize
same_ssize-true n j e lt = ap (λ z. same_ssize (pos j) z) (as_ssize-pos n lt) ∙ e

same_ssize-negsuc : (n j : ℕ) → n < 2 ^ 63 → same_ssize (negsuc j) (as_ssize n) ≡ false
unfolding same_ssize
same_ssize-negsuc n j lt = ap (λ z. same_ssize (negsuc j) z) (as_ssize-pos n lt)

other : (j n : ℕ) → (j == n) ≡ false → j ≢ n
other j n e q = ground (arith, e, q)

-- What was sent in front of the rest.
behind_buf :
    (k : Kernel) (r : QueryResponse) (s s' : Socket) (buf behind : List ℕ) (res : Run Sent)
    → s'.taken ≡ s.taken ++ buf
    → Outcome k r s' behind res
    → Outcome k r s (buf ++ behind) res
behind_buf k r s s' buf behind res e (inl a) = inl (record {
  socket = a.socket;
  ends = a.ends;
  taken = a.taken ∙ ap (λ l. l ++ behind) e ∙ append_assoc s.taken buf behind;
})
behind_buf k r s s' buf behind res e (inr a) = inr (record {
  socket = a.socket;
  ends = a.ends;
  gone = buf ++ a.gone;
  rest = a.rest;
  taken = a.taken ∙ ap (λ l. l ++ a.gone) e ∙ append_assoc s.taken buf a.gone;
  parts = append_assoc buf a.gone a.rest ∙ ap (λ l. buf ++ l) a.parts;
  short = a.short;
})

-- A write of a buffer, and what the code does about the number of bytes that went.
pub check_written-Outcome :
    (k : Kernel) (z : ℤ) (r : QueryResponse) (next : Socket → Run Sent) (s : Socket)
    (buf behind : List ℕ) (count : ℕ)
    → count < 2 ^ 63
    → ((j : ℕ) → z ≡ pos j → j ≤ count)
    → (z ≢ pos count → IsShort k)
    → ((s' : Socket) → Outcome k r s' behind (next s'))
    → Outcome k r s (take count buf ++ behind) (check_written count r next (wrote z buf s))
unfolding check_written wrote
check_written-Outcome k (pos j) r next s buf behind count fits most short follows =
    elim (Bool-cases (j == count)) [
      | inl e ↦ rw (same_ssize-true count j e fits) (
          behind_buf k r s _ (take count buf) behind _
            (ap (λ n. s.taken ++ take n buf) (ground (arith, e))) (follows _))
      | inr e ↦ rw (same_ssize-false count j e fits) (
          inr (record {
            socket = _;
            ends = refl;
            gone = take j buf;
            rest = drop j (take count buf) ++ behind;
            taken = refl;
            parts =
                sym (append_assoc (take j buf) (drop j (take count buf)) behind)
                ∙ ap (λ l. (l ++ drop j (take count buf)) ++ behind)
                    (sym (take-take_le j count buf (most j refl)))
                ∙ ap (λ l. l ++ behind) (take-drop j (take count buf));
            short = short λ q. other j count e (pos_inj q);
          }))
    ]
check_written-Outcome k (negsuc j) r next s buf behind count fits most short follows =
    rw (same_ssize-negsuc count j fits) (
      inr (record {
        socket = _;
        ends = refl;
        gone = [];
        rest = take count buf ++ behind;
        taken = sym (append-nil s.taken);
        parts = refl;
        short = short λ q. negsuc_ne_pos j count q;
      }))
