-- ===== src/Connection/Buffers.antt =====
-- src/assign_thread.c: the buffers that reads fill, and the search for the end of the head.
use linglongta.Prelude.{
  ℕ, zero, suc, ◌+◌, ◌≡◌, ◌≢◌, refl, sym, ap, ◌∙◌, arith, some, List, [], ◌∷◌, ◌++◌, append-nil,
  length, All, take-append, drop,
}
use linglongta.Protocol.CString.{c_string}
use linglongta.Protocol.Head.{find_crlf}
use linglongta.Protocol.Words.{line_end}
use linglongta.Connection.Receive.{store_at}

pub c_string-append : (s r : List ℕ) → All (λ c. c ≢ 0) s → c_string (s ++ r) ≡ s ++ c_string r
unfolding c_string
c_string-append [] r h = refl
c_string-append (c ∷ s) r (hc, h) = ground (arith, c_string-append s r h)

pub find_crlf-line :
    (s r : List ℕ) → All (λ c. c ≢ b'\r') s → find_crlf (s ++ (line_end ++ r)) ≡ some (length s)
unfolding find_crlf
find_crlf-line [] r h = refl
find_crlf-line (c ∷ s) r (hc, h) = ground (arith, find_crlf-line s r h)

pub drop-append_more : (s r : List ℕ) (k : ℕ) → drop (length s + k) (s ++ r) ≡ drop k r
drop-append_more [] r k = ap (λ n. drop n r) (none_first k)
  where
    none_first : (n : ℕ) → 0 + n ≡ n
    none_first n = omega arith
drop-append_more (c ∷ s) r k =
    ap (λ n. drop n (c ∷ (s ++ r))) (one_first (length s) k) ∙ drop-append_more s r k
  where
    one_first : (n m : ℕ) → suc n + m ≡ suc (n + m)
    one_first n m = omega arith

pub store_at-append :
    (s r : List ℕ) (bs : List ℕ) → store_at (length s) bs (s ++ r) ≡ s ++ (bs ++ drop (length bs) r)
unfolding store_at
store_at-append s r bs = cc (take-append (length s) s r refl, drop-append_more s r (length bs))

drop-nil : (k : ℕ) → drop {A = ℕ} k [] ≡ []
drop-nil zero = refl
drop-nil (suc k) = refl

-- Bytes that are written at the end.
pub store_at_end : (s bs : List ℕ) → store_at (length s) bs s ≡ s ++ bs
store_at_end s bs =
    ap (store_at (length s) bs) (sym (append-nil s))
    ∙ store_at-append s [] bs
    ∙ ap (λ l. s ++ (bs ++ l)) (drop-nil (length bs))
    ∙ ap (λ l. s ++ l) (append-nil bs)
