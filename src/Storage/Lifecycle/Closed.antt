-- ===== src/Storage/Lifecycle/Closed.antt =====
-- src/storage.c: what `close_storage` leaves in the data files.
use linglongta.Prelude.{
  ◌≢◌, ℕ, zero, suc, ◌+◌, ◌≤◌, ◌<◌, ◌≡◌, refl, ap, ◌∙◌, arith, true, ℤ, pos, update_self, update_ne,
  subst, dec_lt,
}
use linglongta.Storage.Types.{BlockFile, Env}
use linglongta.Storage.Files.{fd_open, sync_data_file_header}
use linglongta.Storage.Lifecycle.{Globals}
use linglongta.Storage.Lifecycle.Close.{close_file, close_loop}

-- The files from `i` on are closed, with the header of each written; the others are as before.
pub record Closed (env : Env) (rest i : ℕ) (g : Globals) (r : ℤ × ℕ × Globals) : Type 0 where
  pub ret : r.0 ≡ pos 0
  pub count : r.1 ≡ rest
  pub rest_same : r.2 ≡ record g { files = r.2.files; disk = r.2.disk }
  pub written :
      (j : ℕ)
      → i ≤ j
      → j < i + rest
      → r.2.disk j ≡ sync_data_file_header env j (g.files j) (g.disk j)
  pub before : (j : ℕ) → j < i → r.2.disk j ≡ g.disk j

close_file-Closed :
    (env : Env) (rest i : ℕ) (g : Globals) (r : ℤ × ℕ × Globals)
    → Closed env rest (i + 1) (close_file env i g) r
    → Closed env (suc rest) i g (r.0, r.1 + 1, r.2)
close_file-Closed env rest i g r next = record {
  ret = next.ret;
  count = omega (arith, next.count);
  rest_same = next.rest_same;
  written = λ j h k. elim (dec_lt i j) [
    | yes later ↦ next.written j (omega arith) (omega arith) ∙ later_file j later
    | no here ↦
        subst (λ n. r.2.disk n ≡ sync_data_file_header env n (g.files n) (g.disk n))
          (same i j h here) (next.before i (omega arith) ∙ update_self g.disk i _)
  ];
  before = λ j h. next.before j (omega arith) ∙ update_ne g.disk i j _ (λ e. omega (arith, e));
}
  where
    same : (n m : ℕ) → n ≤ m → ¬ (n < m) → n ≡ m
    same n m h k = omega arith

    other : (n m : ℕ) → n < m → n ≢ m
    other n m h e = omega (arith, e)

    later_file :
        (j : ℕ)
        → i < j
        → sync_data_file_header env j ((close_file env i g).files j) ((close_file env i g).disk j)
          ≡ sync_data_file_header env j (g.files j) (g.disk j)
    later_file j h =
        ap (λ f. sync_data_file_header env j f ((close_file env i g).disk j))
          (update_ne g.files i j _ (other i j h))
        ∙ ap (λ f. sync_data_file_header env j (g.files j) f) (update_ne g.disk i j _ (other i j h))

pub close_loop-Closed :
    (env : Env) (rest i : ℕ) (g : Globals)
    → ((j : ℕ) → i ≤ j → j < i + rest → fd_open (g.files j).fd ≡ true)
    → Closed env rest i g (close_loop env rest i g)
unfolding close_loop
close_loop-Closed env zero i g opened = record {
  ret = refl;
  count = refl;
  rest_same = refl;
  written = λ j h k. absurd (omega arith);
  before = λ j h. refl;
}
close_loop-Closed env (suc rest) i g opened = rw (opened i (omega arith) (omega arith)) (
    close_file-Closed env rest i g _ (
      close_loop-Closed env rest (i + 1) (close_file env i g) (λ j h k.
        ap (λ (f : BlockFile). fd_open f.fd) (update_ne g.files i j _ (λ e. omega (arith, e)))
        ∙ opened j (omega arith) (omega arith))))
