-- ===== src/Storage/Lifecycle/Loaded.antt =====
-- src/storage.c: what `open_data_files` makes of data files that are there.
use linglongta.Prelude.{
  ℕ, zero, suc, ◌+◌, ◌≤◌, ◌<◌, ◌≡◌, refl, ◌∙◌, arith, true, le→leb, ℤ, pos, negsuc, update,
  update_self, update_ne, subst, dec_lt,
}
use linglongta.Storage.Types.{data_section_pos}
use linglongta.Storage.Files.{fd_open}
use linglongta.Storage.Lifecycle.{Globals}
use linglongta.Storage.Lifecycle.Open.{
  FileAnswers, is_fd, header_of, load_data_file, open_data_file, open_loop,
}

-- The data file of block type `b` is there with a whole header, and the kernel opens and reads it.
pub record CanLoad (a : FileAnswers) (g : Globals) (b : ℕ) : Type 0 where
  pub present : g.present b ≡ true
  pub accessible : a.accessible b ≡ true
  pub opens : fd_open (a.fd b) ≡ true
  pub read : a.header_read b ≡ true
  pub long : data_section_pos ≤ (g.disk b).size

pub fd_open-is_fd : (fd : ℤ) → fd_open fd ≡ true → is_fd fd ≡ true
fd_open-is_fd (pos n) e = refl
fd_open-is_fd (negsuc n) e = cc

after_load : FileAnswers → ℕ → Globals → Globals
after_load a b g = record g { files = update g.files b (header_of (a.fd b) (g.disk b)) }

open_data_file-eq :
    (a : FileAnswers) (b : ℕ) (g : Globals)
    → CanLoad a g b
    → open_data_file a b g ≡ (pos 0, after_load a b g)
unfolding load_data_file after_load
open_data_file-eq a b g can = rw can.present (
    rw can.accessible (
      rw (fd_open-is_fd (a.fd b) can.opens)
        (rw can.read (rw (le→leb data_section_pos (g.disk b).size can.long) refl))))

CanLoad-after_load :
    (a : FileAnswers) (g : Globals) (i b : ℕ) → CanLoad a g b → CanLoad a (after_load a i g) b
unfolding after_load
CanLoad-after_load a g i b c = record {
  present = c.present;
  accessible = c.accessible;
  opens = c.opens;
  read = c.read;
  long = c.long;
}

-- The block files from `i` on are loaded, the others are as before, and so is all else.
pub record Loaded (a : FileAnswers) (rest i : ℕ) (g : Globals) (r : ℤ × Globals) : Type 0 where
  pub ret : r.0 ≡ pos 0
  pub rest_same : r.1 ≡ record g { files = r.1.files }
  pub read : (j : ℕ) → i ≤ j → j < i + rest → r.1.files j ≡ header_of (a.fd j) (g.disk j)
  pub before : (j : ℕ) → j < i → r.1.files j ≡ g.files j

after_load-Loaded :
    (a : FileAnswers) (rest i : ℕ) (g : Globals) (r : ℤ × Globals)
    → Loaded a rest (i + 1) (after_load a i g) r
    → Loaded a (suc rest) i g r
unfolding after_load
after_load-Loaded a rest i g r next = record {
  ret = next.ret;
  rest_same = next.rest_same;
  read = λ j h k. elim (dec_lt i j) [
    | yes later ↦ next.read j (omega arith) (omega arith)
    | no here ↦
        subst (λ n. r.1.files n ≡ header_of (a.fd n) (g.disk n)) (same i j h here)
          (next.before i (omega arith) ∙ update_self g.files i _)
  ];
  before = λ j h. next.before j (omega arith) ∙ update_ne g.files i j _ (λ e. omega (arith, e));
}
  where
    same : (n m : ℕ) → n ≤ m → ¬ (n < m) → n ≡ m
    same n m h k = omega arith

pub open_loop-Loaded :
    (a : FileAnswers) (rest i : ℕ) (g : Globals)
    → ((j : ℕ) → i ≤ j → j < i + rest → CanLoad a g j)
    → Loaded a rest i g (open_loop a rest i g)
unfolding open_loop
open_loop-Loaded a zero i g can = record {
  ret = refl;
  rest_same = refl;
  read = λ j h k. absurd (omega arith);
  before = λ j h. refl;
}
open_loop-Loaded a (suc rest) i g can =
    rw (open_data_file-eq a i g (can i (omega arith) (omega arith))) (
      after_load-Loaded a rest i g _ (
        open_loop-Loaded a rest (i + 1) (after_load a i g)
          (λ j h k. CanLoad-after_load a g i j (can j (omega arith) (omega arith)))))
