-- ===== src/Storage/Lifecycle/Created.antt =====
-- src/storage.c: what `open_data_files` makes where there are no data files.
use linglongta.Prelude.{
  ℕ, zero, suc, ◌+◌, ◌≤◌, ◌<◌, ◌≡◌, refl, ap, ◌∙◌, arith, true, false, ℤ, pos, update, update_self,
  update_ne, subst, dec_lt,
}
use linglongta.Storage.Sizes.{SizeTable}
use linglongta.Storage.Types.{BlockFile}
use linglongta.Storage.Lifecycle.{Globals}
use linglongta.Storage.Lifecycle.Open.{
  FileAnswers, is_fd, no_file, no_bytes, write_header, new_file, create_data_file, open_data_file,
  open_loop,
}

-- No data file `b` is there yet, and the kernel creates and writes it.
pub record CanCreate (a : FileAnswers) (g : Globals) (b : ℕ) : Type 0 where
  pub absent : g.present b ≡ false
  pub unused : g.files b ≡ no_file
  pub opens : is_fd (a.fd b) ≡ true
  pub writes : a.header_written b ≡ true

-- The block file of a new data file.
abbrev pub fresh_file : FileAnswers → SizeTable → ℕ → BlockFile
fresh_file a t b = record no_file { fd = a.fd b; block_size = t.block_size_array b }

after_create : FileAnswers → ℕ → Globals → Globals
after_create a b g = record g {
  files = update g.files b (new_file a b g);
  present = update g.present b true;
  disk = update g.disk b (write_header (new_file a b g) no_bytes);
}

open_data_file-after_create :
    (a : FileAnswers) (b : ℕ) (g : Globals)
    → CanCreate a g b
    → open_data_file a b g ≡ (pos 0, after_create a b g)
unfolding create_data_file after_create
open_data_file-after_create a b g can = rw can.absent (rw can.opens (rw can.writes refl))

-- The data files from `i` on are new, the others are as before, and so is all else.
pub record Created (a : FileAnswers) (rest i : ℕ) (g : Globals) (r : ℤ × Globals) : Type 0 where
  pub ret : r.0 ≡ pos 0
  pub rest_same : r.1 ≡ record g { files = r.1.files; present = r.1.present; disk = r.1.disk }
  pub file : (j : ℕ) → i ≤ j → j < i + rest → r.1.files j ≡ fresh_file a g.sizes j
  pub there : (j : ℕ) → i ≤ j → j < i + rest → r.1.present j ≡ true
  pub disk :
      (j : ℕ) → i ≤ j → j < i + rest → r.1.disk j ≡ write_header (fresh_file a g.sizes j) no_bytes
  pub file_before : (j : ℕ) → j < i → r.1.files j ≡ g.files j
  pub there_before : (j : ℕ) → j < i → r.1.present j ≡ g.present j
  pub disk_before : (j : ℕ) → j < i → r.1.disk j ≡ g.disk j

same_number : (n m : ℕ) → n ≤ m → ¬ (n < m) → n ≡ m
same_number n m h k = omega arith

new_file-fresh :
    (a : FileAnswers) (b : ℕ) (g : Globals)
    → g.files b ≡ no_file
    → new_file a b g ≡ fresh_file a g.sizes b
new_file-fresh a b g e =
    ap
      (λ (f : BlockFile). record f {
        fd = a.fd b;
        block_size = g.sizes.block_size_array b;
        block_cnt = 0;
        free_slots_cnt = 0;
      })
      e

after_create-Created :
    (a : FileAnswers) (rest i : ℕ) (g : Globals) (r : ℤ × Globals)
    → g.files i ≡ no_file
    → Created a rest (i + 1) (after_create a i g) r
    → Created a (suc rest) i g r
unfolding after_create
after_create-Created a rest i g r unused next = record {
  ret = next.ret;
  rest_same = next.rest_same;
  file = λ j h k. elim (dec_lt i j) [
    | yes later ↦ next.file j (omega arith) (omega arith)
    | no here ↦
        subst (λ n. r.1.files n ≡ fresh_file a g.sizes n) (same_number i j h here)
          (next.file_before i (omega arith) ∙ update_self g.files i _ ∙ new_file-fresh a i g unused)
  ];
  there = λ j h k. elim (dec_lt i j) [
    | yes later ↦ next.there j (omega arith) (omega arith)
    | no here ↦
        subst (λ n. r.1.present n ≡ true) (same_number i j h here)
          (next.there_before i (omega arith) ∙ update_self g.present i _)
  ];
  disk = λ j h k. elim (dec_lt i j) [
    | yes later ↦ next.disk j (omega arith) (omega arith)
    | no here ↦
        subst (λ n. r.1.disk n ≡ write_header (fresh_file a g.sizes n) no_bytes)
          (same_number i j h here)
          (next.disk_before i (omega arith)
            ∙ update_self g.disk i _
            ∙ ap (λ f. write_header f no_bytes) (new_file-fresh a i g unused))
  ];
  file_before =
      λ j h. next.file_before j (omega arith) ∙ update_ne g.files i j _ (λ e. omega (arith, e));
  there_before =
      λ j h. next.there_before j (omega arith) ∙ update_ne g.present i j _ (λ e. omega (arith, e));
  disk_before =
      λ j h. next.disk_before j (omega arith) ∙ update_ne g.disk i j _ (λ e. omega (arith, e));
}

later-CanCreate :
    (a : FileAnswers) (g : Globals) (i j : ℕ)
    → i < j
    → CanCreate a g j
    → CanCreate a (after_create a i g) j
unfolding after_create
later-CanCreate a g i j h c = record {
  absent = update_ne g.present i j _ (λ e. omega (arith, e)) ∙ c.absent;
  unused = update_ne g.files i j _ (λ e. omega (arith, e)) ∙ c.unused;
  opens = c.opens;
  writes = c.writes;
}

pub open_loop-Created :
    (a : FileAnswers) (rest i : ℕ) (g : Globals)
    → ((j : ℕ) → i ≤ j → j < i + rest → CanCreate a g j)
    → Created a rest i g (open_loop a rest i g)
unfolding open_loop
open_loop-Created a zero i g can = record {
  ret = refl;
  rest_same = refl;
  file = λ j h k. absurd (omega arith);
  there = λ j h k. absurd (omega arith);
  disk = λ j h k. absurd (omega arith);
  file_before = λ j h. refl;
  there_before = λ j h. refl;
  disk_before = λ j h. refl;
}
open_loop-Created a (suc rest) i g can =
    rw (open_data_file-after_create a i g (can i (omega arith) (omega arith))) (
      after_create-Created a rest i g _ (can i (omega arith) (omega arith)).unused (
        open_loop-Created a rest (i + 1) (after_create a i g)
          (λ j h k. later-CanCreate a g i j (omega arith) (can j (omega arith) (omega arith)))))
