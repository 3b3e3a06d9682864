-- ===== src/Rwlock/Tests.antt =====
-- The theorems on the lock in concrete states of two threads.
use linglongta.Prelude.{ℕ, zero, suc, ◌<◌, ◌≢◌, refl, arith, Bool, false, update}
use linglongta.Rwlock.{Lock, rd_arrive, wr_arrive}
use linglongta.Rwlock.Threads.{Phase, Move, rd_loop, wr_loop, System, roused, Step, start, Reach}
use linglongta.Rwlock.Safety.{can_run, Reach-exclusive, Reach-can_run}

abbrev stepped : System → ℕ → Lock × Phase → Bool → System
stepped s i r wakes = record { lock = r.0; phase = roused wakes (update s.phase i r.1) }

-- thread 0 writes, and thread 1 waits to read
abbrev one_writes : System
one_writes = stepped start 0 (wr_loop (wr_arrive start.lock)) false

abbrev reader_waits : System
reader_waits = stepped one_writes 1 (rd_loop (rd_arrive one_writes.lock)) false

reader_waits-Reach : Reach 2 reader_waits
unfolding wr_loop rd_loop
reader_waits-Reach =
    Reach.next
      (Reach.next Reach.init (Step.run 0 Phase.idle _ false (omega arith) refl Move.ask_write))
      (Step.run 1 Phase.idle _ false (omega arith) refl Move.ask_read)

-- thread 0 reads, and thread 1 waits to write
abbrev one_reads : System
one_reads = stepped start 0 (rd_loop (rd_arrive start.lock)) false

abbrev writer_waits : System
writer_waits = stepped one_reads 1 (wr_loop (wr_arrive one_reads.lock)) false

writer_waits-Reach : Reach 2 writer_waits
unfolding wr_loop rd_loop
writer_waits-Reach =
    Reach.next
      (Reach.next Reach.init (Step.run 0 Phase.idle _ false (omega arith) refl Move.ask_read))
      (Step.run 1 Phase.idle _ false (omega arith) refl Move.ask_write)

none_writes : (j : ℕ) → j < 2 → writer_waits.phase j ≢ Phase.writing
unfolding wr_loop rd_loop
none_writes zero h e = cc
none_writes (suc zero) h e = cc
none_writes (suc (suc j)) h e = absurd (omega arith)

Reach-exclusive_example :
    (reader_waits.phase 1 ≢ Phase.writing) × (reader_waits.phase 1 ≢ Phase.reading)
unfolding wr_loop rd_loop
Reach-exclusive_example =
    Reach-exclusive 2 (omega arith) reader_waits reader_waits-Reach 0 1 (omega arith) (omega arith)
      (λ e. cc) refl

Reach-can_run_example : (j : ℕ) × (j < 2) × (0 < can_run (reader_waits.phase j))
unfolding wr_loop rd_loop
Reach-can_run_example =
    Reach-can_run 2 (omega arith) reader_waits reader_waits-Reach 1 (omega arith) (λ e. cc)
