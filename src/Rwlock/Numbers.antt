-- ===== src/Rwlock/Numbers.antt =====
-- src/rwlock.c: the counters of the lock against the numbers of threads in each phase, under one step.
use linglongta.Prelude.{ℕ, ◌+◌, ◌^◌, ◌<◌, ◌≤◌, ◌≡◌, arith, Bool, true, false, Bool-cases, inl, inr}
use linglongta.Rwlock.{
  Lock, rd_arrive, rd_must_wait, wr_arrive, wr_must_wait, unrdlock, unrdlock_wakes, unwrlock,
  unwrlock_wakes,
}
use linglongta.Rwlock.Threads.{Phase, Move, rd_loop, wr_loop}

-- What a thread counts for: a reader (waiting or reading), a waiting writer, a writer, a reader that
-- reads, a reader asleep, a writer asleep.
abbrev pub is_reader : Phase → ℕ
is_reader Phase.rd_asleep = 1
is_reader Phase.rd_awake = 1
is_reader Phase.reading = 1
is_reader _ = 0

abbrev pub is_waiting_writer : Phase → ℕ
is_waiting_writer Phase.wr_asleep = 1
is_waiting_writer Phase.wr_awake = 1
is_waiting_writer _ = 0

abbrev pub is_writing : Phase → ℕ
is_writing Phase.writing = 1
is_writing _ = 0

abbrev pub is_reading : Phase → ℕ
is_reading Phase.reading = 1
is_reading _ = 0

abbrev pub is_rd_asleep : Phase → ℕ
is_rd_asleep Phase.rd_asleep = 1
is_rd_asleep _ = 0

abbrev pub is_wr_asleep : Phase → ℕ
is_wr_asleep Phase.wr_asleep = 1
is_wr_asleep _ = 0

-- The numbers of threads of each kind.
pub record Census : Type 0 where
  pub readers : ℕ
  pub waiting_writers : ℕ
  pub writing : ℕ
  pub reading : ℕ
  pub rd_asleep : ℕ
  pub wr_asleep : ℕ

-- The counters are right, readers and a writer exclude each other, and whoever sleeps is owed a
-- broadcast by a thread that holds the lock or is about to.
pub record Agrees (l : Lock) (c : Census) : Type 0 where
  pub read_queue : l.read_queue_len ≡ c.readers
  pub tobe_write_queue : l.tobe_write_queue_len ≡ c.waiting_writers
  pub write_queue : l.write_queue_len ≡ c.writing
  pub one_writer : c.writing ≤ 1
  pub exclusive : 0 < c.writing → c.reading ≡ 0
  pub readers_called : 0 < c.rd_asleep → 0 < c.writing
  pub writers_called : 0 < c.wr_asleep → 0 < c.readers + c.writing

-- One thread goes from `p` to `q`.
pub record Moved (p q : Phase) (c d : Census) : Type 0 where
  pub readers : d.readers + is_reader p ≡ c.readers + is_reader q
  pub waiting_writers :
      d.waiting_writers + is_waiting_writer p ≡ c.waiting_writers + is_waiting_writer q
  pub writing : d.writing + is_writing p ≡ c.writing + is_writing q
  pub reading : d.reading + is_reading p ≡ c.reading + is_reading q
  pub rd_asleep : d.rd_asleep + is_rd_asleep p ≡ c.rd_asleep + is_rd_asleep q
  pub wr_asleep : d.wr_asleep + is_wr_asleep p ≡ c.wr_asleep + is_wr_asleep q

-- the census after a broadcast
abbrev pub after : Bool → Census → Census
after true c = record c { rd_asleep = 0; wr_asleep = 0 }
after false c = c

-- Less than 2^64 threads use the lock, and each thread counts where its phase says.
pub record Counted (c : Census) : Type 0 where
  pub few_readers : c.readers < 2 ^ 64
  pub few_writers : c.waiting_writers < 2 ^ 64
  pub reading_le : c.reading ≤ c.readers
  pub rd_asleep_le : c.rd_asleep ≤ c.readers
  pub wr_asleep_le : c.wr_asleep ≤ c.waiting_writers

module _ (l : Lock) (c : Census) (a : Agrees l c) (d : Census) (before : Counted c)
    (now : Counted d) where
  ask_read-Agrees :
      Moved Phase.idle (rd_loop (rd_arrive l)).1 c d → Agrees (rd_loop (rd_arrive l)).0 d
  unfolding rd_loop
  ask_read-Agrees = elim (Bool-cases (rd_must_wait (rd_arrive l))) [
    | inl waits ↦ rw waits (λ m. ground arith)
    | inr enters ↦ rw enters (λ m. ground arith)
  ]

  read_again-Agrees : Moved Phase.rd_awake (rd_loop l).1 c d → Agrees (rd_loop l).0 d
  unfolding rd_loop
  read_again-Agrees = elim (Bool-cases (rd_must_wait l)) [
    | inl waits ↦ rw waits (λ m. ground arith)
    | inr enters ↦ rw enters (λ m. ground arith)
  ]

  ask_write-Agrees :
      Moved Phase.idle (wr_loop (wr_arrive l)).1 c d → Agrees (wr_loop (wr_arrive l)).0 d
  unfolding wr_loop
  ask_write-Agrees = elim (Bool-cases (wr_must_wait (wr_arrive l))) [
    | inl waits ↦ rw waits (λ m. ground arith)
    | inr enters ↦ rw enters (λ m. ground arith)
  ]

  write_again-Agrees : Moved Phase.wr_awake (wr_loop l).1 c d → Agrees (wr_loop l).0 d
  unfolding wr_loop
  write_again-Agrees = elim (Bool-cases (wr_must_wait l)) [
    | inl waits ↦ rw waits (λ m. ground arith)
    | inr enters ↦ rw enters (λ m. ground arith)
  ]

  end_read-Agrees :
      Moved Phase.reading Phase.idle c d
      → Agrees (unrdlock l) (after (unrdlock_wakes (unrdlock l)) d)
  end_read-Agrees m = elim (Bool-cases (unrdlock_wakes (unrdlock l))) [
    | inl wakes ↦ rw wakes (ground arith)
    | inr silent ↦ rw silent (ground arith)
  ]

  end_write-Agrees :
      Moved Phase.writing Phase.idle c d
      → Agrees (unwrlock l) (after (unwrlock_wakes (unwrlock l)) d)
  end_write-Agrees m = elim (Bool-cases (unwrlock_wakes (unwrlock l))) [
    | inl wakes ↦ rw wakes (ground arith)
    | inr silent ↦ rw silent (ground arith)
  ]

  -- One section of one thread keeps the counters, the exclusion and the debts right.
  pub Move-Agrees :
      (p : Phase) (r : Lock × Phase) (wakes : Bool)
      → Move l p r wakes
      → Moved p r.1 c d
      → Agrees r.0 (after wakes d)
  Move-Agrees p r wakes Move.ask_read m = ask_read-Agrees m
  Move-Agrees p r wakes Move.read_again m = read_again-Agrees m
  Move-Agrees p r wakes Move.end_read m = end_read-Agrees m
  Move-Agrees p r wakes Move.ask_write m = ask_write-Agrees m
  Move-Agrees p r wakes Move.write_again m = write_again-Agrees m
  Move-Agrees p r wakes Move.end_write m = end_write-Agrees m
  Move-Agrees p r wakes Move.rd_spurious m = ground arith
  Move-Agrees p r wakes Move.wr_spurious m = ground arith
