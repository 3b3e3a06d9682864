-- ===== src/Rwlock/Safety.antt =====
-- src/rwlock.c: what holds of any number of threads below 2^64 in every state that they can reach.
use linglongta.Prelude.{
  ℕ, ◌^◌, ◌<◌, ◌≤◌, ◌≡◌, ◌≢◌, refl, sym, ap, ◌∙◌, arith, Bool, true, false, subst, update, count,
  count-update, count-le, count-ge, count-ge_two, count-pos, count-same, count-none, count_mono,
  dec_lt,
}
use linglongta.Rwlock.{Lock, rd_arrive}
use linglongta.Rwlock.Threads.{Phase, awaken, System, roused, Step, start, Reach, rd_loop}
use linglongta.Rwlock.Numbers.{
  is_reader, is_waiting_writer, is_writing, is_reading, is_rd_asleep, is_wr_asleep, Census, Agrees,
  Moved, after, Counted, Move-Agrees,
}

abbrev pub census : ℕ → (ℕ → Phase) → Census
census n f = record {
  readers = count is_reader n f;
  waiting_writers = count is_waiting_writer n f;
  writing = count is_writing n f;
  reading = count is_reading n f;
  rd_asleep = count is_rd_asleep n f;
  wr_asleep = count is_wr_asleep n f;
}

is_reader-le : (p : Phase) → is_reader p ≤ 1
is_reader-le p = ground arith

is_waiting_writer-le : (p : Phase) → is_waiting_writer p ≤ 1
is_waiting_writer-le p = ground arith

reading-le : (p : Phase) → is_reading p ≤ is_reader p
reading-le p = ground arith

rd_asleep-le : (p : Phase) → is_rd_asleep p ≤ is_reader p
rd_asleep-le p = ground arith

wr_asleep-le : (p : Phase) → is_wr_asleep p ≤ is_waiting_writer p
wr_asleep-le p = ground arith

-- a broadcast only ends sleep
reader-awaken : (p : Phase) → is_reader (awaken p) ≡ is_reader p
reader-awaken p = ground arith

waiting_writer-awaken : (p : Phase) → is_waiting_writer (awaken p) ≡ is_waiting_writer p
waiting_writer-awaken p = ground arith

writing-awaken : (p : Phase) → is_writing (awaken p) ≡ is_writing p
writing-awaken p = ground arith

reading-awaken : (p : Phase) → is_reading (awaken p) ≡ is_reading p
reading-awaken p = ground arith

rd_asleep-awaken : (p : Phase) → is_rd_asleep (awaken p) ≡ 0
rd_asleep-awaken p = ground arith

wr_asleep-awaken : (p : Phase) → is_wr_asleep (awaken p) ≡ 0
wr_asleep-awaken p = ground arith

-- A thread that its scheduler can run on: past its wait, or holding the lock.
abbrev pub can_run : Phase → ℕ
can_run Phase.rd_awake = 1
can_run Phase.reading = 1
can_run Phase.wr_awake = 1
can_run Phase.writing = 1
can_run _ = 0

writing-le-can_run : (p : Phase) → is_writing p ≤ can_run p
writing-le-can_run p = ground arith

reader_awake : (p : Phase) → 0 < is_reader p → is_rd_asleep p ≡ 0 → 0 < can_run p
reader_awake p h e = ground arith

not_asleep : (p : Phase) → p ≢ Phase.idle → is_rd_asleep p ≡ 0 → is_wr_asleep p ≡ 0 → 0 < can_run p
not_asleep p ne r w = ground arith

module _ (n : ℕ) (few : n < 2 ^ 64) where
  census-Counted : (f : ℕ → Phase) → Counted (census n f)
  census-Counted f = record {
    few_readers = omega (arith, count-le is_reader is_reader-le n f);
    few_writers = omega (arith, count-le is_waiting_writer is_waiting_writer-le n f);
    reading_le = count_mono is_reading is_reader reading-le n f;
    rd_asleep_le = count_mono is_rd_asleep is_reader rd_asleep-le n f;
    wr_asleep_le = count_mono is_wr_asleep is_waiting_writer wr_asleep-le n f;
  }

  census-Moved :
      (f : ℕ → Phase) (i : ℕ) (q : Phase)
      → i < n
      → Moved (f i) q (census n f) (census n (update f i q))
  census-Moved f i q lt = record {
    readers = count-update is_reader n f i q lt;
    waiting_writers = count-update is_waiting_writer n f i q lt;
    writing = count-update is_writing n f i q lt;
    reading = count-update is_reading n f i q lt;
    rd_asleep = count-update is_rd_asleep n f i q lt;
    wr_asleep = count-update is_wr_asleep n f i q lt;
  }

  roused-Agrees :
      (l : Lock) (wakes : Bool) (f : ℕ → Phase)
      → Agrees l (after wakes (census n f))
      → Agrees l (census n (roused wakes f))
  roused-Agrees l false f a = a
  roused-Agrees l true f a = record {
    read_queue = a.read_queue ∙ sym readers;
    tobe_write_queue =
        a.tobe_write_queue ∙ sym (count-same is_waiting_writer awaken waiting_writer-awaken n f);
    write_queue = a.write_queue ∙ sym writing;
    one_writer = omega (arith, a.one_writer, writing);
    exclusive = λ h. reading ∙ a.exclusive (omega (arith, writing));
    readers_called =
        λ h. absurd (omega (arith, count-none is_rd_asleep awaken rd_asleep-awaken n f));
    writers_called =
        λ h. absurd (omega (arith, count-none is_wr_asleep awaken wr_asleep-awaken n f));
  }
    where
      readers : count is_reader n (λ i. awaken (f i)) ≡ count is_reader n f
      readers = count-same is_reader awaken reader-awaken n f

      writing : count is_writing n (λ i. awaken (f i)) ≡ count is_writing n f
      writing = count-same is_writing awaken writing-awaken n f

      reading : count is_reading n (λ i. awaken (f i)) ≡ count is_reading n f
      reading = count-same is_reading awaken reading-awaken n f

  Step-Agrees :
      (s t : System)
      → Step n s t
      → Agrees s.lock (census n s.phase)
      → Agrees t.lock (census n t.phase)
  Step-Agrees s t (Step.run i p r wakes lt at move) a =
      roused-Agrees r.0 wakes (update s.phase i r.1) (
        Move-Agrees s.lock (census n s.phase) a (census n (update s.phase i r.1)) (census-Counted _)
          (census-Counted _) p r wakes move
          (subst (λ x. Moved x r.1 (census n s.phase) (census n (update s.phase i r.1))) at
            (census-Moved s.phase i r.1 lt)))

  start-Agrees : Agrees start.lock (census n start.phase)
  start-Agrees = record {
    read_queue = sym (none_of is_reader refl);
    tobe_write_queue = sym (none_of is_waiting_writer refl);
    write_queue = sym (none_of is_writing refl);
    one_writer = omega (arith, none_of is_writing refl);
    exclusive = λ h. none_of is_reading refl;
    readers_called = λ h. absurd (omega (arith, none_of is_rd_asleep refl));
    writers_called = λ h. absurd (omega (arith, none_of is_wr_asleep refl));
  }
    where
      none_of : (w : Phase → ℕ) → w Phase.idle ≡ 0 → count w n start.phase ≡ 0
      none_of w e = count-none w (λ _. Phase.idle) (λ _. e) n start.phase

  -- In every state that n threads reach, the counters of the lock are the numbers of threads that read
  -- or wait to, that wait to write, and that write.
  pub Reach-Agrees : (s : System) → Reach n s → Agrees s.lock (census n s.phase)
  Reach-Agrees s Reach.init = start-Agrees
  Reach-Agrees t (Reach.next {s} r step) = Step-Agrees s t step (Reach-Agrees s r)

  -- While a thread writes, no other thread writes or reads, whatever the order of the steps.
  pub Reach-exclusive :
      (s : System)
      → Reach n s
      → (i j : ℕ) → i < n
      → j < n
      → i ≢ j
      → s.phase i ≡ Phase.writing
      → (s.phase j ≢ Phase.writing) × (s.phase j ≢ Phase.reading)
  Reach-exclusive s r i j hi hj ne w = (
    λ v. absurd (
        omega (
          arith,
          count-ge_two is_writing n s.phase i j hi hj ne,
          ap is_writing w,
          ap is_writing v,
          a.one_writer,
        )),
    λ v. absurd (
        omega (
          arith,
          count-ge is_writing n s.phase i hi,
          ap is_writing w,
          count-ge is_reading n s.phase j hj,
          ap is_reading v,
          a.exclusive (omega (arith, count-ge is_writing n s.phase i hi, ap is_writing w)),
        )),
  )
    where
      a : Agrees s.lock (census n s.phase)
      a = Reach-Agrees s r

  -- No wakeup is lost: in every state that n threads reach, if some thread is not outside the lock, then
  -- some thread holds the lock or is awake, so that not all that wait are asleep for good.
  pub Reach-can_run :
      (s : System)
      → Reach n s
      → (i : ℕ) → i < n
      → s.phase i ≢ Phase.idle
      → (j : ℕ) × (j < n) × (0 < can_run (s.phase j))
  Reach-can_run s r i lt busy = elim (dec_lt 0 (count is_writing n s.phase)) [
    | yes some_writes ↦
        let (j, lt', h) = count-pos is_writing n s.phase some_writes in
        (j, lt', omega (arith, writing-le-can_run (s.phase j)))
    | no none_writes ↦ elim (dec_lt 0 (count is_wr_asleep n s.phase)) [
      | yes sleeps ↦
          let (j, lt', h) =
            count-pos is_reader n s.phase (omega (arith, a.writers_called sleeps)) in
          (j, lt', reader_awake (s.phase j) h (readers_up none_writes j lt'))
      | no none_sleeps ↦ (
        i,
        lt,
        not_asleep (s.phase i) busy (readers_up none_writes i lt)
            (omega (arith, count-ge is_wr_asleep n s.phase i lt)),
      )
    ]
  ]
    where
      a : Agrees s.lock (census n s.phase)
      a = Reach-Agrees s r

      readers_up :
          ¬ (0 < count is_writing n s.phase) → (k : ℕ) → k < n → is_rd_asleep (s.phase k) ≡ 0
      readers_up none_writes k h = elim (dec_lt 0 (count is_rd_asleep n s.phase)) [
        | yes sleeps ↦ absurd (none_writes (a.readers_called sleeps))
        | no none_sleeps ↦ omega (arith, count-ge is_rd_asleep n s.phase k h)
      ]

  -- Readers go first: in a state that n threads reach in which no thread writes, a call of
  -- `rwlock_rdlock` by another thread returns at once, even if writers wait.
  pub Reach-reader_first :
      (s : System)
      → Reach n s
      → ((j : ℕ) → j < n → s.phase j ≢ Phase.writing)
      → (rd_loop (rd_arrive s.lock)).1 ≡ Phase.reading
  unfolding rd_loop
  Reach-reader_first s r none_writes = elim (dec_lt 0 (count is_writing n s.phase)) [
    | yes some_writes ↦
        let (j, lt, h) = count-pos is_writing n s.phase some_writes in
        absurd (none_writes j lt (must_write (s.phase j) h))
    | no no_writer ↦ ground (arith, (Reach-Agrees s r).write_queue)
  ]
    where
      must_write : (p : Phase) → 0 < is_writing p → p ≡ Phase.writing
      must_write p h = ground arith
