-- ===== src/Rwlock/Threads.antt =====
-- src/rwlock.c: threads that call the lock, interleaved in any order. A step is one section that a
-- thread runs under the mutex: from a call, or from waking up, to the next wait or the return.
use linglongta.Prelude.{ℕ, ◌<◌, ◌≡◌, Bool, true, false, if◌then◌else◌, update}
use linglongta.Rwlock.{
  Lock, rwlock_build, rd_arrive, rd_must_wait, wr_arrive, wr_must_wait, wr_take, unrdlock,
  unrdlock_wakes, unwrlock, unwrlock_wakes,
}

-- Where a thread is: outside, in `pthread_cond_wait` of a loop (asleep), woken up but not yet past the
-- test of the loop (awake), or between a lock and its unlock.
pub data Phase : Type 0 where
  idle rd_asleep rd_awake reading wr_asleep wr_awake writing : Phase

-- the loop of `rwlock_rdlock` from its test on
unfoldable pub rd_loop : Lock → Lock × Phase
rd_loop l = if rd_must_wait l then (l, Phase.rd_asleep) else (l, Phase.reading)

-- the loop of `rwlock_wrlock` from its test on, with the two updates behind it
unfoldable pub wr_loop : Lock → Lock × Phase
wr_loop l = if wr_must_wait l then (l, Phase.wr_asleep) else (wr_take l, Phase.writing)

-- One section of a thread, with what it leaves and whether it broadcasts. A thread may also wake up
-- without a broadcast.
pub data Move (l : Lock) : Phase → Lock × Phase → Bool → Type 0 where
  ask_read : Move l Phase.idle (rd_loop (rd_arrive l)) false
  read_again : Move l Phase.rd_awake (rd_loop l) false
  end_read : Move l Phase.reading (unrdlock l, Phase.idle) (unrdlock_wakes (unrdlock l))
  ask_write : Move l Phase.idle (wr_loop (wr_arrive l)) false
  write_again : Move l Phase.wr_awake (wr_loop l) false
  end_write : Move l Phase.writing (unwrlock l, Phase.idle) (unwrlock_wakes (unwrlock l))
  rd_spurious : Move l Phase.rd_asleep (l, Phase.rd_awake) false
  wr_spurious : Move l Phase.wr_asleep (l, Phase.wr_awake) false

-- `pthread_cond_broadcast` on one thread
abbrev pub awaken : Phase → Phase
awaken Phase.rd_asleep = Phase.rd_awake
awaken Phase.wr_asleep = Phase.wr_awake
awaken p = p

pub record System : Type 0 where
  pub lock : Lock
  pub phase : ℕ → Phase

abbrev pub roused : Bool → (ℕ → Phase) → ℕ → Phase
roused true f i = awaken (f i)
roused false f i = f i

pub data Step (n : ℕ) (s : System) : System → Type 0 where
  run :
      (i : ℕ) (p : Phase) (r : Lock × Phase) (wakes : Bool)
      → i < n
      → s.phase i ≡ p
      → Move s.lock p r wakes
      → Step n s (record { lock = r.0; phase = roused wakes (update s.phase i r.1) })

-- No thread holds or asks for the lock.
abbrev pub start : System
start = record { lock = rwlock_build; phase = λ _. Phase.idle }

pub data Reach (n : ℕ) : System → Type 0 where
  init : Reach n start
  next : {s t : System} → Reach n s → Step n s t → Reach n t
