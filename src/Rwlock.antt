-- ===== src/Rwlock.antt =====
-- src/rwlock.c: the counters of `struct rwlock_t` and the sections that the calls run under its mutex.
pub mod Threads
pub mod Numbers
pub mod Safety
mod Tests
use linglongta.Prelude.{
  ℕ, ◌+◌, ◌-◌, ◌%◌, ◌^◌, Bool, Option, none, some, ◌&&◌, ◌||◌, ltb, ◌==◌, if◌then◌else◌,
}

pub record Lock : Type 0 where
  pub tobe_write_queue_len : ℕ
  pub write_queue_len : ℕ
  pub read_queue_len : ℕ

-- The counters are `size_t`.
abbrev pub inc : ℕ → ℕ
inc n = (n + 1) % 2 ^ 64

abbrev pub dec : ℕ → ℕ
dec n = (n + 2 ^ 64 - 1) % 2 ^ 64

-- `rwlock_build`, and the fields set by `rwlock_init` and `rwlock_new`
abbrev pub rwlock_build : Lock
rwlock_build = record { tobe_write_queue_len = 0; write_queue_len = 0; read_queue_len = 0 }

-- `rwlock_rdlock` up to its loop
abbrev pub rd_arrive : Lock → Lock
rd_arrive l = record l { read_queue_len = inc l.read_queue_len }

-- the test of its loop
abbrev pub rd_must_wait : Lock → Bool
rd_must_wait l = ltb 0 l.write_queue_len

abbrev pub unrdlock : Lock → Lock
unrdlock l = record l { read_queue_len = dec l.read_queue_len }

-- whether `rwlock_unrdlock` broadcasts, on the counters that it leaves
abbrev pub unrdlock_wakes : Lock → Bool
unrdlock_wakes l = l.read_queue_len == 0 && ltb 0 l.tobe_write_queue_len

-- `rwlock_wrlock` up to its loop
abbrev pub wr_arrive : Lock → Lock
wr_arrive l = record l { tobe_write_queue_len = inc l.tobe_write_queue_len }

abbrev pub wr_must_wait : Lock → Bool
wr_must_wait l = ltb 0 l.read_queue_len || ltb 0 l.write_queue_len

-- `rwlock_wrlock` after its loop
abbrev pub wr_take : Lock → Lock
wr_take l = record l {
  tobe_write_queue_len = dec l.tobe_write_queue_len;
  write_queue_len = inc l.write_queue_len;
}

abbrev pub unwrlock : Lock → Lock
unwrlock l = record l { write_queue_len = dec l.write_queue_len }

abbrev pub unwrlock_wakes : Lock → Bool
unwrlock_wakes l = ltb 0 l.read_queue_len || ltb 0 l.tobe_write_queue_len

-- The whole calls where no other thread acts in between; `none` waits for good.
unfoldable pub rdlock : Lock → Option Lock
rdlock l = if rd_must_wait (rd_arrive l) then none else some (rd_arrive l)

unfoldable pub wrlock : Lock → Option Lock
wrlock l = if wr_must_wait (wr_arrive l) then none else some (wr_take (wr_arrive l))
