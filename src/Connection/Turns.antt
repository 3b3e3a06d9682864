-- ===== src/Connection/Turns.antt =====
-- src/assign_thread.c: the workers that `dispatch_query_task` hands one task after the other to.
use native.Mathlib.Nat.{mod-lt, mod-eq_of_lt, mod_self, suc-mod}
use linglongta.Prelude.{
  ℕ, zero, suc, ◌+◌, ◌%◌, ◌<◌, ◌≤◌, ◌≡◌, sym, ap, ◌∙◌, arith, Bool, Bool-cases, true, inl, inr,
  Option, some, none, leb, if◌then◌else◌,
}
use linglongta.Connection.Handler.{worker_of}

-- The worker whose pipe is written to, and the next `last_fd`; a write that is not whole ends the process.
unfoldable pub dispatch_query_task :
    (worker_thread_cnt last_fd : ℕ) (is_whole : Bool) → Option (ℕ × ℕ)
dispatch_query_task worker_thread_cnt last_fd is_whole =
    if is_whole
    then some (worker_of worker_thread_cnt last_fd, worker_of worker_thread_cnt last_fd + 1)
    else none

-- `last_fd` after so many tasks, each of which went out; `new_assign_thread` sets it to 0.
unfoldable pub last_fd_after : (worker_thread_cnt tasks : ℕ) → ℕ
last_fd_after worker_thread_cnt zero = 0
last_fd_after worker_thread_cnt (suc n) =
    elim (dispatch_query_task worker_thread_cnt (last_fd_after worker_thread_cnt n) true) [
      | none ↦ 0
      | some (worker, last_fd) ↦ last_fd
    ]

worker_of-le : (k x : ℕ) → 0 < k → x ≤ k → worker_of k x ≡ x % k
unfolding worker_of
worker_of-le k x some_worker h = elim (Bool-cases (leb k x)) [
  | inl e ↦ rw e (sym (mod_self k) ∙ ap (λ y. y % k) (ground (arith, e)))
  | inr e ↦ rw e (sym (mod-eq_of_lt (ground (arith, e))))
]

worker_of_turn : (k n : ℕ) → 0 < k → worker_of k (last_fd_after k n) ≡ n % k
unfolding last_fd_after dispatch_query_task
worker_of_turn k zero some_worker = worker_of-le k 0 some_worker (omega arith)
worker_of_turn k (suc n) some_worker =
    ap (λ w. worker_of k (w + 1)) (worker_of_turn k n some_worker)
    ∙ worker_of-le k (n % k + 1) some_worker (omega (arith, mod-lt n some_worker))
    ∙ ap (λ y. y % k) (one_more (n % k))
    ∙ sym (suc-mod n k)
  where
    one_more : (y : ℕ) → y + 1 ≡ suc y
    one_more y = omega arith

-- The workers take turns: with at least one of them, the task after `n` others goes to the pipe of worker
-- `n` modulo their number, which is one of the pipes there are.
pub dispatch_query_task-last_fd_after :
    (worker_thread_cnt n : ℕ)
    → 0 < worker_thread_cnt
    → (dispatch_query_task worker_thread_cnt (last_fd_after worker_thread_cnt n) true
        ≡ some (n % worker_thread_cnt, n % worker_thread_cnt + 1))
      × (n % worker_thread_cnt < worker_thread_cnt)
unfolding dispatch_query_task
dispatch_query_task-last_fd_after k n some_worker =
    (ap (λ w. some (w, w + 1)) (worker_of_turn k n some_worker), mod-lt n some_worker)
