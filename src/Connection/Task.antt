-- ===== src/Connection/Task.antt =====
-- src/assign_thread.c, include/query_thread.h: the task of a connection, and the changes of its state.
use linglongta.Prelude.{
  ℕ, zero, suc, ◌+◌, ◌-◌, ◌%◌, ◌^◌, Bool, true, false, ltb, if◌then◌else◌, ℤ, pos, negsuc,
}
use linglongta.Protocol.Commands.{QueryRequest}

-- enum query_state_e, up to where a task is handed to a worker
pub data QueryState : Type 0 where
  s_recv_req_head s_parse_req_head s_recv_req_data s_dispatch_query_task s_destroy_recv : QueryState
  s_do_sync s_do_power s_return_failed : QueryState

-- struct query_task_s as the assign thread uses it: whether there is an error log stands for its text.
pub record QueryTask : Type 0 where
  pub error_log : Bool
  pub state : QueryState
  pub have_read : ℕ
  pub need_read : ℤ
  pub query_request : QueryRequest

-- A piece of the code runs to its end, or an `assert` in it fails.
pub data Checked {ℓ} (A : Type ℓ) : Type ℓ where
  ok : A → Checked A
  assert_failed : Checked A

infixl 5 ◌>>=◌
abbrev pub ◌>>=◌ {ℓ κ} : {A : Type ℓ} {B : Type κ} → Checked A → (A → Checked B) → Checked B
ok a >>= f = f a
assert_failed >>= f = assert_failed

abbrev pub head_buf_size : ℕ
head_buf_size = 512

-- a - b of two `size_t`, which wraps around, as an `ssize_t`
unfoldable pub ssize_sub : ℕ → ℕ → ℤ
ssize_sub a b =
    let d = (a + (2 ^ 64 - b % 2 ^ 64)) % 2 ^ 64 in
    if ltb d (2 ^ 63) then pos d else negsuc (2 ^ 64 - 1 - d)

-- Log: only one message for a task.
unfoldable pub log : QueryTask → Checked QueryTask
log t = if t.error_log then assert_failed else ok (record t { error_log = true })

abbrev pub unless_logged : QueryTask → Checked QueryTask
unless_logged t = if t.error_log then assert_failed else ok t

abbrev pub is_zero : ℤ → Bool
is_zero (pos zero) = true
is_zero (pos (suc n)) = false
is_zero (negsuc n) = false

-- Where the buffer is full, the task is to be destroyed instead.
unfoldable pub more_head : QueryTask → Checked QueryTask
more_head t =
    if is_zero t.need_read
    then (log t >>= λ t'. ok (record t' { state = QueryState.s_destroy_recv }))
    else ok t

-- `data_size -= 2`: the line end behind the data is none of it.
unfoldable pub without_crlf : QueryRequest → QueryRequest
without_crlf r = record r { data_size = (r.data_size + 2 ^ 64 - 2) % 2 ^ 64 }

-- What `change_query_task_state` does once the new state is set.
unfoldable pub on_state : QueryState → QueryTask → Checked QueryTask
on_state QueryState.s_recv_req_head t =
    more_head (record t { need_read = ssize_sub head_buf_size t.have_read })
on_state QueryState.s_recv_req_data t = unless_logged t
on_state QueryState.s_parse_req_head t = ok t
on_state QueryState.s_dispatch_query_task t =
    unless_logged t >>= λ t'. ok (record t' { query_request = without_crlf t'.query_request })
on_state QueryState.s_destroy_recv t = ok t
on_state QueryState.s_return_failed t = if t.error_log then ok t else assert_failed
on_state QueryState.s_do_sync t = ok t
on_state QueryState.s_do_power t = ok t

unfoldable pub change_query_task_state : QueryState → QueryTask → Checked QueryTask
change_query_task_state new_state t = on_state new_state (record t { state = new_state })
