-- ===== src/Connection/Listen.antt =====
-- src/assign_thread.c: the socket that listens, and the connections that come in there.
use linglongta.Prelude.{ℕ, Bool, List, [], ◌∷◌, if◌then◌else◌, ℤ, pos, negsuc}
use linglongta.Connection.Task.{QueryTask, Checked, ok, is_zero, ◌>>=◌}
use linglongta.Connection.Handler.{do_accept_connection}
use linglongta.Worker.Send.{is_negative}

-- What the kernel answers while the socket is set up: the descriptor, and the codes of the calls on it.
pub record ListenAnswers : Type 0 where
  pub socket : ℤ
  pub set_nonblock : ℤ
  pub bind : ℤ
  pub listen : ℤ

abbrev pub listen_failed : ℤ
listen_failed = negsuc 0

-- Once there is a socket: an error leaves it open.
abbrev pub set_up : ListenAnswers → ℕ → ℤ × List ℕ
set_up a fd =
    if is_zero a.set_nonblock
    then (if is_zero a.bind
        then (if is_negative a.listen then (listen_failed, fd ∷ []) else (pos fd, fd ∷ []))
        else (listen_failed, fd ∷ []))
    else (listen_failed, fd ∷ [])

-- The descriptor or RET_FAILED, and the descriptors that are open then.
unfoldable pub init_listen_socket : ListenAnswers → ℤ × List ℕ
init_listen_socket a = elim a.socket [ pos fd ↦ set_up a fd | negsuc e ↦ (listen_failed, []) ]

-- A task and its socket, whose reads and whose timer the event loop watches.
pub record Watched : Type 0 where
  pub sock_fd : ℕ
  pub task : QueryTask

-- The sockets of clients that are open, and the tasks that the event loop watches.
pub record AssignTask : Type 0 where
  pub clients : List ℕ
  pub watched : List Watched

-- `accept` gives a descriptor or fails; there is memory for a task or not. Without it the socket stays open.
unfoldable pub accept_connection :
    (accepted : ℤ) (memory : Bool) (zeroes : List ℕ) → AssignTask → Checked AssignTask
accept_connection (negsuc e) memory zeroes as_task = ok as_task
accept_connection (pos fd) memory zeroes as_task =
    if memory
    then (do_accept_connection zeroes >>= λ t. ok (record {
      clients = fd ∷ as_task.clients;
      watched = record { sock_fd = fd; task = t } ∷ as_task.watched;
    }))
    else ok (record as_task { clients = fd ∷ as_task.clients })

pub data AcceptEvent : Type 0 where
  ev_undef ev_read ev_unknown : AcceptEvent

unfoldable pub accept_event_handler :
    AcceptEvent → (accepted : ℤ) (memory : Bool) (zeroes : List ℕ) → AssignTask → Checked AssignTask
accept_event_handler AcceptEvent.ev_undef accepted memory zeroes as_task = ok as_task
accept_event_handler AcceptEvent.ev_read accepted memory zeroes as_task =
    accept_connection accepted memory zeroes as_task
accept_event_handler AcceptEvent.ev_unknown accepted memory zeroes as_task = ok as_task
