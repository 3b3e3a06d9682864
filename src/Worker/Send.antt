-- ===== src/Worker/Send.antt =====
-- src/query_thread.c: `send_response`, with `net_write` and `net_writev` of src/iolayer.c and `set_block` of
-- src/utils.c. The memory of error logs is taken to be had.
pub mod Writes
pub mod Outcome
use linglongta.Prelude.{
  ℕ, ◌+◌, ◌-◌, ◌%◌, ◌^◌, Bool, true, false, none, some, List, [], ◌∷◌, ◌++◌, length, take, ltb,
  ◌==◌, if◌then◌else◌, ℤ, pos, negsuc,
}
use linglongta.Protocol.Head.{RetCode}
use linglongta.Storage.Types.{Run, done, aborted}
use linglongta.Storage.Blocks.{is_zero}
use linglongta.Worker.Reply.{QueryResponse}

-- A client's socket: the bytes that the kernel has taken from it, the number of writes, and whether O_NONBLOCK
-- is clear. With it `g_runtime_vars.io_stats.net_write_bytes`.
pub record Socket : Type 0 where
  pub taken : List ℕ
  pub writes : ℕ
  pub is_blocking : Bool
  pub net_write_bytes : ℕ

-- What the kernel answers: to the two calls of `fcntl`, the `errno` where one fails, and the number of bytes
-- that `write` or `writev` takes of those it is given.
pub record Kernel : Type 0 where
  pub getfl : ℤ
  pub setfl : ℤ
  pub errno : ℤ
  pub write : Socket → ℕ → ℤ

abbrev pub is_negative : ℤ → Bool
is_negative (pos n) = false
is_negative (negsuc n) = true

-- A size as an `ssize_t`.
unfoldable pub as_ssize : ℕ → ℤ
as_ssize n = if ltb n (2 ^ 63) then pos n else negsuc (2 ^ 64 - 1 - n)

unfoldable pub same_ssize : ℤ → ℤ → Bool
same_ssize (pos a) (pos b) = a == b
same_ssize (negsuc a) (negsuc b) = a == b
same_ssize (pos a) (negsuc b) = false
same_ssize (negsuc a) (pos b) = false

unfoldable pub set_block : Kernel → Socket → ℤ × Socket
set_block k s =
    if is_negative k.getfl
    then (k.errno, s)
    else if is_negative k.setfl
    then (k.errno, s)
    else (pos 0, record s { is_blocking = true })

-- `nwrite` bytes of a buffer have gone, or the write has failed.
unfoldable pub wrote : ℤ → List ℕ → Socket → ℤ × Socket
wrote (pos n) buf s = (
  pos n,
  record s {
    taken = s.taken ++ take n buf;
    writes = s.writes + 1;
    net_write_bytes = if n == 0 then s.net_write_bytes else (s.net_write_bytes + n) % 2 ^ 64;
  },
)
wrote (negsuc n) buf s = (negsuc n, record s { writes = s.writes + 1 })

unfoldable pub net_write : Kernel → List ℕ → (count : ℕ) → Socket → ℤ × Socket
net_write k buf count s = wrote (k.write s count) buf s

-- struct iovec
pub record Iovec : Type 0 where
  pub iov_base : List ℕ
  pub iov_len : ℕ

abbrev pub gathered : List Iovec → List ℕ
gathered [] = []
gathered (v ∷ iov) = take v.iov_len v.iov_base ++ gathered iov

abbrev pub total : List Iovec → ℕ
total [] = 0
total (v ∷ iov) = v.iov_len + total iov

unfoldable pub net_writev : Kernel → List Iovec → Socket → ℤ × Socket
net_writev k iov s = wrote (k.write s (total iov)) (gathered iov) s

-- What `send_response` leaves: its code, the response with its error log, and the socket.
pub record Sent : Type 0 where
  pub retval : RetCode
  pub response : QueryResponse
  pub socket : Socket

-- Log, and RET_FAILED.
unfoldable pub send_failed : QueryResponse → Socket → Run Sent
send_failed r s =
    if r.error_log
    then aborted
    else done (record {
      retval = RetCode.ret_failed;
      response = record r { error_log = true };
      socket = s;
    })

abbrev pub all_sent : QueryResponse → Socket → Run Sent
all_sent r s = done (record { retval = RetCode.ret_success; response = r; socket = s })

-- The number of bytes that went is compared with the number there are.
unfoldable pub check_written :
    (size : ℕ) → QueryResponse → (Socket → Run Sent) → ℤ × Socket → Run Sent
check_written size r next (nwritten, s) =
    if same_ssize nwritten (as_ssize size) then next s else send_failed r s

-- The data, and a line end behind it where there is one.
unfoldable pub send_data : Kernel → QueryResponse → Socket → Run Sent
send_data k r s = elim r.resp_data_buf [
  | none ↦ all_sent r s
  | some d ↦ elim r.resp_tailor_buf [
    | none ↦ check_written r.resp_data_size r (all_sent r) (net_write k d r.resp_data_size s)
    | some l ↦
        if length l == 0
        then aborted
        else check_written (r.resp_data_size + length l) r (all_sent r) (
            net_writev k
              (record { iov_base = d; iov_len = r.resp_data_size }
                ∷ record { iov_base = l; iov_len = length l }
                ∷ [])
              s)
  ]
]

abbrev pub send_head : Kernel → QueryResponse → Socket → Run Sent
send_head k r s =
    check_written (length r.resp_head_buf) r (send_data k r)
      (net_write k r.resp_head_buf (length r.resp_head_buf) s)

abbrev pub in_block_mode : Kernel → QueryResponse → ℤ × Socket → Run Sent
in_block_mode k r (ret, s) = if is_zero ret then send_head k r s else aborted

unfoldable pub send_response : Kernel → QueryResponse → Socket → Run Sent
send_response k r s = in_block_mode k r (set_block k s)
