-- ===== src/Connection/Receive.antt =====
-- src/assign_thread.c: `recv_req_head`, `parse_query_request_head` and `recv_req_data`. Each gives the task
-- and `need_loop`. The memory of error logs is taken to be had.
use linglongta.Prelude.{
  ℕ, ◌+◌, ◌-◌, ◌%◌, ◌^◌, Bool, true, false, Option, none, some, List, [], ◌∷◌, ◌++◌, length, take,
  drop, ltb, leb, ◌==◌, if◌then◌else◌, ℤ, pos, negsuc,
}
use linglongta.Protocol.CString.{c_string}
use linglongta.Protocol.Commands.{CmdType, ParseStatus, QueryRequest}
use linglongta.Protocol.Head.{RetCode, parse_memcached_string_head, try_parse_memcached_string_head}
use linglongta.Connection.Task.{
  QueryState, QueryTask, Checked, ok, assert_failed, ◌>>=◌, ssize_sub, log, is_zero,
  change_query_task_state,
}

-- What a `net_read` gives: the bytes that have come, none if the peer has closed the connection, or an
-- error, EAGAIN or EINTR among them.
pub data NetRead : Type 0 where
  got : List ℕ → NetRead
  failed : (again : Bool) → NetRead

-- Bytes written into a buffer, which keeps its length.
unfoldable pub store_at : ℕ → List ℕ → List ℕ → List ℕ
store_at off bs buf = take off buf ++ (bs ++ drop (off + length bs) buf)

abbrev pub with_loop : Bool → Checked QueryTask → Checked (QueryTask × Bool)
with_loop need_loop r = r >>= λ t. ok (t, need_loop)

abbrev pub go_to : QueryState → Bool → QueryTask → Checked (QueryTask × Bool)
go_to s need_loop t = with_loop need_loop (change_query_task_state s t)

-- The error is logged, and the task is to be destroyed.
abbrev pub give_up : QueryTask → Checked (QueryTask × Bool)
give_up t = log t >>= go_to QueryState.s_destroy_recv true

-- The number of bytes that a read asks for, as `size_t`.
abbrev pub asked : ℤ → ℕ
asked (pos n) = n
asked (negsuc n) = 2 ^ 64 - 1 - n

abbrev pub head_bytes : List ℕ → QueryTask → Checked (QueryTask × Bool)
head_bytes bs t =
    if length bs == 0
    then if is_zero t.need_read then give_up t else go_to QueryState.s_destroy_recv false t
    else if leb (length bs) (asked t.need_read)
    then go_to QueryState.s_parse_req_head true (record t {
      have_read = t.have_read + length bs;
      need_read = pos 0;
      query_request = record (t.query_request) {
        query_head_buf =
            store_at t.query_request.query_head_buf_size bs t.query_request.query_head_buf;
      };
    })
    else give_up t

unfoldable pub recv_req_head : NetRead → QueryTask → Checked (QueryTask × Bool)
recv_req_head (got bs) t = head_bytes bs t
recv_req_head (failed again) t = give_up t

-- data_size += 2
unfoldable pub with_crlf : ℕ → ℕ
with_crlf n = (n + 2) % 2 ^ 64

abbrev pub after_set_head : QueryTask → Checked (QueryTask × Bool)
after_set_head t = elim t.need_read [
  | pos n ↦
      if n == 0
      then go_to QueryState.s_dispatch_query_task true t
      else go_to QueryState.s_recv_req_data false t
  | negsuc n ↦ go_to QueryState.s_destroy_recv true t
]

-- A set command: memory for the data and its line end, and the data that came with the head copied there.
unfoldable pub set_head : (ℕ → Bool) → List ℕ → QueryTask → Checked (QueryTask × Bool)
set_head can_alloc tmp_buf t =
    let size = with_crlf t.query_request.data_size in
    if can_alloc size
    then after_set_head (record t {
      need_read = ssize_sub size (length tmp_buf);
      query_request = record (t.query_request) { data_size = size; content = some tmp_buf };
    })
    else assert_failed

unfoldable pub on_command : (ℕ → Bool) → List ℕ → CmdType → QueryTask → Checked (QueryTask × Bool)
on_command can_alloc tmp_buf CmdType.cmd_set t = set_head can_alloc tmp_buf t
on_command can_alloc tmp_buf CmdType.cmd_get t = go_to QueryState.s_dispatch_query_task true t
on_command can_alloc tmp_buf CmdType.cmd_delete t = go_to QueryState.s_dispatch_query_task true t
on_command can_alloc tmp_buf CmdType.cmd_sync t = go_to QueryState.s_do_sync true t
on_command can_alloc tmp_buf CmdType.cmd_power t = go_to QueryState.s_do_power true t
on_command can_alloc tmp_buf CmdType.cmd_unknown t = give_up t

abbrev pub is_success : RetCode → ParseStatus → Bool
is_success RetCode.ret_success ParseStatus.ps_succ = true
is_success _ _ = false

-- query_head_buf[strlen(query_head_buf) - 2] = '\0'
abbrev pub cut_head : QueryRequest → QueryRequest
cut_head r = record r {
  query_head_buf = store_at (length (c_string r.query_head_buf) - 2) (0 ∷ []) r.query_head_buf;
}

unfoldable pub on_parsed :
    (ℕ → Bool) → List ℕ → RetCode × QueryRequest → QueryTask → Checked (QueryTask × Bool)
on_parsed can_alloc tmp_buf (ret, r) t =
    if is_success ret r.parse_status
    then on_command can_alloc tmp_buf r.cmd_type (record t { query_request = r })
    else (log (record t { query_request = cut_head r }) >>= go_to QueryState.s_return_failed true)

-- The head ends `n` bytes after the start of the buffer; behind it stands the data that came with it.
unfoldable pub parse_head_at : (ℕ → Bool) → ℕ → QueryTask → Checked (QueryTask × Bool)
parse_head_at can_alloc n t =
    if leb n t.have_read
    then on_parsed can_alloc (take (t.have_read - n) (drop n t.query_request.query_head_buf))
        (parse_memcached_string_head (record (t.query_request) {
          query_head_buf_size = n;
          query_head_buf = store_at n (0 ∷ []) t.query_request.query_head_buf;
        }))
        t
    else assert_failed

abbrev pub parse_found : (ℕ → Bool) → QueryTask → Option ℕ → Checked (QueryTask × Bool)
parse_found can_alloc t none = go_to QueryState.s_recv_req_head true t
parse_found can_alloc t (some i) = parse_head_at can_alloc (i + 2) t

unfoldable pub parse_query_request_head : (ℕ → Bool) → QueryTask → Checked (QueryTask × Bool)
parse_query_request_head can_alloc t =
    parse_found can_alloc t (try_parse_memcached_string_head t.query_request)

-- What a round of `recv_req_data` comes to: it is over, or it reads again at once.
pub data DataRound : Type 0 where
  over : Checked (QueryTask × Bool) → DataRound
  go : DataRound

abbrev pub store_data : List ℕ → QueryTask → QueryTask
store_data bs t = record t {
  query_request = record (t.query_request) {
    content = elim t.query_request.content [
      | none ↦ none
      | some d ↦ some (store_at (t.have_read - t.query_request.query_head_buf_size) bs d)
    ];
  };
}

abbrev pub data_bytes : List ℕ → ℕ → QueryTask → Checked (QueryTask × Bool)
data_bytes bs need t =
    if length bs == 0
    then give_up t
    else if ltb (length bs) need
    then ok (
      record (store_data bs t) {
        have_read = t.have_read + length bs;
        need_read = pos (need - length bs);
      },
      false,
    )
    else if length bs == need
    then go_to QueryState.s_dispatch_query_task true (store_data bs t)
    else give_up t

unfoldable pub recv_data_round : ℕ → NetRead → QueryTask → DataRound
recv_data_round need (got bs) t = over (data_bytes bs need t)
recv_data_round need (failed true) t = go
recv_data_round need (failed false) t = over (give_up t)
