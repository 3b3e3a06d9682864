-- ===== src/Worker/NoMemory.antt =====
-- src/query_thread.c: a get request where the store has no memory for the object.
use linglongta.Prelude.{lt→ne_zero, ℕ, ◌<◌, ◌≡◌, refl, ap, ◌∙◌, true, false, List}
use linglongta.Rwlock.{rwlock_build}
use linglongta.Protocol.Commands.{CmdType, ParseStatus, QueryRequest}
use linglongta.Storage.Types.{BdbOps, Storage, Env, IndexValue, aborted, fix_key, hit}
use linglongta.Storage.Find.{find_block-keeps_lock}
use linglongta.Worker.Reply.{
  ReplyState, only_head, log_and_head, build_response, get_request, by_found, on_request,
  handle_parsed, handle_request,
}
use linglongta.Worker.Answer.{no_response}

-- With the index lock free and memory for an index value: a get request for a key under which the index has
-- an object that is not empty, where the memory for that object cannot be had, fails an assert, so that the
-- process ends and the client gets no answer.
pub handle_request-no_memory :
    {Db : Type 0} (bdb : BdbOps Db) (crc32_calc : List ℕ → ℕ) (env : Env) (s : Storage Db)
    (st : ReplyState) (q : QueryRequest) (iv : IndexValue)
    → s.index_lock ≡ rwlock_build
    → env.can_alloc 24 ≡ true
    → q.parse_status ≡ ParseStatus.ps_succ
    → q.cmd_type ≡ CmdType.cmd_get
    → bdb.get s.indexdb.dbp (fix_key q.key) ≡ hit iv
    → env.can_alloc iv.data_size ≡ false
    → 0 < iv.data_size
    → handle_request bdb crc32_calc env st q no_response s ≡ aborted
unfolding handle_request handle_parsed on_request get_request build_response log_and_head only_head
handle_request-no_memory bdb crc32_calc env s st q iv free room parsed is_get here full some_byte =
    let (s', fails, _, _) =
      find_block-keeps_lock bdb crc32_calc env s free room q.key iv here full in
    ap (λ p. handle_parsed bdb crc32_calc env p st q no_response s) parsed
    ∙ ap (λ c. on_request bdb crc32_calc env c q no_response s) is_get
    ∙ ap (by_found bdb crc32_calc env q no_response) fails
    ∙ rw (lt→ne_zero iv.data_size some_byte) refl
