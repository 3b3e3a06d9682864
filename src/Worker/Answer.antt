-- ===== src/Worker/Answer.antt =====
-- src/query_thread.c: what a worker answers, with the store behind it.
use linglongta.Prelude.{
  some_inj, none_ne_some, ℕ, ◌^◌, ◌<◌, ◌≤◌, ◌≡◌, ◌≢◌, refl, ap, ◌∙◌, arith, false, none, some, List,
  [], ◌++◌, length, take, take-append, take_all, length-take_le, subst, append-nil, ℤ, pos,
}
use linglongta.Rwlock.{rwlock_build}
use linglongta.Protocol.Commands.{CmdType, ParseStatus, QueryRequest}
use linglongta.Protocol.Head.{RetCode}
use linglongta.Protocol.Words.{line_end}
use linglongta.Storage.Types.{BdbOps, BdbLaws, Storage, Env, Run, done, fix_key, failed}
use linglongta.Storage.Ops.{update_block, find_block}
use linglongta.Storage.Invariant.{IsStore}
use linglongta.Storage.Stored.{Works}
use linglongta.Storage.Find.{found_all, find_block-update_block}
use linglongta.Worker.Send.Outcome.{IsResponse}
use linglongta.Worker.Reply.{
  ReplyState, QueryResponse, Answered, mc_set_done, get_header, only_head, build_response,
  store_request, get_request, by_code, by_found, on_request, handle_parsed, handle_request,
  sent_bytes,
}

-- the response of a task that has just been accepted
abbrev pub no_response : QueryResponse
no_response = record {
  error_log = false;
  resp_head_buf = [];
  resp_data_buf = none;
  resp_data_size = 0;
  resp_tailor_buf = none;
}

-- The call ends with RET_SUCCESS and these bytes for the client.
pub record Answers {Db : Type 0} (bytes : List ℕ) (s : Storage Db) (r : Run (Answered Db))
    : Type 0 where
  pub answered : Answered Db
  pub ends : r ≡ done answered
  pub success : answered.retval ≡ RetCode.ret_success
  pub storage : answered.storage ≡ s
  pub sent : sent_bytes answered.response ≡ bytes
  pub no_error : answered.response.error_log ≡ false
  pub sendable : IsResponse answered.response

length-take_lt : (l : List ℕ) → length (take 511 l) < 2 ^ 63
length-take_lt l = omega (arith, length-take_le 511 l)

length-get_header : (key : List ℕ) (size : ℕ) → length (get_header key 0 size) < 2 ^ 63
unfolding get_header
length-get_header key size = search length-take_lt

module _ {Db : Type 0} (bdb : BdbOps Db) (crc32_calc : List ℕ → ℕ) (env : Env) where
  set-Answers :
      (st : ReplyState) (q : QueryRequest) (content : List ℕ) (s s' : Storage Db)
      → q.parse_status ≡ ParseStatus.ps_succ
      → q.cmd_type ≡ CmdType.cmd_set
      → q.content ≡ some (content ++ line_end)
      → q.data_size ≡ length content
      → update_block bdb crc32_calc env q.key content s ≡ done (pos 0, s')
      → Answers mc_set_done s' (handle_request bdb crc32_calc env st q no_response s)
  unfolding handle_request handle_parsed on_request store_request build_response only_head
      sent_bytes
  set-Answers st q content s s' parsed is_set same size stores = record {
    answered = record {
      retval = RetCode.ret_success;
      state = ReplyState.s_set_success;
      response = record no_response { resp_head_buf = mc_set_done };
      storage = s';
    };
    ends =
        ap (λ p. handle_parsed bdb crc32_calc env p st q no_response s) parsed
        ∙ ap (λ c. on_request bdb crc32_calc env c q no_response s) is_set
        ∙ ap
            (λ o. elim o [
              | none ↦ Run.aborted
              | some d ↦
                  by_code bdb crc32_calc env ReplyState.s_set_success ReplyState.s_set_failed q
                    no_response (update_block bdb crc32_calc env q.key (take q.data_size d) s)
            ])
            same
        ∙ ap
            (λ d.
              by_code bdb crc32_calc env ReplyState.s_set_success ReplyState.s_set_failed q
                no_response (update_block bdb crc32_calc env q.key d s))
            (ap (λ k. take k (content ++ line_end)) size
              ∙ take-append (length content) content line_end refl)
        ∙ ap
            (by_code bdb crc32_calc env ReplyState.s_set_success ReplyState.s_set_failed q
              no_response)
            stores;
    success = refl;
    storage = refl;
    sent = append-nil mc_set_done;
    no_error = refl;
    sendable = record {
      head_fits = omega arith;
      in_buffer = λ d e. absurd (none_ne_some d e);
      tailor_bytes = λ l e. absurd (none_ne_some l e);
      data_fits = omega arith;
      tailor_fits = λ l e. absurd (none_ne_some l e);
    };
  }

  get-Answers :
      (st : ReplyState) (q : QueryRequest) (content : List ℕ) (s s' : Storage Db)
      → q.parse_status ≡ ParseStatus.ps_succ
      → q.cmd_type ≡ CmdType.cmd_get
      → length content < 2 ^ 31
      → find_block bdb crc32_calc env q.key s ≡ done (found_all content, s')
      → Answers
          (get_header q.key 0 (length content) ++ (content ++ line_end))
          s'
          (handle_request bdb crc32_calc env st q no_response s)
  unfolding handle_request handle_parsed on_request get_request build_response sent_bytes
  get-Answers st q content s s' parsed is_get small finds = record {
    answered = record {
      retval = RetCode.ret_success;
      state = ReplyState.s_get_success;
      response = record {
        error_log = false;
        resp_head_buf = get_header q.key 0 (length content);
        resp_data_buf = some content;
        resp_data_size = length content;
        resp_tailor_buf = some line_end;
      };
      storage = s';
    };
    ends =
        ap (λ p. handle_parsed bdb crc32_calc env p st q no_response s) parsed
        ∙ ap (λ c. on_request bdb crc32_calc env c q no_response s) is_get
        ∙ ap (by_found bdb crc32_calc env q no_response) finds;
    success = refl;
    storage = refl;
    sent =
        ap (λ l. get_header q.key 0 (length content) ++ (l ++ line_end))
          (take_all (length content) content (omega arith));
    no_error = refl;
    sendable = record {
      head_fits = length-get_header q.key (length content);
      in_buffer = λ d e. subst (λ l. length content ≤ length l) (some_inj e) (omega arith);
      tailor_bytes = λ l e. subst (λ m. 0 < length m) (some_inj e) (omega arith);
      data_fits = omega arith;
      tailor_fits = λ l e. subst (λ m. length m < 2 ^ 62) (some_inj e) (omega arith);
    };
  }

-- In a sound store with the index lock free, and with an allocator, a kernel and an index that work, a worker
-- takes a set request as the assign thread hands it over, with data below 2 GB that some block type holds,
-- and later a get request for the same key: it answers the first with STORED, and the second with a line
-- that has the key, 0 for the flags and the size, then exactly that data, then a line end.
pub handle_request-set_get :
    {Db : Type 0} {bdb : BdbOps Db} (laws : BdbLaws bdb) (crc32_calc : List ℕ → ℕ) (env : Env)
    (works : Works bdb env) (s : Storage Db) (st st' : ReplyState) (set get : QueryRequest)
    (content : List ℕ) (c : ℕ)
    → IsStore bdb s
    → s.index_lock ≡ rwlock_build
    → set.parse_status ≡ ParseStatus.ps_succ
    → set.cmd_type ≡ CmdType.cmd_set
    → set.content ≡ some (content ++ line_end)
    → set.data_size ≡ length content
    → get.parse_status ≡ ParseStatus.ps_succ
    → get.cmd_type ≡ CmdType.cmd_get
    → get.key ≡ set.key
    → length content < 2 ^ 31
    → c < s.sizes.block_type_count
    → length content ≤ s.sizes.block_size_array c
    → ((e : ℤ) → bdb.get s.indexdb.dbp (fix_key set.key) ≢ failed e)
    → (s' : Storage Db) × Answers mc_set_done s'
        (handle_request bdb crc32_calc env st set no_response s)
      × Answers
          (get_header get.key 0 (length content) ++ (content ++ line_end))
          s'
          (handle_request bdb crc32_calc env st' get no_response s')
handle_request-set_get {bdb = bdb} laws crc32_calc env works s st st' set get content c w free
      set_parsed is_set same size get_parsed is_get same_key small c_lt c_fits readable =
    let (s', stores, finds) =
      find_block-update_block laws crc32_calc env works s w set.key content free small c c_lt c_fits
        readable in
    (
      s',
      set-Answers bdb crc32_calc env st set content s s' set_parsed is_set same size stores,
      get-Answers bdb crc32_calc env st' get content s' s' get_parsed is_get small
          (ap (λ k. find_block bdb crc32_calc env k s') same_key ∙ finds),
    )
