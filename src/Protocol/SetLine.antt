-- ===== src/Protocol/SetLine.antt =====
-- src/memcached_protocol.c: what the parser makes of the line of a set command.
use mathlib.Core.List.{reverse_aux}
use linglongta.Prelude.{
  ℕ, zero, suc, ◌^◌, ◌≤◌, ◌<◌, ◌≡◌, refl, ap, ◌∙◌, arith, true, List, [], ◌∷◌, ◌++◌, length, All,
  All-append, pos,
}
use linglongta.Protocol.CString.{space, Cursor, atoi, atol, as_size_t}
use linglongta.Protocol.Commands.{
  CmdType, ParseStatus, QueryRequest, SetState, SetLoop, set_round, set_loop, parse_set_cmd,
}
use linglongta.Protocol.Head.{
  RetCode, ParseState, command_state, handle_cmd, head_round, head_loop,
  parse_memcached_string_head,
}
use linglongta.Protocol.Words.{
  IsWord, line_end, strtok_r-word, strtok_r-last, ends_in_crlf-line_end, cut-append,
}
use linglongta.Protocol.Numbers.{
  IsNumeral, IsNumeral-IsWord, numeral_value, atoi-numeral, as_size_t-atol_numeral,
}
use linglongta.Protocol.Lines.{IsTextByte, text_of_word, head_loop-command, parsed_as}

-- what stands behind the first word of a line, in front of its line end
abbrev pub set_line : (key flag exptime bytes : List ℕ) → List ℕ
set_line key flag exptime bytes = key ++ space ∷ (flag ++ space ∷ (exptime ++ space ∷ bytes))

set_loop_lem : (n : ℕ) (l : SetLoop) → set_loop (suc n) l ≡ set_loop n (set_round l.state l)
unfolding set_loop
set_loop_lem n l = refl

set_loop-done : (n : ℕ) (l : SetLoop) → l.state ≡ SetState.s_set_done → set_loop n l ≡ l
unfolding set_loop
set_loop-done zero l e = refl
set_loop-done (suc n) l e = ap (λ s. set_loop n (set_round s l)) e ∙ set_loop-done n l e

abbrev loop_at : SetState → Cursor → QueryRequest → SetLoop
loop_at s c qr = record { state = s; saveptr = c; request = qr; retval = true }

key_round :
    (b w s : List ℕ) (qr : QueryRequest)
    → IsWord w
    → length w ≤ 250
    → set_round SetState.s_set_key
        (loop_at SetState.s_set_key (record { before = b; rest = w ++ space ∷ s }) qr)
      ≡ loop_at SetState.s_set_flag
          (record { before = 0 ∷ reverse_aux w b; rest = s })
          (record qr { key = w })
key_round b w s qr h short = rw (strtok_r-word b w s h) (ground arith)

flag_round :
    (b w s : List ℕ) (qr : QueryRequest)
    → IsWord w
    → set_round SetState.s_set_flag
        (loop_at SetState.s_set_flag (record { before = b; rest = w ++ space ∷ s }) qr)
      ≡ loop_at SetState.s_set_exptime
          (record { before = 0 ∷ reverse_aux w b; rest = s })
          (record qr { flag = atoi w })
flag_round b w s qr h = rw (strtok_r-word b w s h)

exptime_round :
    (b w s : List ℕ) (qr : QueryRequest)
    → IsWord w
    → set_round SetState.s_set_exptime
        (loop_at SetState.s_set_exptime (record { before = b; rest = w ++ space ∷ s }) qr)
      ≡ loop_at SetState.s_set_bytes
          (record { before = 0 ∷ reverse_aux w b; rest = s })
          (record qr { exptime = atoi w })
exptime_round b w s qr h = rw (strtok_r-word b w s h)

bytes_round :
    (b w : List ℕ) (qr : QueryRequest)
    → IsWord w
    → set_round SetState.s_set_bytes
        (loop_at SetState.s_set_bytes (record { before = b; rest = w }) qr)
      ≡ loop_at SetState.s_set_done
          (record { before = reverse_aux w b; rest = [] })
          (record qr { data_size = as_size_t (atol w) })
bytes_round b w qr h = rw (strtok_r-last b w h)

-- What a line of four words leaves.
abbrev pub parsed_words : QueryRequest → (key flag exptime bytes : List ℕ) → QueryRequest
parsed_words qr key flag exptime bytes = record qr {
  key = key;
  flag = atoi flag;
  exptime = atoi exptime;
  data_size = as_size_t (atol bytes);
}

module _ (qr : QueryRequest) (b key flag exptime bytes : List ℕ) (k : IsWord key)
    (room : length key ≤ 250) (f : IsWord flag) (x : IsWord exptime) (n : IsWord bytes) where
  set_loop-words :
      (c : Cursor) × (set_loop 6 (
          loop_at SetState.s_set_key
            (record { before = b; rest = set_line key flag exptime bytes })
            qr)
        ≡ loop_at SetState.s_set_done c (parsed_words qr key flag exptime bytes))
  set_loop-words = (
    _,
    set_loop_lem 5 _
        ∙ ap (set_loop 5) (key_round b key _ qr k room)
        ∙ set_loop_lem 4 _
        ∙ ap (set_loop 4) (flag_round _ flag _ _ f)
        ∙ set_loop_lem 3 _
        ∙ ap (set_loop 3) (exptime_round _ exptime _ _ x)
        ∙ set_loop_lem 2 _
        ∙ ap (set_loop 2) (bytes_round _ bytes _ n)
        ∙ set_loop-done 2 _ refl,
  )

  parse_set_cmd-words :
      parse_set_cmd (record { before = b; rest = set_line key flag exptime bytes ++ line_end }) qr
      ≡ (true, parsed_words qr key flag exptime bytes)
  unfolding parse_set_cmd
  parse_set_cmd-words =
      let (c, e) = set_loop-words in
      rw (ends_in_crlf-line_end b (set_line key flag exptime bytes)) (
        ap
          (λ r. (
            (set_loop 6 (loop_at SetState.s_set_key (record { before = b; rest = r }) qr)).retval,
            (set_loop 6 (loop_at SetState.s_set_key (record { before = b; rest = r }) qr)).request,
          ))
          (cut-append b (set_line key flag exptime bytes) line_end)
        ∙ ap (λ l. (l.retval, l.request)) e)

text_of_line :
    (key flag exptime bytes : List ℕ)
    → IsWord key
    → IsWord flag
    → IsWord exptime
    → IsWord bytes
    → All IsTextByte (set_line key flag exptime bytes ++ line_end)
text_of_line key flag exptime bytes k f x n =
    All-append IsTextByte (set_line key flag exptime bytes) line_end
      (All-append IsTextByte key (space ∷ (flag ++ space ∷ (exptime ++ space ∷ bytes)))
        (text_of_word key k.bytes)
        (
          omega arith,
          All-append IsTextByte flag (space ∷ (exptime ++ space ∷ bytes))
              (text_of_word flag f.bytes)
              (
                omega arith,
                All-append IsTextByte exptime (space ∷ bytes) (text_of_word exptime x.bytes)
                    (omega arith, text_of_word bytes n.bytes),
              ),
        ))
      (omega arith, (omega arith, tt))

head_loop-set :
    (cmd : List ℕ) (c : Cursor) (qr qr' : QueryRequest)
    → command_state cmd ≡ ParseState.s_set
    → parse_set_cmd c qr ≡ (true, qr')
    → head_loop 3 cmd c
        (record { state = ParseState.s_ready; request = qr; retval = RetCode.ret_success })
      ≡ record {
        state = ParseState.s_done;
        request = parsed_as CmdType.cmd_set qr';
        retval = RetCode.ret_success;
      }
unfolding head_loop head_round handle_cmd
head_loop-set cmd c qr qr' s p = rw s (rw p refl)

parse_head-set_words :
    (qr : QueryRequest) (cmd key flag exptime bytes rest : List ℕ)
    → IsWord cmd
    → command_state cmd ≡ ParseState.s_set
    → IsWord key
    → length key ≤ 250
    → IsWord flag
    → IsWord exptime
    → IsWord bytes
    → length (cmd ++ space ∷ (set_line key flag exptime bytes ++ line_end)) ≤ 511
    → qr.query_head_buf ≡ (cmd ++ space ∷ (set_line key flag exptime bytes ++ line_end)) ++ 0 ∷ rest
    → parse_memcached_string_head qr
      ≡ (RetCode.ret_success, parsed_as CmdType.cmd_set (parsed_words qr key flag exptime bytes))
unfolding parse_memcached_string_head
parse_head-set_words qr cmd key flag exptime bytes rest w s k room f x n short e =
    ap (λ l. (l.retval, l.request))
      (head_loop-command qr cmd (set_line key flag exptime bytes ++ line_end) rest w
          (text_of_line key flag exptime bytes k f x n) short e
        ∙ head_loop-set cmd _ _ _ s (parse_set_cmd-words _ _ key flag exptime bytes k room f x n))

-- A head of the form "set <key> <flags> <exptime> <bytes>\r\n" with a NUL behind it, of 511 bytes at most,
-- the command in upper or lower case, the key a word of 250 bytes at most, and the numbers in decimal
-- digits that fit an `int` and a `long`: it parses with RET_SUCCESS and ps_succ to just this
-- command, this key and these numbers.
pub parse_head-set_line :
    (qr : QueryRequest) (cmd key flag exptime bytes rest : List ℕ)
    → IsWord cmd
    → command_state cmd ≡ ParseState.s_set
    → IsWord key
    → length key ≤ 250
    → IsNumeral flag
    → numeral_value flag < 2 ^ 31
    → IsNumeral exptime
    → numeral_value exptime < 2 ^ 31
    → IsNumeral bytes
    → numeral_value bytes < 2 ^ 63
    → length (cmd ++ space ∷ (set_line key flag exptime bytes ++ line_end)) ≤ 511
    → qr.query_head_buf ≡ (cmd ++ space ∷ (set_line key flag exptime bytes ++ line_end)) ++ 0 ∷ rest
    → parse_memcached_string_head qr ≡ (
      RetCode.ret_success,
      record qr {
        cmd_type = CmdType.cmd_set;
        parse_status = ParseStatus.ps_succ;
        key = key;
        flag = pos (numeral_value flag);
        exptime = pos (numeral_value exptime);
        data_size = numeral_value bytes;
      },
    )
parse_head-set_line qr cmd key flag exptime bytes rest w s k room f fs x xs n ns short e =
    parse_head-set_words qr cmd key flag exptime bytes rest w s k room (IsNumeral-IsWord flag f)
      (IsNumeral-IsWord exptime x) (IsNumeral-IsWord bytes n) short e
    ∙ cc (atoi-numeral flag f fs, atoi-numeral exptime x xs, as_size_t-atol_numeral bytes n ns)
