-- ===== src/Connection/SetHead.antt =====
-- src/assign_thread.c: the head of a set command, with the data that comes with it.
use linglongta.Prelude.{
  ℕ, ◌+◌, ◌-◌, ◌^◌, ◌≤◌, ◌<◌, ◌≡◌, ◌≢◌, refl, sym, ap, ◌∙◌, arith, Bool, true, some, List, [], ◌∷◌,
  ◌++◌, append_assoc, length, All, All-append, take, take-append, drop, drop-append, pos,
}
use linglongta.Protocol.CString.{space}
use linglongta.Protocol.Commands.{CmdType, ParseStatus, QueryRequest}
use linglongta.Protocol.Head.{RetCode, ParseState, command_state, parse_memcached_string_head}
use linglongta.Protocol.Lines.{text_of_word}
use linglongta.Protocol.Words.{IsWord, line_end}
use linglongta.Protocol.Numbers.{IsDigit, IsNumeral, numeral_value}
use linglongta.Protocol.SetLine.{set_line, parse_head-set_line}
use linglongta.Connection.HeadLine.{
  length-text, behind_head, cut_request, parse_query_request_head-line,
}
use linglongta.Connection.Task.{QueryTask, ssize_sub}
use linglongta.Connection.Receive.{
  with_crlf, after_set_head, set_head, on_command, on_parsed, parse_query_request_head,
}

-- A set command as it is sent: no carriage return in its first line but the last, and numbers that fit.
pub record IsSetCommand (cmd key flag exptime bytes : List ℕ) : Type 0 where
  pub command : IsWord cmd
  pub command_line : All (λ c. c ≢ b'\r') cmd
  pub is_set : command_state cmd ≡ ParseState.s_set
  pub key_word : IsWord key
  pub key_line : All (λ c. c ≢ b'\r') key
  pub key_room : length key ≤ 250
  pub flag_number : IsNumeral flag
  pub flag_fits : numeral_value flag < 2 ^ 31
  pub exptime_number : IsNumeral exptime
  pub exptime_fits : numeral_value exptime < 2 ^ 31
  pub bytes_number : IsNumeral bytes
  pub bytes_fit : numeral_value bytes + 2 < 2 ^ 63
  pub room : length (cmd ++ space ∷ (set_line key flag exptime bytes ++ line_end)) ≤ 511

abbrev pub set_text : (cmd key flag exptime bytes : List ℕ) → List ℕ
set_text cmd key flag exptime bytes = cmd ++ space ∷ (set_line key flag exptime bytes ++ line_end)

text_of_digits : (w : List ℕ) → All IsDigit w → All (λ c. c ≢ 0) w
text_of_digits [] h = tt
text_of_digits (c ∷ w) (hc, h) = (omega arith, text_of_digits w h)

one_of_digits : (w : List ℕ) → All IsDigit w → All (λ c. c ≢ b'\r') w
one_of_digits [] h = tt
one_of_digits (c ∷ w) (hc, h) = (omega arith, one_of_digits w h)

module _ (cmd key flag exptime bytes : List ℕ) (h : IsSetCommand cmd key flag exptime bytes) where
  -- the command without its line end
  abbrev line : List ℕ
  line = cmd ++ space ∷ set_line key flag exptime bytes

  text-line : set_text cmd key flag exptime bytes ≡ line ++ line_end
  text-line = sym (append_assoc cmd (space ∷ set_line key flag exptime bytes) line_end)

  line_parts :
      (P : ℕ → Type 0)
      → All P cmd
      → P space
      → All P key
      → All P flag
      → All P exptime
      → All P bytes
      → All P line
  line_parts P c s k f x b = All-append P cmd (space ∷ set_line key flag exptime bytes) c (
    s,
    All-append P key (space ∷ (flag ++ space ∷ (exptime ++ space ∷ bytes))) k (
      s,
      All-append P flag (space ∷ (exptime ++ space ∷ bytes)) f
          (s, All-append P exptime (space ∷ bytes) x (s, b)),
    ),
  )

  line_text : All (λ c. c ≢ 0) line
  line_text =
      line_parts (λ c. c ≢ 0) (text_of_word cmd h.command.bytes) (omega arith)
        (text_of_word key h.key_word.bytes) (text_of_digits flag h.flag_number.digits)
        (text_of_digits exptime h.exptime_number.digits)
        (text_of_digits bytes h.bytes_number.digits)

  line_one : All (λ c. c ≢ b'\r') line
  line_one =
      line_parts (λ c. c ≢ b'\r') h.command_line (omega arith) h.key_line
        (one_of_digits flag h.flag_number.digits) (one_of_digits exptime h.exptime_number.digits)
        (one_of_digits bytes h.bytes_number.digits)

  length-set_text : length (set_text cmd key flag exptime bytes) ≡ length line + 2
  length-set_text =
      length-text line (set_text cmd key flag exptime bytes) text-line line_text line_one

  -- The request that the head leaves.
  abbrev pub set_request : QueryRequest → List ℕ → QueryRequest
  set_request r behind = record r {
    query_head_buf_size = length line + 2;
    query_head_buf = set_text cmd key flag exptime bytes ++ 0 ∷ drop 1 behind;
    cmd_type = CmdType.cmd_set;
    parse_status = ParseStatus.ps_succ;
    key = key;
    flag = pos (numeral_value flag);
    exptime = pos (numeral_value exptime);
    data_size = numeral_value bytes;
  }

  abbrev to_parse : QueryRequest → List ℕ → QueryRequest
  to_parse r behind =
      cut_request line (set_text cmd key flag exptime bytes) text-line line_text line_one r behind

  parsed :
      (r : QueryRequest) (behind : List ℕ)
      → parse_memcached_string_head (to_parse r behind)
        ≡ (RetCode.ret_success, set_request r behind)
  parsed r behind =
      parse_head-set_line _ cmd key flag exptime bytes (drop 1 behind) h.command h.is_set h.key_word
        h.key_room h.flag_number h.flag_fits h.exptime_number h.exptime_fits h.bytes_number
        (omega (arith, h.bytes_fit)) h.room refl

  pub head_size :
      (r : QueryRequest) (behind : List ℕ)
      → length (set_text cmd key flag exptime bytes) ≡ (set_request r behind).query_head_buf_size
  head_size r behind = length-set_text

  -- The data that came behind the head.
  data_behind :
      (extra pad : List ℕ) (n : ℕ)
      → n ≡ (length line + 2) + length extra
      → take
          (n - (length line + 2))
          (drop (length line + 2) (set_text cmd key flag exptime bytes ++ (extra ++ pad)))
        ≡ extra
  data_behind extra pad n e =
      ap
        (λ k.
          take k (drop (length line + 2) (set_text cmd key flag exptime bytes ++ (extra ++ pad))))
        (rest n (length line + 2) (length extra) e)
      ∙ ap (take (length extra)) (
          ap (λ k. drop k (set_text cmd key flag exptime bytes ++ (extra ++ pad)))
            (sym length-set_text)
          ∙ drop-append (length (set_text cmd key flag exptime bytes))
              (set_text cmd key flag exptime bytes) (extra ++ pad) refl)
      ∙ take-append (length extra) extra pad refl
    where
      rest : (a b c : ℕ) → a ≡ b + c → a - b ≡ c
      rest a b c q = omega arith

  -- The task behind the head, with memory for the data and its line end.
  abbrev pub with_data : QueryTask → (extra pad : List ℕ) → QueryTask
  with_data t extra pad = record t {
    need_read = ssize_sub (with_crlf (numeral_value bytes)) (length extra);
    query_request = record (set_request t.query_request (extra ++ pad)) {
      data_size = with_crlf (numeral_value bytes);
      content = some extra;
    };
  }

  -- The head of a set command that has come whole, with some of its data or more behind it.
  pub parse-set_head :
      (can_alloc : ℕ → Bool) (t : QueryTask) (extra pad : List ℕ)
      → can_alloc (with_crlf (numeral_value bytes)) ≡ true
      → t.query_request.query_head_buf ≡ set_text cmd key flag exptime bytes ++ (extra ++ pad)
      → t.have_read ≡ length (set_text cmd key flag exptime bytes) + length extra
      → parse_query_request_head can_alloc t ≡ after_set_head (with_data t extra pad)
  unfolding on_parsed on_command set_head
  parse-set_head can_alloc t extra pad memory e n =
      parse_query_request_head-line line (set_text cmd key flag exptime bytes) text-line line_text
        line_one can_alloc t (extra ++ pad) e (omega arith)
      ∙ ap
          (λ p.
            on_parsed can_alloc
              (behind_head line (set_text cmd key flag exptime bytes) text-line line_text line_one
                t)
              p t)
          (parsed t.query_request (extra ++ pad))
      ∙ ap
          (λ d.
            on_parsed can_alloc d (RetCode.ret_success, set_request t.query_request (extra ++ pad))
              t)
          (ap (λ b. take (t.have_read - (length line + 2)) (drop (length line + 2) b)) e
            ∙ data_behind extra pad t.have_read (n ∙ ap (λ k. k + length extra) length-set_text))
      ∙ rw memory refl
