-- ===== src/Protocol/KeyLine.antt =====
-- src/memcached_protocol.c: what the parser makes of the line of a get or delete command.
use linglongta.Prelude.{
  ℕ, zero, suc, ◌≤◌, ◌≡◌, ◌⊎◌, inl, inr, refl, sym, ap, ◌∙◌, arith, some, List, [], ◌∷◌, ◌++◌,
  append_assoc, length, All, All-append, take, replicate,
}
use linglongta.Protocol.CString.{space, Cursor, skip_spaces}
use linglongta.Protocol.Commands.{
  CmdType, ParseStatus, QueryRequest, cut, scan_key, scan_at, parse_get_cmd, parse_delete_cmd,
}
use linglongta.Protocol.Head.{
  RetCode, ParseState, command_state, handle_cmd, head_round, head_loop,
  parse_memcached_string_head,
}
use linglongta.Protocol.Words.{
  IsWord, line_end, skip_spaces-word, ends_in_crlf-line_end, cut-append, word_in_front,
  space_in_front,
}
use linglongta.Protocol.Lines.{IsTextByte, text_of_word, head_loop-command, parsed_as}

-- The commands that take a key only.
pub data KeyCommand : ParseState → CmdType → Type 0 where
  get_key : KeyCommand ParseState.s_get CmdType.cmd_get
  delete_key : KeyCommand ParseState.s_delete CmdType.cmd_delete

scan_key-word :
    (b w tail : List ℕ)
    → IsWord w
    → (tail ≡ []) ⊎ (tail ≡ space ∷ [])
    → scan_key (record { before = b; rest = w ++ (tail ++ line_end) }) ≡ some (take 250 w)
unfolding scan_key
scan_key-word b w tail h (inl e) = rw e (
    rw (skip_spaces-word b w line_end h) (
      rw (ends_in_crlf-line_end b w)
        (rw (word_in_front b w h) (ap (λ k. some (take 250 k)) (cut-append b w line_end)))))
scan_key-word b w tail h (inr e) = rw e (
    rw (skip_spaces-word b w (space ∷ line_end) h) (
      ap (λ r. scan_at (record { before = b; rest = r }))
        (sym (append_assoc w (space ∷ []) line_end))
      ∙ rw (ends_in_crlf-line_end b (w ++ space ∷ [])) (
          rw (space_in_front b w) (
            ap (λ r. some (take 250 (cut 3 (record { before = b; rest = r }))))
              (append_assoc w (space ∷ []) line_end)
            ∙ ap (λ k. some (take 250 k)) (cut-append b w (space ∷ line_end))))))

-- Spaces between the command and the line end.
skip_spaces-replicate :
    (n : ℕ) (b s : List ℕ)
    → skip_spaces b (replicate n space ++ (b'\r' ∷ s))
      ≡ record { before = replicate n space ++ b; rest = b'\r' ∷ s }
unfolding skip_spaces
skip_spaces-replicate zero b s = refl
skip_spaces-replicate (suc n) b s =
    skip_spaces-replicate n (space ∷ b) s
    ∙ ap (λ l. record { before = l; rest = b'\r' ∷ s }) (shift n)
  where
    shift : (k : ℕ) → replicate k space ++ (space ∷ b) ≡ space ∷ (replicate k space ++ b)
    shift zero = refl
    shift (suc k) = ap (λ l. space ∷ l) (shift k)

scan_key-blank :
    (n : ℕ) (b : List ℕ)
    → scan_key (record { before = b; rest = replicate (suc n) space ++ line_end }) ≡ some line_end
unfolding scan_key cut
scan_key-blank n b = rw (skip_spaces-replicate (suc n) b (b'\n' ∷ []))

head_loop-key :
    (cmd : List ℕ) (c : Cursor) (qr : QueryRequest) (k : List ℕ) (s : ParseState) (type : CmdType)
    → KeyCommand s type
    → command_state cmd ≡ s
    → scan_key c ≡ some k
    → head_loop 3 cmd c
        (record { state = ParseState.s_ready; request = qr; retval = RetCode.ret_success })
      ≡ record {
        state = ParseState.s_done;
        request = parsed_as type (record qr { key = k });
        retval = RetCode.ret_success;
      }
unfolding head_loop head_round handle_cmd parse_get_cmd parse_delete_cmd
head_loop-key cmd c qr k s type get_key e p = rw e (rw p refl)
head_loop-key cmd c qr k s type delete_key e p = rw e (rw p refl)

text_behind :
    (tail : List ℕ) → (tail ≡ []) ⊎ (tail ≡ space ∷ []) → All IsTextByte (tail ++ line_end)
text_behind tail (inl e) = rw e (omega arith)
text_behind tail (inr e) = rw e (omega arith)

-- A head "get <key>\r\n" or "delete <key>\r\n" with a NUL behind it, of 511 bytes at most, the command
-- in upper or lower case and the key a word, with one space behind it or none: it parses with RET_SUCCESS and
-- ps_succ to this command and the first 250 bytes of this key.
pub parse_head-key_line :
    (qr : QueryRequest) (cmd key tail rest : List ℕ) (s : ParseState) (type : CmdType)
    → KeyCommand s type
    → IsWord cmd
    → command_state cmd ≡ s
    → IsWord key
    → (tail ≡ []) ⊎ (tail ≡ space ∷ [])
    → length (cmd ++ space ∷ (key ++ (tail ++ line_end))) ≤ 511
    → qr.query_head_buf ≡ (cmd ++ space ∷ (key ++ (tail ++ line_end))) ++ 0 ∷ rest
    → parse_memcached_string_head qr ≡ (
      RetCode.ret_success,
      record qr { cmd_type = type; parse_status = ParseStatus.ps_succ; key = take 250 key },
    )
unfolding parse_memcached_string_head
parse_head-key_line qr cmd key tail rest s type kc w e k t short at =
    ap (λ l. (l.retval, l.request))
      (head_loop-command qr cmd (key ++ (tail ++ line_end)) rest w
          (All-append IsTextByte key (tail ++ line_end) (text_of_word key k.bytes)
            (text_behind tail t))
          short at
        ∙ head_loop-key cmd _ _ _ s type kc e (scan_key-word _ key tail k t))

text_of_blank : (n : ℕ) → All IsTextByte (replicate n space ++ line_end)
text_of_blank zero = omega arith
text_of_blank (suc n) = (omega arith, text_of_blank n)

-- A get or delete command with no key, but two or more spaces in front of the line end, parses with
-- RET_SUCCESS and ps_succ; its key is the line end itself.
pub parse_head-blank_key :
    (qr : QueryRequest) (cmd rest : List ℕ) (n : ℕ) (s : ParseState) (type : CmdType)
    → KeyCommand s type
    → IsWord cmd
    → command_state cmd ≡ s
    → length (cmd ++ space ∷ (replicate (suc n) space ++ line_end)) ≤ 511
    → qr.query_head_buf ≡ (cmd ++ space ∷ (replicate (suc n) space ++ line_end)) ++ 0 ∷ rest
    → parse_memcached_string_head qr ≡ (
      RetCode.ret_success,
      record qr { cmd_type = type; parse_status = ParseStatus.ps_succ; key = line_end },
    )
unfolding parse_memcached_string_head
parse_head-blank_key qr cmd rest n s type kc w e short at =
    ap (λ l. (l.retval, l.request))
      (head_loop-command qr cmd (replicate (suc n) space ++ line_end) rest w (text_of_blank (suc n))
          short at
        ∙ head_loop-key cmd _ _ _ s type kc e (scan_key-blank n _))
