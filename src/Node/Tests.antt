-- ===== src/Node/Tests.antt =====
-- Connections to a data node at concrete bytes, and the theorems on them there.
use linglongta.Prelude.{refl, arith, none, [], ◌∷◌, ◌++◌}
use linglongta.Protocol.CString.{same_word}
use linglongta.Protocol.Commands.{CmdType}
use linglongta.Protocol.Head.{ParseState, command_state}
use linglongta.Protocol.KeyLine.{get_key}
use linglongta.Protocol.Numbers.{numeral_value}
use linglongta.Protocol.Words.{line_end}
use linglongta.Storage.Types.{Storage}
use linglongta.Storage.Tests.{
  Table, index, index-laws, crc, working, working-Works, empty_store, empty_store-IsStore,
  as_lookup-ne-failed,
}
use linglongta.Storage.Sizes.Powers.{nth_size}
use linglongta.Connection.Handler.{worker_of}
use linglongta.Connection.KeyHead.{IsKeyCommand}
use linglongta.Connection.Tests.{codes, can_alloc, zeroes, set_k-IsSetCommand}
use linglongta.Worker.Reply.{mc_set_done, get_header}
use linglongta.Worker.Tests.{willing, willing-IsPosix, fresh_socket}
use linglongta.Node.{Finished, hand_over}
use linglongta.Node.SetGet.{set_connection, get_connection, hand_over-set_get}

-- get k
get_k-IsKeyCommand : IsKeyCommand (codes "get") (codes "k") ParseState.s_get CmdType.cmd_get
unfolding command_state same_word
get_k-IsKeyCommand = record {
  kind = get_key;
  command = record { some_byte = λ e. cc; bytes = omega arith };
  command_line = omega arith;
  is_command = refl;
  key_word = record { some_byte = λ e. cc; bytes = omega arith };
  key_line = omega arith;
  key_room = omega arith;
  room = omega arith;
}

hand_over-set_get_example :
    (s : Storage Table) × Finished mc_set_done (worker_of 4 0) s fresh_socket (
      hand_over index crc working willing
        (set_connection can_alloc 4 0 zeroes
          (codes "set")
          (codes "k")
          (codes "0")
          (codes "0")
          (codes "3")
          (codes "get")
          set_k-IsSetCommand
          get_k-IsKeyCommand
          0
          (codes "a")
          (codes "bc" ∷ line_end ∷ []))
        empty_store
        fresh_socket)
    × Finished
        (get_header (codes "k") 0 3 ++ (codes "abc" ++ line_end))
        (worker_of 4 1)
        s
        fresh_socket
        (hand_over index crc working willing
          (get_connection can_alloc 4 0 zeroes
            (codes "set")
            (codes "k")
            (codes "0")
            (codes "0")
            (codes "3")
            (codes "get")
            set_k-IsSetCommand
            get_k-IsKeyCommand
            1)
          s
          fresh_socket)
unfolding nth_size numeral_value
hand_over-set_get_example =
    hand_over-set_get can_alloc 4 0 zeroes (codes "set") (codes "k") (codes "0") (codes "0")
      (codes "3") (codes "get") set_k-IsSetCommand get_k-IsKeyCommand index-laws crc working
      working-Works willing empty_store fresh_socket fresh_socket 0 1 0 (codes "a") (codes "abc")
      (codes "bc" ∷ line_end ∷ []) willing-IsPosix (λ sock n. refl) empty_store-IsStore refl refl
      (omega arith) (omega arith, (omega arith, tt)) refl refl (omega arith) (omega arith)
      (omega arith) (λ e q. as_lookup-ne-failed none e q)
