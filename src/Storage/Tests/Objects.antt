-- ===== src/Storage/Tests/Objects.antt =====
-- Test data: the store with one object of three bytes in it.
use linglongta.Prelude.{ℕ, zero, suc, ◌≢◌, ◌<◌, ap, arith, List, [], ◌∷◌}
use linglongta.Storage.Types.{BlockFile, fix_key, Storage}
use linglongta.Storage.Files.{take_slot}
use linglongta.Storage.Blocks.{append_at, store_block}
use linglongta.Storage.Slots.{slot_at}
use linglongta.Storage.Sizes.Powers.{nth_size}
use linglongta.Storage.Slots.Take.{HasRoom, Taken, take_slot-Taken}
use linglongta.Storage.Invariant.{IsStore}
use linglongta.Storage.Invariant.Steps.{append_at-IsStore}
use linglongta.Storage.Invariant.Calls.{AllRoom}
use linglongta.Storage.View.{Holds}
use linglongta.Storage.Stored.{append_at-Holds_self}
use linglongta.Storage.Tests.{
  Table, index, index-laws, crc, working, working-Works, no_blocks, no_blocks-IsBlockFile,
  empty_store, empty_store-IsStore,
}

abbrev pub name : List ℕ
name = 65 ∷ []

abbrev pub other_name : List ℕ
other_name = 66 ∷ []

abbrev pub content : List ℕ
content = 7 ∷ 8 ∷ 9 ∷ []

abbrev pub one_object : Storage Table
one_object = (append_at index crc working 0 name content (take_slot (no_blocks 0)) empty_store).1

pub no_blocks-HasRoom : (b : ℕ) → b < 3 → HasRoom (no_blocks b)
unfolding slot_at nth_size
no_blocks-HasRoom zero h = omega arith
no_blocks-HasRoom (suc zero) h = omega arith
no_blocks-HasRoom (suc (suc zero)) h = omega arith
no_blocks-HasRoom (suc (suc (suc b))) h = absurd (omega arith)

-- the first block of the second file
abbrev pub block_taken : BlockFile
block_taken = (take_slot (no_blocks 1)).1

pub block_taken-Taken : Taken (no_blocks 1) (take_slot (no_blocks 1)).0 block_taken
block_taken-Taken =
    take_slot-Taken (no_blocks 1) (no_blocks-IsBlockFile 1 (omega arith))
      (no_blocks-HasRoom 1 (omega arith))

pub fits : 3 < nth_size 0
unfolding nth_size
fits = omega arith

pub one_object-IsStore : IsStore index one_object
one_object-IsStore =
    append_at-IsStore index-laws crc working empty_store empty_store-IsStore 0 name content
      (omega arith) (omega (arith, fits)) _ _
      (take_slot-Taken (no_blocks 0) (no_blocks-IsBlockFile 0 (omega arith))
        (no_blocks-HasRoom 0 (omega arith)))

pub one_object-Holds : Holds index one_object (fix_key name) content
one_object-Holds =
    append_at-Holds_self index-laws crc working working-Works empty_store empty_store-IsStore 0 name
      content _ _ (omega arith)

pub one_object-AllRoom : AllRoom one_object
unfolding append_at take_slot store_block slot_at nth_size
one_object-AllRoom zero h = omega arith
one_object-AllRoom (suc zero) h = omega arith
one_object-AllRoom (suc (suc zero)) h = omega arith
one_object-AllRoom (suc (suc (suc b))) h = absurd (omega arith)

first : List ℕ → ℕ
first [] = 0
first (x ∷ xs) = x

pub names_differ : fix_key other_name ≢ fix_key name
unfolding fix_key first
names_differ e = omega (arith, ap first e)
