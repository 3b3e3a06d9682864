-- ===== src/Storage/Tests/Examples.antt =====
-- The theorems on the store at concrete inputs.
use linglongta.Prelude.{
  ℕ, ◌≤◌, ◌≡◌, refl, sym, arith, List, [], ◌∷◌, replicate, length, pos, negsuc, ◌⊎◌, none, some,
}
use linglongta.Storage.Types.{
  BlockFile, max_free_slots, fix_key, Storage, Env, done, blocked, Lookup,
}
use linglongta.Storage.Files.{take_slot, give_slot}
use linglongta.Storage.Blocks.{append_at, store_block}
use linglongta.Storage.Ops.{update_block, find_block, delete_block}
use linglongta.Storage.Sizes.{calc_block_size, find_block_file, init_storage, actual_largest}
use linglongta.Storage.Sizes.Powers.{nth_size, nth_size_mono}
use linglongta.Storage.Sizes.Table.{Covers, init_storage-Covers}
use linglongta.Storage.Sizes.Fit.{BestFit, TooLarge, find_block_file-calc_block_size}
use linglongta.Storage.Slots.Take.{Taken, take_slot-Taken}
use linglongta.Storage.Slots.Give.{Given, give_slot-Given}
use linglongta.Storage.Invariant.{IsStore}
use linglongta.Storage.Invariant.Steps.{OnDone}
use linglongta.Storage.Invariant.Calls.{update_block-IsStore, delete_block-IsStore}
use linglongta.Storage.View.{Holds}
use linglongta.Storage.Others.{update_block-Holds_ne, delete_block-Holds_ne}
use linglongta.Storage.Find.{found_all, find_block-keeps_lock, find_block-update_block}
use linglongta.Storage.TooLarge.{update_block-too_large_new, update_block-too_large_old}
use linglongta.Storage.Tests.{
  Table, index, index-laws, crc, working, working-Works, no_memory, sizes, no_blocks,
  no_blocks-IsBlockFile, empty_store, empty_store-IsStore, as_lookup-ne-failed,
}
use linglongta.Storage.Tests.Objects.{
  name, other_name, content, one_object, one_object-IsStore, one_object-Holds, one_object-AllRoom,
  no_blocks-HasRoom, names_differ, fits, block_taken, block_taken-Taken,
}

abbrev longer : List ℕ
longer = 1 ∷ 2 ∷ 3 ∷ 4 ∷ []

abbrev huge : List ℕ
huge = replicate 600 0

init_storage-Covers_example : Covers (actual_largest 1000) (init_storage 1000)
init_storage-Covers_example = init_storage-Covers 1000

find_block_file-calc_block_size_example :
    ((b : ℕ) × (find_block_file sizes (calc_block_size 200) ≡ some b) × BestFit sizes 200 b)
    ⊎ ((find_block_file sizes (calc_block_size 200) ≡ none) × TooLarge sizes 200)
find_block_file-calc_block_size_example =
    find_block_file-calc_block_size sizes 200 empty_store-IsStore.table (omega arith)

take_slot-Taken_example :
    Taken (no_blocks 1) (take_slot (no_blocks 1)).0 (take_slot (no_blocks 1)).1
take_slot-Taken_example =
    take_slot-Taken (no_blocks 1) (no_blocks-IsBlockFile 1 (omega arith))
      (no_blocks-HasRoom 1 (omega arith))

give_slot-Given_example :
    ((max_free_slots ≤ block_taken.free_slots_cnt)
      × (give_slot (take_slot (no_blocks 1)).0 block_taken ≡ none))
    ⊎ ((fh : BlockFile) × (give_slot (take_slot (no_blocks 1)).0 block_taken ≡ some fh)
        × Given block_taken (take_slot (no_blocks 1)).0 fh)
give_slot-Given_example =
    give_slot-Given block_taken (take_slot (no_blocks 1)).0 block_taken-Taken.file
      block_taken-Taken.used

find_block-update_block_example :
    (s' : Storage Table) × (update_block index crc working name longer one_object
      ≡ done (pos 0, s'))
    × (find_block index crc working name s' ≡ done (found_all longer, s'))
unfolding append_at store_block
find_block-update_block_example =
    find_block-update_block index-laws crc working working-Works one_object one_object-IsStore name
      longer refl (omega arith) 0 (omega arith) (omega (arith, fits))
      (λ e q. as_lookup-ne-failed _ e q)

update_block-Holds_ne_example :
    OnDone
      (λ r. Holds index r.1 (fix_key name) content)
      (update_block index crc no_memory other_name huge one_object)
update_block-Holds_ne_example =
    update_block-Holds_ne index-laws crc no_memory (fix_key name) content one_object
      one_object-IsStore one_object-Holds other_name huge one_object-AllRoom
      (λ e. names_differ (sym e))

delete_block-Holds_ne_example :
    OnDone
      (λ r. Holds index r.1 (fix_key name) content)
      (delete_block index crc no_memory other_name one_object)
delete_block-Holds_ne_example =
    delete_block-Holds_ne index-laws crc no_memory (fix_key name) content one_object
      one_object-IsStore one_object-Holds other_name (λ e. names_differ (sym e))

update_block-IsStore_example :
    OnDone (λ r. IsStore index r.1) (update_block index crc working name longer one_object)
update_block-IsStore_example =
    update_block-IsStore index-laws crc working one_object one_object-IsStore name longer
      one_object-AllRoom

delete_block-IsStore_example :
    OnDone (λ r. IsStore index r.1) (delete_block index crc working name one_object)
delete_block-IsStore_example =
    delete_block-IsStore index-laws crc working one_object one_object-IsStore name
      one_object-AllRoom

find_block-keeps_lock_example :
    (s' : Storage Table) × (find_block index crc no_memory name one_object
      ≡ done
          (record { ret = negsuc 0; value = none; value_len = one_object-Holds.iv.data_size }, s'))
    × ((env : Env) (k c : List ℕ) → update_block index crc env k c s' ≡ blocked)
    × ((env : Env) (k : List ℕ) → delete_block index crc env k s' ≡ blocked)
unfolding append_at store_block
find_block-keeps_lock_example =
    find_block-keeps_lock index crc no_memory one_object refl refl name one_object-Holds.iv
      one_object-Holds.entry (rw (← one_object-Holds.whole) refl)

huge-TooLarge : TooLarge sizes (length huge)
unfolding nth_size
huge-TooLarge c h = omega (arith, nth_size_mono c 2 (omega arith))

update_block-too_large_new_example :
    update_block index crc working name huge empty_store ≡ done (pos 0, empty_store)
update_block-too_large_new_example =
    update_block-too_large_new index-laws crc working empty_store empty_store-IsStore huge
      (omega arith) huge-TooLarge name refl refl refl

update_block-too_large_old_example :
    (s' : Storage Table) × (update_block index crc working name huge one_object
      ≡ done (negsuc 2, s'))
    × (index.get s'.indexdb.dbp (fix_key name) ≡ Lookup.miss)
unfolding append_at store_block nth_size
update_block-too_large_old_example =
    update_block-too_large_old index-laws crc working working-Works one_object one_object-IsStore
      name huge one_object-Holds.iv (omega arith) huge-TooLarge refl one_object-Holds.entry
