-- ===== src/Storage/Lifecycle/OnDisk.antt =====
-- src/storage.c: what the data files have of the block files, and that the calls keep it.
pub mod Calls
pub mod Sync
use linglongta.Prelude.{
  ℕ, ◌+◌, ◌-◌, ◌≤◌, ◌<◌, ◌≡◌, refl, sym, ap, ◌∙◌, inl, inr, arith, Bool, true, Option, none, some,
  List, length, leb, ◌&&◌, ◌==◌, update, update_self, update_ne, subst, Bool-cases, Option-cases,
  ℕ_discrete, ℤ, negsuc,
}
use linglongta.Rwlock.{inc}
use linglongta.Storage.Sizes.{find_block_file, calc_block_size}
use linglongta.Storage.Types.{
  BlockFile, DataFile, Key, fix_key, IndexValue, Lookup, hit, miss, failed, BdbOps, Storage, Env,
  Run, done, aborted, blocked, undefined, data_section_pos, max_free_slots,
}
use linglongta.Storage.Files.{
  fd_open, grown, sync_data, sync_data_file_header, sync_slot, take_slot, give_slot,
}
use linglongta.Storage.Blocks.{
  is_zero, insert_record, del_record, store_block, append_at, append_block, modify_at, modify_block,
  do_delete_block,
}
use linglongta.Storage.Ops.{
  append_moved, replace_block, insert_block, update_found, update_locked, ex_unlock, update_block,
  delete_found, delete_locked, delete_block,
}
use linglongta.Storage.Invariant.Steps.{OnDone}
use linglongta.Storage.Invariant.Calls.{OnDone-fail_as}

-- The data file has room for a header, and the free slots of its block file.
pub record HasSlots (fh : BlockFile) (f : DataFile) : Type 0 where
  pub long : data_section_pos ≤ f.size
  pub slots : (i : ℕ) → i < fh.free_slots_cnt → f.free_slots_offset i ≡ fh.free_slots_offset i

-- So have all data files below `n`, and they are there.
pub record AreOnDisk (there : ℕ → Bool) (n : ℕ) (files : ℕ → BlockFile) (disk : ℕ → DataFile)
    : Type 0 where
  pub present : (b : ℕ) → b < n → there b ≡ true
  pub file : (b : ℕ) → b < n → HasSlots (files b) (disk b)

abbrev pub OnDisk : {Db : Type 0} → (there : ℕ → Bool) → Storage Db → Type 0
OnDisk there s = AreOnDisk there s.sizes.block_type_count s.files s.disk

pub update-AreOnDisk :
    (there : ℕ → Bool) (n : ℕ) (files : ℕ → BlockFile) (disk : ℕ → DataFile) (b : ℕ)
    (fh : BlockFile) (f : DataFile)
    → AreOnDisk there n files disk
    → (b < n → HasSlots fh f)
    → AreOnDisk there n (update files b fh) (update disk b f)
update-AreOnDisk there n files disk b fh f w here = record {
  present = w.present;
  file = λ c h. elim (ℕ_discrete b c) [
    | yes same ↦
        subst (λ d. HasSlots (update files b fh d) (update disk b f d)) same
          (rw (update_self files b fh) (rw (update_self disk b f) (here (omega (arith, same)))))
    | no other ↦ rw (update_ne files b c fh other) (rw (update_ne disk b c f other) (w.file c h))
  ];
}

pub disk-AreOnDisk :
    (there : ℕ → Bool) (n : ℕ) (files : ℕ → BlockFile) (disk : ℕ → DataFile) (b : ℕ) (f : DataFile)
    → AreOnDisk there n files disk
    → (b < n → HasSlots (files b) f)
    → AreOnDisk there n files (update disk b f)
disk-AreOnDisk there n files disk b f w here = record {
  present = w.present;
  file = λ c h. elim (ℕ_discrete b c) [
    | yes same ↦
        subst (λ d. HasSlots (files d) (update disk b f d)) same
          (rw (update_self disk b f) (here (omega (arith, same))))
    | no other ↦ rw (update_ne disk b c f other) (w.file c h)
  ];
}

pub header-HasSlots :
    (env : Env) (b : ℕ) (fh fh' : BlockFile) (f : DataFile)
    → HasSlots fh f
    → HasSlots fh (sync_data_file_header env b fh' f)
unfolding sync_data_file_header
header-HasSlots env b fh fh' f w = elim (Bool-cases (env.header_written b)) [
  | inl written ↦ rw written (record { long = w.long; slots = w.slots })
  | inr lost ↦ rw lost w
]

grown-le : (size offset w : ℕ) → size ≤ grown size offset w
unfolding grown
grown-le size offset w = ground arith

pub sync_data-HasSlots :
    (env : Env) (b offset : ℕ) (content : List ℕ) (fh : BlockFile) (f : DataFile)
    → HasSlots fh f
    → HasSlots fh (sync_data env b offset content f).1
unfolding sync_data
sync_data-HasSlots env b offset content fh f w = record {
  long = omega (arith, w.long, grown-le f.size offset (env.data_written b offset (length content)));
  slots = w.slots;
}

pub take_slot-HasSlots :
    (fh : BlockFile) (f : DataFile) → HasSlots fh f → HasSlots (take_slot fh).1 f
unfolding take_slot
take_slot-HasSlots fh f w = elim (Bool-cases (fh.free_slots_cnt == 0)) [
  | inl none_free ↦ rw none_free (record { long = w.long; slots = w.slots })
  | inr some_free ↦
      rw some_free (record { long = w.long; slots = λ i h. ground (arith, w.slots i) })
]

-- A property of the value, where there is one.
abbrev pub OnSome : (BlockFile → Type 0) → Option BlockFile → Type 0
OnSome P none = Unit
OnSome P (some fh) = P fh

one_more :
    (d a : ℕ → ℕ) (n offset : ℕ)
    → n < max_free_slots
    → ((i : ℕ) → i < n → d i ≡ a i)
    → (i : ℕ) → i < inc n
    → update d n offset i ≡ update a n offset i
one_more d a n offset few same i h = ground (arith, same i)

pub give_slot-HasSlots :
    (env : Env) (b offset : ℕ) (fh : BlockFile) (f : BlockFile → DataFile)
    → env.slot_written b fh.free_slots_cnt ≡ true
    → ((x : BlockFile) → HasSlots fh (f x))
    → OnSome
        (λ x. HasSlots x (sync_slot env b fh.free_slots_cnt offset (f x)))
        (give_slot offset fh)
unfolding give_slot sync_slot
give_slot-HasSlots env b offset fh f written w =
    elim (Bool-cases (leb max_free_slots fh.free_slots_cnt)) [
      | inl full ↦ rw full tt
      | inr room ↦ rw room (
          rw written (record {
            long = (w _).long;
            slots =
                one_more _ fh.free_slots_offset fh.free_slots_cnt offset (ground arith) (w _).slots;
          }))
    ]
