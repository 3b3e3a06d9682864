-- ===== src/Storage/Lifecycle/Kept.antt =====
-- src/storage.c: a store whose block files say the same, over the same bytes, is as sound and holds the same.
use linglongta.Prelude.{ℕ, ◌<◌, ◌≡◌, sym, ap, ◌∙◌, arith, subst, true, List}
use linglongta.Storage.Sizes.Table.{IsSizeTable}
use linglongta.Storage.Types.{BlockFile, Key, IndexValue, BdbOps, Storage}
use linglongta.Storage.Files.{fd_open, pread}
use linglongta.Storage.Slots.{total, IsSlot, slot_at, IsBlockFile, InUse}
use linglongta.Storage.Invariant.{IsEntry, IsStore}
use linglongta.Storage.View.{Holds}

-- The counters are the same, and the free slots up to their count.
pub record SameSlots (fh fh' : BlockFile) : Type 0 where
  pub block_size : fh'.block_size ≡ fh.block_size
  pub block_cnt : fh'.block_cnt ≡ fh.block_cnt
  pub free_slots_cnt : fh'.free_slots_cnt ≡ fh.free_slots_cnt
  pub slots : (i : ℕ) → i < fh.free_slots_cnt → fh'.free_slots_offset i ≡ fh.free_slots_offset i

module _ {fh fh' : BlockFile} (same : SameSlots fh fh') where
  same-IsSlot : (o : ℕ) → IsSlot fh o → IsSlot fh' o
  same-IsSlot o s = record {
    index = s.index;
    below = omega (arith, s.below, same.block_cnt, same.free_slots_cnt);
    at = s.at ∙ ap (λ z. slot_at z s.index) (sym same.block_size);
  }

  same-InUse : (o : ℕ) → InUse fh o → InUse fh' o
  same-InUse o u = record {
    slot = same-IsSlot o u.slot;
    not_free = λ i h e.
        u.not_free i (omega (arith, same.free_slots_cnt))
          (sym (same.slots i (omega (arith, same.free_slots_cnt))) ∙ e);
  }

  same-IsBlockFile : IsBlockFile fh → IsBlockFile fh'
  same-IsBlockFile w = record {
    sized = omega (arith, w.sized, same.block_size);
    room = omega (
      arith,
      w.room,
      ap (λ z. slot_at z (total fh')) same.block_size,
      ap (slot_at fh.block_size) same_total,
    );
    few = omega (arith, w.few, same.free_slots_cnt);
    free_at = λ i h.
        subst (IsSlot fh') (sym (same.slots i (omega (arith, same.free_slots_cnt))))
          (same-IsSlot (fh.free_slots_offset i) (w.free_at i (omega (arith, same.free_slots_cnt))));
    free_apart = λ i j h k e.
        w.free_apart i j (omega (arith, same.free_slots_cnt)) (omega (arith, same.free_slots_cnt)) (
          sym (same.slots i (omega (arith, same.free_slots_cnt)))
          ∙ e
          ∙ same.slots j (omega (arith, same.free_slots_cnt)));
  }
    where
      same_total : total fh' ≡ total fh
      same_total = omega (arith, same.block_cnt, same.free_slots_cnt)

-- The second store has the block types, the slots, the bytes and the index of the first.
pub record SameStore {Db : Type 0} (bdb : BdbOps Db) (s s' : Storage Db) : Type 0 where
  pub table : IsSizeTable s'.sizes
  pub count : s'.sizes.block_type_count ≡ s.sizes.block_type_count
  pub opened : (b : ℕ) → b < s.sizes.block_type_count → fd_open (s'.files b).fd ≡ true
  pub slots : (b : ℕ) → b < s.sizes.block_type_count → SameSlots (s.files b) (s'.files b)
  pub reads :
      (b : ℕ)
      → b < s.sizes.block_type_count
      → (o n : ℕ) → pread (s'.disk b) o n ≡ pread (s.disk b) o n
  pub index : (k : Key) → bdb.get s'.indexdb.dbp k ≡ bdb.get s.indexdb.dbp k

module _ {Db : Type 0} (bdb : BdbOps Db) (s s' : Storage Db) (w : IsStore bdb s)
    (same : SameStore bdb s s') where
  same_size :
      (b : ℕ)
      → b < s.sizes.block_type_count
      → s'.sizes.block_size_array b ≡ s.sizes.block_size_array b
  same_size b h = same.table.entry b (omega (arith, same.count)) ∙ sym (w.table.entry b h)

  same-IsEntry : (iv : IndexValue) → IsEntry s.sizes s.files iv → IsEntry s'.sizes s'.files iv
  same-IsEntry iv e = record {
    in_range = omega (arith, e.in_range, same.count);
    fits = omega (arith, e.fits, same_size iv.block_id e.in_range);
    used = same-InUse (same.slots iv.block_id e.in_range) iv.offset e.used;
  }

  pub same-IsStore : IsStore bdb s'
  same-IsStore = record {
    table = same.table;
    files = record {
      sound = λ b h.
          same-IsBlockFile (same.slots b (omega (arith, same.count)))
            (w.files.sound b (omega (arith, same.count)));
      sized = λ b h.
          (same.slots b (omega (arith, same.count))).block_size
          ∙ w.files.sized b (omega (arith, same.count))
          ∙ sym (same_size b (omega (arith, same.count)));
      opened = λ b h. same.opened b (omega (arith, same.count));
    };
    index = record {
      entry = λ k iv h. same-IsEntry iv (w.index.entry k iv (sym (same.index k) ∙ h));
      apart = λ k j iv jv h h' ne.
          w.index.apart k j iv jv (sym (same.index k) ∙ h) (sym (same.index j) ∙ h') ne;
    };
  }

  pub same-Holds : (k : Key) (content : List ℕ) → Holds bdb s k content → Holds bdb s' k content
  same-Holds k content held = record {
    iv = held.iv;
    entry = same.index k ∙ held.entry;
    reads =
        same.reads held.iv.block_id (w.index.entry k held.iv held.entry).in_range held.iv.offset
          held.iv.data_size
        ∙ held.reads;
    whole = held.whole;
  }
