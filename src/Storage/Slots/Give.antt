-- ===== src/Storage/Slots/Give.antt =====
-- src/storage.c: how `do_delete_block` gives a block back.
use linglongta.Prelude.{
  ℕ, ◌+◌, ◌≤◌, ◌<◌, ◌≡◌, ◌≢◌, refl, ◌⊎◌, inl, inr, none, some, arith, leb, leb→le, update,
  update_self, update_ne, Bool-cases, ℕ_discrete,
}
use linglongta.Rwlock.{inc, dec}
use linglongta.Storage.Types.{BlockFile, max_free_slots}
use linglongta.Storage.Files.{give_slot}
use linglongta.Storage.Slots.{total-le-slot_at, total, IsSlot, IsBlockFile, InUse, InUse-block_cnt}

-- What giving a block back does: the block becomes the last free slot, behind those that there were; the file
-- stays sound, and the other blocks in use still are.
pub record Given (fh : BlockFile) (offset : ℕ) (fh' : BlockFile) : Type 0 where
  pub file : IsBlockFile fh'
  pub same_size : fh'.block_size ≡ fh.block_size
  pub same_fd : fh'.fd ≡ fh.fd
  pub same_total : total fh' ≡ total fh
  pub count : fh'.free_slots_cnt ≡ fh.free_slots_cnt + 1
  pub last : fh'.free_slots_offset fh.free_slots_cnt ≡ offset
  pub same_free : (i : ℕ) → i < fh.free_slots_cnt → fh'.free_slots_offset i ≡ fh.free_slots_offset i
  pub kept : (p : ℕ) → InUse fh p → p ≢ offset → InUse fh' p

module _ (fh : BlockFile) (offset : ℕ) (w : IsBlockFile fh) (u : InUse fh offset)
    (space : fh.free_slots_cnt < max_free_slots) where
  abbrev released : BlockFile
  released = record fh {
    block_cnt = dec fh.block_cnt;
    free_slots_offset = update fh.free_slots_offset fh.free_slots_cnt offset;
    free_slots_cnt = inc fh.free_slots_cnt;
  }

  total-released : total released ≡ total fh
  total-released = omega (
    arith,
    InUse-block_cnt fh offset w u,
    w.room,
    total-le-slot_at fh.block_size (total fh) w.sized,
  )

  released-IsSlot : (p : ℕ) → IsSlot fh p → IsSlot released p
  released-IsSlot p s = record {
    index = s.index;
    below = omega (arith, s.below, total-released);
    at = s.at;
  }

  released-free_at :
      (i : ℕ) → i < released.free_slots_cnt → IsSlot released (released.free_slots_offset i)
  released-free_at i h = elim (ℕ_discrete fh.free_slots_cnt i) [
    | yes e ↦ rw (← e) (
        rw (update_self fh.free_slots_offset fh.free_slots_cnt offset)
          (released-IsSlot offset u.slot))
    | no ne ↦
        rw (update_ne fh.free_slots_offset fh.free_slots_cnt i offset ne)
          (released-IsSlot _ (w.free_at i (omega arith)))
  ]

  pub released-Given : Given fh offset released
  released-Given = record {
    file = record {
      sized = w.sized;
      room = rw total-released w.room;
      few = omega arith;
      free_at = released-free_at;
      free_apart = λ i j h k p. ground (arith, w.free_apart i j, u.not_free i, u.not_free j);
    };
    same_size = refl;
    same_fd = refl;
    same_total = total-released;
    count = omega arith;
    last = update_self fh.free_slots_offset fh.free_slots_cnt offset;
    same_free = λ i h. update_ne fh.free_slots_offset fh.free_slots_cnt i offset (λ e. omega arith);
    kept = λ p v ne. record {
      slot = released-IsSlot p v.slot;
      not_free = λ i h q. ground (arith, v.not_free i);
    };
  }

-- `give_slot`, for a block in use of a sound block file, makes it the last free slot, which is one more
-- than before, keeps the free slots before it and the other blocks in use, and leaves the file sound. Where
-- the free list is full it gives nothing back.
pub give_slot-Given :
    (fh : BlockFile) (offset : ℕ)
    → IsBlockFile fh
    → InUse fh offset
    → ((max_free_slots ≤ fh.free_slots_cnt) × (give_slot offset fh ≡ none))
      ⊎ ((fh' : BlockFile) × (give_slot offset fh ≡ some fh') × Given fh offset fh')
unfolding give_slot
give_slot-Given fh offset w u = elim (Bool-cases (leb max_free_slots fh.free_slots_cnt)) [
  | inl full ↦ inl (leb→le _ _ full, rw full)
  | inr space ↦ inr (_, rw space, released-Given fh offset w u (ground arith))
]
