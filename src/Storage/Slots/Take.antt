-- ===== src/Storage/Slots/Take.antt =====
-- src/storage.c: how `append_block` takes a block.
use linglongta.Prelude.{
  ℕ, ◌+◌, ◌-◌, ◌*◌, ◌%◌, ◌^◌, ◌<◌, ◌≡◌, ◌≢◌, refl, sym, ◌∙◌, inl, inr, arith, ◌==◌, update,
  update_ne, Bool-cases,
}
use linglongta.Rwlock.{inc, dec}
use linglongta.Storage.Types.{BlockFile, data_section_pos}
use linglongta.Storage.Files.{take_slot}
use linglongta.Storage.Slots.{
  slot_at, slot_at_mono, slot_at_inj, total-le-slot_at, total, IsSlot, IsBlockFile, InUse,
}

-- What taking a block does: `offset` was not in use and is now, and what was in use still is.
pub record Taken (fh : BlockFile) (offset : ℕ) (fh' : BlockFile) : Type 0 where
  pub file : IsBlockFile fh'
  pub same_size : fh'.block_size ≡ fh.block_size
  pub same_fd : fh'.fd ≡ fh.fd
  pub used : InUse fh' offset
  pub kept : (p : ℕ) → InUse fh p → InUse fh' p
  pub fresh : (p : ℕ) → InUse fh p → p ≢ offset

abbrev pub HasRoom : BlockFile → Type 0
HasRoom fh = slot_at fh.block_size (total fh + 1) < 2 ^ 63

module _ (fh : BlockFile) (w : IsBlockFile fh) (more : HasRoom fh) where
  -- the block file after a new block has been added at the end, and after the last free one was taken
  abbrev extended : BlockFile
  extended = record fh { block_cnt = inc fh.block_cnt }

  abbrev reused : BlockFile
  reused = record fh {
    free_slots_offset = update fh.free_slots_offset (fh.free_slots_cnt - 1) 0;
    free_slots_cnt = fh.free_slots_cnt - 1;
    block_cnt = inc fh.block_cnt;
  }

  small_total : total fh + 1 < 2 ^ 63
  small_total = omega (arith, total-le-slot_at fh.block_size (total fh + 1) w.sized)

  same_count : dec (inc fh.block_cnt) ≡ fh.block_cnt
  same_count = omega (arith, small_total)

  new_offset :
      fh.free_slots_cnt ≡ 0
      → (data_section_pos + fh.block_size * dec (inc fh.block_cnt)) % 2 ^ 64
        ≡ slot_at fh.block_size fh.block_cnt
  unfolding slot_at
  new_offset e = rw same_count (omega (arith, below))
    where
      below : slot_at fh.block_size fh.block_cnt < 2 ^ 63
      below =
          omega (arith, w.room, slot_at_mono fh.block_size fh.block_cnt (total fh) (omega arith))

  extended-Taken : fh.free_slots_cnt ≡ 0 → Taken fh (slot_at fh.block_size fh.block_cnt) extended
  extended-Taken e = record {
    file = record {
      sized = w.sized;
      room = rw (← grow) more;
      few = w.few;
      free_at = λ i h. absurd (omega arith);
      free_apart = λ i j h k p. absurd (omega arith);
    };
    same_size = refl;
    same_fd = refl;
    used = record {
      slot = record { index = fh.block_cnt; below = omega (arith, small_total); at = refl };
      not_free = λ i h. absurd (omega arith);
    };
    kept = λ p u. record {
      slot = record {
        index = u.slot.index;
        below = omega (arith, u.slot.below, small_total);
        at = u.slot.at;
      };
      not_free = u.not_free;
    };
    fresh = λ p u q. absurd (
        omega (
          arith,
          u.slot.below,
          slot_at_inj fh.block_size u.slot.index fh.block_cnt w.sized (sym u.slot.at ∙ q),
        ));
  }
    where
      grow : total fh + 1 ≡ inc fh.block_cnt + fh.free_slots_cnt
      grow = omega (arith, small_total)

  module _ (some_free : 0 < fh.free_slots_cnt) where
    same_total : total reused ≡ total fh
    same_total = omega (arith, small_total)

    reused-IsSlot : (p : ℕ) → IsSlot fh p → IsSlot reused p
    reused-IsSlot p s = record {
      index = s.index;
      below = omega (arith, s.below, same_total);
      at = s.at;
    }

    reused-Taken : Taken fh (fh.free_slots_offset (fh.free_slots_cnt - 1)) reused
    reused-Taken = record {
      file = record {
        sized = w.sized;
        room = rw same_total w.room;
        few = omega (arith, w.few);
        free_at = λ i h.
            rw (update_ne fh.free_slots_offset (fh.free_slots_cnt - 1) i 0 (omega arith))
              (reused-IsSlot _ (w.free_at i (omega arith)));
        free_apart = λ i j h k p. ground (arith, w.free_apart i j);
      };
      same_size = refl;
      same_fd = refl;
      used = record {
        slot = reused-IsSlot _ (w.free_at (fh.free_slots_cnt - 1) (omega arith));
        not_free = λ i h p. absurd (ground (arith, w.free_apart i (fh.free_slots_cnt - 1)));
      };
      kept = λ p u. record {
        slot = reused-IsSlot p u.slot;
        not_free = λ i h q. ground (arith, u.not_free i);
      };
      fresh = λ p u q. u.not_free (fh.free_slots_cnt - 1) (omega arith) (sym q);
    }

  -- `take_slot`, on a sound block file that can grow by one block, takes a block that is not in use, free
  -- or new, and leaves a sound block file in which that block and those that were in use are in use.
  pub take_slot-Taken : Taken fh (take_slot fh).0 (take_slot fh).1
  unfolding take_slot
  take_slot-Taken = elim (Bool-cases (fh.free_slots_cnt == 0)) [
    | inl empty ↦ rw empty (rw (new_offset (ground arith)) (extended-Taken (ground arith)))
    | inr stock ↦ rw stock (reused-Taken (ground arith))
  ]
