-- ===== src/Storage/Slots.antt =====
-- src/storage.c: the blocks of a data file, in use or free.
pub mod Take
pub mod Give
use linglongta.Prelude.{
  ℕ, ◌+◌, ◌-◌, ◌*◌, ◌%◌, ◌^◌, ◌≤◌, ◌<◌, ◌≡◌, ◌≢◌, refl, sym, ap, ◌∙◌, ◌⊎◌, inl, inr, none, some,
  arith, leb, ◌==◌, if◌then◌else◌, update, update_self, update_ne, pigeonhole, Bool-cases, dec_lt,
  ℕ_discrete,
}
use linglongta.Rwlock.{inc, dec}
use linglongta.Storage.Types.{BlockFile, max_free_slots, data_section_pos}
use linglongta.Storage.Files.{take_slot, give_slot}

-- Where block `s` of a file with blocks of `size` bytes starts.
unfoldable pub slot_at : (size s : ℕ) → ℕ
slot_at size s = data_section_pos + size * s

-- The blocks of the file, in use, free or leaked, are numbered below this.
abbrev pub total : BlockFile → ℕ
total fh = fh.block_cnt + fh.free_slots_cnt

pub record IsSlot (fh : BlockFile) (offset : ℕ) : Type 0 where
  pub index : ℕ
  pub below : index < total fh
  pub at : offset ≡ slot_at fh.block_size index

-- The free slots are different blocks of the file, and the file is shorter than 2^63 bytes.
pub record IsBlockFile (fh : BlockFile) : Type 0 where
  pub sized : 128 ≤ fh.block_size
  pub room : slot_at fh.block_size (total fh) < 2 ^ 63
  pub few : fh.free_slots_cnt ≤ max_free_slots
  pub free_at : (i : ℕ) → i < fh.free_slots_cnt → IsSlot fh (fh.free_slots_offset i)
  pub free_apart :
      (i j : ℕ)
      → i < fh.free_slots_cnt
      → j < fh.free_slots_cnt
      → fh.free_slots_offset i ≡ fh.free_slots_offset j
      → i ≡ j

-- A block in use: one of the file that is not on the free list.
pub record InUse (fh : BlockFile) (offset : ℕ) : Type 0 where
  pub slot : IsSlot fh offset
  pub not_free : (i : ℕ) → i < fh.free_slots_cnt → fh.free_slots_offset i ≢ offset

pub slot_at-suc : (size s : ℕ) → slot_at size (s + 1) ≡ slot_at size s + size
unfolding slot_at
slot_at-suc size s = grind arith

pub slot_at_mono : (size s t : ℕ) → s ≤ t → slot_at size s ≤ slot_at size t
unfolding slot_at
slot_at_mono size s t h = grind arith

-- Different blocks do not overlap.
pub slot_at_apart :
    (size s t : ℕ)
    → slot_at size s ≢ slot_at size t
    → (slot_at size s + size ≤ slot_at size t) ⊎ (slot_at size t + size ≤ slot_at size s)
slot_at_apart size s t ne = elim (dec_lt s t) [
  | yes lt ↦ inl (omega (arith, slot_at-suc size s, slot_at_mono size (s + 1) t (omega arith)))
  | no ge ↦ elim (ℕ_discrete s t) [
    | yes same ↦ absurd (ne (ap (slot_at size) same))
    | no other ↦ inr (omega (arith, slot_at-suc size t, slot_at_mono size (t + 1) s (omega arith)))
  ]
]

pub slot_at_inj : (size s t : ℕ) → 128 ≤ size → slot_at size s ≡ slot_at size t → s ≡ t
slot_at_inj size s t h e = elim (dec_lt s t) [
  | yes lt ↦ absurd (omega (arith, slot_at-suc size s, slot_at_mono size (s + 1) t (omega arith)))
  | no ge ↦ elim (dec_lt t s) [
    | yes lt ↦ absurd (omega (arith, slot_at-suc size t, slot_at_mono size (t + 1) s (omega arith)))
    | no le ↦ omega arith
  ]
]

pub total-le-slot_at : (size s : ℕ) → 128 ≤ size → s ≤ slot_at size s
unfolding slot_at
total-le-slot_at size s h = grind arith

-- While a block is in use, the count of blocks is not 0.
pub InUse-block_cnt :
    (fh : BlockFile) (offset : ℕ) → IsBlockFile fh → InUse fh offset → 0 < fh.block_cnt
InUse-block_cnt fh offset w u = elim (dec_lt 0 fh.block_cnt) [
  | yes some_used ↦ some_used
  | no unused ↦ absurd (
      omega (
        arith,
        pigeonhole (total fh) (slot_at fh.block_size) (fh.free_slots_cnt + 1) with_free at_slot
            apart,
      ))
]
  where
    with_free : ℕ → ℕ
    with_free i = if i == fh.free_slots_cnt then offset else fh.free_slots_offset i

    at_slot :
        (i : ℕ)
        → i < fh.free_slots_cnt + 1
        → (s : ℕ) × (with_free i ≡ slot_at fh.block_size s) × (s < total fh)
    at_slot i h = elim (ℕ_discrete i fh.free_slots_cnt) [
      | yes last ↦ (u.slot.index, ground (arith, u.slot.at), u.slot.below)
      | no other ↦ let p = w.free_at i (omega arith) in (p.index, ground (arith, p.at), p.below)
    ]

    apart :
        (i j : ℕ)
        → i < fh.free_slots_cnt + 1
        → j < fh.free_slots_cnt + 1
        → with_free i ≡ with_free j
        → i ≡ j
    apart i j hi hj e = ground (arith, w.free_apart i j, u.not_free i, u.not_free j)
