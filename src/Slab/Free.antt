-- ===== src/Slab/Free.antt =====
-- src/slab.c: `_slab_free` of a block in use.
use linglongta.Prelude.{
  ℕ, ◌+◌, ◌-◌, ◌*◌, ◌%◌, ◌^◌, ◌≤◌, ◌<◌, ◌≡◌, inl, inr, sym, ap, subst, arith, false, Bool-cases,
  some, List, ◌∷◌, update, update_self, update_ne, ◌==◌, if◌then◌else◌, length,
}
use linglongta.Slab.Classes.{power_largest_max, slab_clsid}
use linglongta.Slab.Alloc.{Slab, Memory, head_size}
use linglongta.Slab.Release.{slots_bytes, put_slot, free_chunk, free_by, slab_free}
use linglongta.Slab.Apart.{
  Block, Pairwise, Picks, Picks-All, Picks-Pairwise, Pairwise-Picks, Picks-append, append-Picks,
}
use linglongta.Slab.Pools.{free_chunks}
use linglongta.Slab.Pieces.{piece, free_blocks-Picks}
use linglongta.Slab.Owns.{pools, owned, IsHeaded, Owns, classes_update}

module _ (m : Memory) (s : Slab) (b : Block) (live rest : List Block) (w : Owns s live)
    (picked : Picks b live rest) where
  without : Pairwise (b ∷ owned s rest)
  without = Picks-Pairwise (Picks-append picked _) w.apart

  -- The block is forgotten.
  gone : Owns s rest
  gone = record {
    table = w.table;
    classes = w.classes;
    apart = without.1;
    headed = (Picks-All (IsHeaded s.sizes s.heads) picked w.headed).1;
  }

  module _ (id : ℕ) (pos : 0 < id) (le : id ≤ s.sizes.power_largest)
      (same : b.size ≡ s.sizes.size id) where
    put_slot-Owns :
        (n : ℕ) → Owns (put_slot id b.at s (some (record (s.classes id) { sl_total = n }))) rest
    put_slot-Owns n = record {
      table = w.table;
      classes = classes_update s.sizes s.classes id _ w.classes (
          let c = w.classes id pos le in
          record { perslab = c.perslab; some_left = c.some_left; not_more = c.not_more });
      apart =
          Pairwise-Picks
            (append-Picks rest (
              free_blocks-Picks s.sizes.size s.sizes.power_largest
                (pools s.sizes (
                  update s.classes id
                    (record (s.classes id) { sl_total = n; slots = b.at ∷ (s.classes id).slots })))
                (pools s.sizes s.classes) id b.at pos le
                (ap (free_chunks (s.sizes.size id)) (update_self s.classes id _))
                (λ j given ne.
                  ap (free_chunks (s.sizes.size j))
                    (update_ne s.classes id j _ (λ q. ne (sym q))))))
            (subst (λ k. Pairwise (piece k b.at ∷ owned s rest)) same without);
      headed = gone.headed;
    }

    free_chunk-Owns : Owns (free_chunk m id b.at s) rest
    unfolding free_chunk
    free_chunk-Owns = elim (Bool-cases (length (s.classes id).slots == (s.classes id).sl_total)) [
      | inr room ↦ rw room (put_slot-Owns (s.classes id).sl_total)
      | inl full ↦
          rw full
            (elim (Bool-cases (
              m.can_realloc (
                slots_bytes (
                  if (s.classes id).sl_total == 0
                  then 1024
                  else (s.classes id).sl_total * 2 % 2 ^ 32)))) [
                    | inl longer ↦ rw longer (put_slot-Owns _)
                    | inr refused ↦ rw refused gone
                  ])
    ]

  free_head :
      Owns
        (if (s.heads b.at).is_malloc
          then s
          else free_by m (slab_clsid s.sizes (s.heads b.at).size % 2 ^ 8) b.at s)
        rest
  free_head = elim (Bool-cases (s.heads b.at).is_malloc) [
    | inl large ↦ rw large gone
    | inr small ↦ rw small (
        let (pos, le, same) =
          (Picks-All (IsHeaded s.sizes s.heads) picked w.headed).0.from_class small in
        subst (λ k. Owns (free_by m k b.at s) rest)
          (one_byte (slab_clsid s.sizes (s.heads b.at).size) (omega (arith, w.table.bounded)))
          (rw (positive (slab_clsid s.sizes (s.heads b.at).size) pos)
            (free_chunk-Owns (slab_clsid s.sizes (s.heads b.at).size) pos le same)))
  ]
    where
      one_byte : (k : ℕ) → k ≤ power_largest_max → k ≡ k % 2 ^ 8
      one_byte k h = omega arith

      positive : (k : ℕ) → 0 < k → (k == 0) ≡ false
      positive k h = ground arith

  pub slab_free-Owns : Owns (slab_free m (b.at + head_size) s) rest
  unfolding slab_free
  slab_free-Owns = rw (given (b.at + head_size) (omega arith)) (
      subst
        (λ h.
          Owns
            (if (s.heads h).is_malloc
              then s
              else free_by m (slab_clsid s.sizes (s.heads h).size % 2 ^ 8) h s)
            rest)
        (back b.at head_size) free_head)
    where
      given : (k : ℕ) → 0 < k → (k == 0) ≡ false
      given k h = ground arith

      back : (a n : ℕ) → a ≡ a + n - n
      back a n = omega arith
