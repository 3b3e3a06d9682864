-- ===== src/Slab/Resize.antt =====
-- src/slab.c: `_slab_realloc`, in terms of `_slab_alloc` and `_slab_free`.
use linglongta.Prelude.{
  ℕ, ◌+◌, ◌^◌, ◌<◌, ◌≡◌, ◌⊎◌, inl, inr, refl, ap, arith, false, none, some, Option, List, ◌∷◌,
  Bool-cases, ◌==◌,
}
use linglongta.Slab.Alloc.{Slab, Memory, head_size}
use linglongta.Slab.Release.{move_to, copied_none, slab_realloc}
use linglongta.Slab.Apart.{Block, Picks}
use linglongta.Slab.Owns.{Owns}
use linglongta.Slab.Grow.{IsFresh}
use linglongta.Slab.Calls.{reserved, Allocated, slab_alloc-Allocated}
use linglongta.Slab.Free.{slab_free-Owns}

-- A call of `_slab_realloc` gives NULL and changes nothing that is in use, or a new block beside those of `rest`.
abbrev pub Resized : (room : ℕ) (live rest : List Block) → Option (ℕ × ℕ) × Slab → Type 0
Resized room live rest r =
    ((r.0 ≡ none) × Owns r.1 live)
    ⊎ ((b : Block) × (copied : ℕ) × (r.0 ≡ some (b.at + head_size, copied))
        × (b.size ≡ room)
        × Owns r.1 (b ∷ rest))

with_copied : ℕ → Option ℕ → Option (ℕ × ℕ)
with_copied copied none = none
with_copied copied (some p) = some (p, copied)

module _ (m : Memory) (live : List Block) (room : ℕ) where
  copied_none-Resized :
      (r : Option ℕ × Slab) → Allocated room live r → Resized room live live (copied_none r)
  unfolding with_copied
  copied_none-Resized (none, s) (inl (null, owns)) = inl (refl, owns)
  copied_none-Resized (none, s) (inr (b, gives, size, owns)) = cc
  copied_none-Resized (some p, s) (inl (null, owns)) = cc
  copied_none-Resized (some p, s) (inr (b, gives, size, owns)) =
      inr (b, 0, ap (with_copied 0) gives, size, owns)

  -- The old block is freed once there is a new one.
  move_to-Resized :
      (rest : List Block) (b : Block) (size : ℕ)
      → Picks b live rest
      → (r : Option ℕ × Slab) → Allocated room live r
      → Resized room live rest (move_to m (b.at + head_size) size r)
  unfolding with_copied
  move_to-Resized rest b size picked (none, s) (inl (null, owns)) = inl (refl, owns)
  move_to-Resized rest b size picked (none, s) (inr (c, gives, room_of, owns)) = cc
  move_to-Resized rest b size picked (some p, s) (inl (null, owns)) = cc
  move_to-Resized rest b size picked (some p, s) (inr (c, gives, room_of, owns)) = inr (
    c,
    _,
    ap (with_copied _) gives,
    room_of,
    slab_free-Owns m s b (c ∷ live) (c ∷ rest) owns (Picks.there picked),
  )

module _ (m : Memory) (s : Slab) (live : List Block) (w : Owns s live) (fresh : IsFresh m s live)
    (size : ℕ) (no_wrap : size + head_size < 2 ^ 64) where
  pub slab_realloc-Resized_null :
      Resized (reserved s.sizes (size + head_size)) live live (slab_realloc m 0 size s)
  unfolding slab_realloc
  slab_realloc-Resized_null = elim (Bool-cases (size == 0)) [
    | inl nothing ↦ rw nothing (inl (refl, w))
    | inr wanted ↦
        rw wanted
          (copied_none-Resized m live _ _ (slab_alloc-Allocated m s live w fresh size no_wrap))
  ]

  pub slab_realloc-Resized :
      (rest : List Block) (b : Block)
      → Picks b live rest
      → Resized
          (reserved s.sizes (size + head_size))
          live
          rest
          (slab_realloc m (b.at + head_size) size s)
  unfolding slab_realloc
  slab_realloc-Resized rest b picked = elim (Bool-cases (size == 0)) [
    | inl nothing ↦ rw nothing (inl (refl, w))
    | inr wanted ↦
        rw (wanted, not_null b.at)
          (move_to-Resized m live _ rest b size picked _
            (slab_alloc-Allocated m s live w fresh size no_wrap))
  ]
    where
      not_null : (k : ℕ) → (k + head_size == 0) ≡ false
      not_null k = ground arith
