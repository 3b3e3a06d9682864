-- ===== src/Slab/Calls.antt =====
-- src/slab.c: `_slab_alloc` and `_slab_free` keep the blocks in use apart.
use linglongta.Prelude.{
  ℕ, ◌+◌, ◌%◌, ◌^◌, ◌≤◌, ◌<◌, ◌≡◌, ◌≢◌, ◌⊎◌, inl, inr, refl, sym, ap, subst, arith, Bool, true,
  false, Bool-cases, Option, none, some, List, ◌∷◌, update, update_self, ltb, ◌==◌, if◌then◌else◌,
}
use linglongta.Slab.Classes.{ClassSizes, slab_clsid}
use linglongta.Slab.Search.{IsFirst, slab_clsid-IsFirst, size_le}
use linglongta.Slab.Alloc.{
  Slab, Memory, head_size, has_chunk, take_from, take_new, alloc_class, alloc_large, alloc_by,
  slab_alloc,
}
use linglongta.Slab.Apart.{Block, Apart}
use linglongta.Slab.Pieces.{piece}
use linglongta.Slab.Owns.{Owns, headed_beside, All-left, take_from-Owns}
use linglongta.Slab.Grow.{IsFresh}
use linglongta.Slab.Pages.{Grown, do_slabs_newslab-Grown}

-- The bytes that an allocation sets aside: those of a chunk, or just the ones wanted.
abbrev pub reserved : ClassSizes → (wanted : ℕ) → ℕ
reserved c wanted =
    if ltb c.power_largest (slab_clsid c wanted) then wanted else c.size (slab_clsid c wanted)

-- An allocation gives NULL and leaves the owners as they are, or it hands out a block of this size that
-- overlaps no other.
abbrev pub Allocated : (room : ℕ) (live : List Block) → Option ℕ × Slab → Type 0
Allocated room live r =
    ((r.0 ≡ none) × Owns r.1 live)
    ⊎ ((b : Block) × (r.0 ≡ some (b.at + head_size)) × (b.size ≡ room) × Owns r.1 (b ∷ live))

module _ (m : Memory) (s : Slab) (live : List Block) (w : Owns s live) (fresh : IsFresh m s live)
    (wanted : ℕ) (some_byte : 0 < wanted) where
  found : IsFirst s.sizes wanted (slab_clsid s.sizes wanted)
  found = slab_clsid-IsFirst s.sizes w.table.sorted wanted some_byte

  alloc_large-Allocated : Allocated wanted live (alloc_large m wanted s)
  unfolding alloc_large
  alloc_large-Allocated = elim (Bool-cases (m.malloc wanted == 0)) [
    | inl refused ↦ rw refused (inl (refl, w))
    | inr given ↦ rw given (
        inr (
          piece wanted (m.malloc wanted),
          refl,
          omega arith,
          record {
            table = w.table;
            classes = w.classes;
            apart = (fresh.large wanted (not_zero (m.malloc wanted) given), w.apart);
            headed = (
              record { some_byte = some_byte; from_class = λ e. absurd (large e) },
              headed_beside s.sizes s.heads (piece wanted (m.malloc wanted)) _ live some_byte
                  (All-left (Apart (piece wanted (m.malloc wanted))) live _
                    (fresh.large wanted (not_zero (m.malloc wanted) given)))
                  w.headed,
            );
          },
        ))
  ]
    where
      not_zero : (k : ℕ) → (k == 0) ≡ false → k ≢ 0
      not_zero k h e = ground arith

      large :
          (update s.heads
              (m.malloc wanted)
              (record { is_malloc = true; size = wanted % 2 ^ 32 })
              (m.malloc wanted)).is_malloc
            ≡ false
          → ⊥
      large e = cc (
        ap (λ h. h.is_malloc)
            (update_self s.heads (m.malloc wanted)
              (record { is_malloc = true; size = wanted % 2 ^ 32 })),
        e,
      )

  module _ (le : slab_clsid s.sizes wanted ≤ s.sizes.power_largest) where
    fits : wanted ≤ s.sizes.size (slab_clsid s.sizes wanted)
    fits = found.fits le

    small : wanted < 2 ^ 32
    small = omega (
      arith,
      fits,
      w.table.last,
      size_le s.sizes w.table.sorted (slab_clsid s.sizes wanted) s.sizes.power_largest le
          (omega arith),
    )

    take_from-Allocated :
        (s' : Slab)
        → Owns s' live
        → s'.sizes ≡ s.sizes
        → has_chunk (s'.classes (slab_clsid s.sizes wanted)) ≡ true
        → Allocated
            (s.sizes.size (slab_clsid s.sizes wanted))
            live
            (take_from (slab_clsid s.sizes wanted) wanted s')
    take_from-Allocated s' w' same has =
        let (gives, owns) =
          take_from-Owns s' live w' (slab_clsid s.sizes wanted) wanted found.positive
            (subst (λ c. slab_clsid s.sizes wanted ≤ c.power_largest) (sym same) le) has small
            (ap (λ c. slab_clsid c wanted) same) in
        inr (_, gives, ap (λ c. c.size (slab_clsid s.sizes wanted)) same, owns)

    take_new-Allocated :
        (r : Bool × Slab)
        → Grown s live (slab_clsid s.sizes wanted) r
        → Allocated
            (s.sizes.size (slab_clsid s.sizes wanted))
            live
            (take_new (slab_clsid s.sizes wanted) wanted r)
    take_new-Allocated (false, s') g = inl (refl, g.owns)
    take_new-Allocated (true, s') g = take_from-Allocated s' g.owns g.same_sizes (g.gets refl)

    alloc_class-Allocated :
        Allocated
          (s.sizes.size (slab_clsid s.sizes wanted))
          live
          (alloc_class m (slab_clsid s.sizes wanted) wanted s)
    unfolding alloc_class
    alloc_class-Allocated = elim (Bool-cases (has_chunk (s.classes (slab_clsid s.sizes wanted)))) [
      | inl has ↦ rw has (take_from-Allocated s w refl has)
      | inr empty ↦ rw empty (
          take_new-Allocated _ (
            do_slabs_newslab-Grown s live w (slab_clsid s.sizes wanted) found.positive le m fresh
              empty))
    ]

  alloc_by-Allocated :
      Allocated (reserved s.sizes wanted) live (alloc_by m (slab_clsid s.sizes wanted) wanted s)
  alloc_by-Allocated = elim (Bool-cases (ltb s.sizes.power_largest (slab_clsid s.sizes wanted))) [
    | inl large ↦
        rw (positive (slab_clsid s.sizes wanted) found.positive, large) alloc_large-Allocated
    | inr within ↦
        rw (positive (slab_clsid s.sizes wanted) found.positive, within)
          (alloc_class-Allocated
            (not_above s.sizes.power_largest (slab_clsid s.sizes wanted) within))
  ]
    where
      positive : (k : ℕ) → 0 < k → (k == 0) ≡ false
      positive k h = ground arith

      not_above : (a b : ℕ) → ltb a b ≡ false → b ≤ a
      not_above a b h = ground arith

pub slab_alloc-Allocated :
    (m : Memory) (s : Slab) (live : List Block)
    → Owns s live
    → IsFresh m s live
    → (size : ℕ) → size + head_size < 2 ^ 64
    → Allocated (reserved s.sizes (size + head_size)) live (slab_alloc m size s)
unfolding slab_alloc
slab_alloc-Allocated m s live w fresh size no_wrap =
    subst
      (λ n.
        Allocated (reserved s.sizes (size + head_size)) live
          (alloc_by m (slab_clsid s.sizes n) n s))
      (whole (size + head_size) no_wrap)
      (alloc_by-Allocated m s live w fresh (size + head_size) (omega arith))
  where
    whole : (n : ℕ) → n < 2 ^ 64 → n ≡ n % 2 ^ 64
    whole n h = omega arith
