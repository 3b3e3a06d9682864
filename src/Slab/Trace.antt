-- ===== src/Slab/Trace.antt =====
-- src/slab.c: allocations, reallocations and frees in any order, from `slab_init` on.
use linglongta.Prelude.{
  ℕ, zero, suc, ◌+◌, ◌^◌, ◌≤◌, ◌<◌, ◌≡◌, ◌⊎◌, inl, inr, refl, sym, ap, ◌∙◌, subst, arith, map,
  false, none, some, List, [], ◌∷◌, ◌++◌, Bool-cases, ltb,
}
use linglongta.Slab.Classes.{ClassSizes, tiny_size, init_sizes, slab_clsid}
use linglongta.Slab.Search.{slab_clsid-IsFirst}
use linglongta.Slab.Table.{IsTable, init_sizes-IsTable}
use linglongta.Slab.Alloc.{Slab, Memory, slab_init, slab_alloc, head_size}
use linglongta.Slab.Apart.{Block, Apart, Pairwise}
use linglongta.Slab.Pieces.{piece, free_blocks}
use linglongta.Slab.Owns.{owned, Owns, All-left}
use linglongta.Slab.Grow.{IsFresh}
use linglongta.Slab.Calls.{reserved, slab_alloc-Allocated}
use linglongta.Slab.Steps.{Reach, here, next, Step-Owns}

nothing_free :
    (size : ℕ → ℕ) (n : ℕ) (pools_of : ℕ → List ℕ)
    → ((j : ℕ) → pools_of j ≡ [])
    → free_blocks size n pools_of ≡ []
nothing_free size zero f h = refl
nothing_free size (suc n) f h =
    ap (λ l. map (piece (size (suc n))) l ++ free_blocks size n f) (h (suc n))
    ∙ nothing_free size n f h

Pairwise-left : (xs ys : List Block) → Pairwise (xs ++ ys) → Pairwise xs
Pairwise-left [] ys h = tt
Pairwise-left (x ∷ xs) ys (h, hs) = (All-left (Apart x) xs ys h, Pairwise-left xs ys hs)

module _ (grow : ℕ → ℕ) (grows : (n : ℕ) → tiny_size ≤ n → n < grow n) (limit : ℕ)
    (before : Slab) where
  slab_init-Owns : Owns (slab_init grow limit before) []
  unfolding slab_init
  slab_init-Owns = record {
    table = init_sizes-IsTable grow grows;
    classes = λ i pos le. record {
      perslab = refl;
      some_left = λ e. absurd (e refl);
      not_more = omega arith;
    };
    apart =
        subst Pairwise
          (sym (nothing_free (init_sizes grow).size (init_sizes grow).power_largest _ (λ j. refl)))
          tt;
    headed = tt;
  }

  Reach-Owns :
      {s : Slab} {live : List Block} → Reach (slab_init grow limit before) s live → Owns s live
  Reach-Owns here = slab_init-Owns
  Reach-Owns (next r step) = Step-Owns step (Reach-Owns r)

  -- From `slab_init` on, with a factor that makes each size from 16 bytes on larger, after any allocations and
  -- reallocations to less than 2^64 - 8 bytes and any frees, of blocks in use or NULL for the latter two, as
  -- long as the C library gives memory that overlaps nothing that is in use or free: no two blocks
  -- overlap, be they in use or free.
  pub Reach-Pairwise :
      {s : Slab} {live : List Block}
      → Reach (slab_init grow limit before) s live
      → Pairwise (owned s live)
  Reach-Pairwise r = (Reach-Owns r).apart

  wanted-le-reserved :
      (c : ClassSizes) (wanted : ℕ) → IsTable c → 0 < wanted → wanted ≤ reserved c wanted
  wanted-le-reserved c wanted t given =
      elim (Bool-cases (ltb c.power_largest (slab_clsid c wanted))) [
        | inl large ↦ rw large (omega arith)
        | inr within ↦ rw within (
            (slab_clsid-IsFirst c t.sorted wanted given).fits
              (not_above c.power_largest (slab_clsid c wanted) within))
      ]
    where
      not_above : (a b : ℕ) → ltb a b ≡ false → b ≤ a
      not_above a b h = ground arith

  -- From `slab_init` on, with a factor that makes each size from 16 bytes on larger, after any allocations and
  -- reallocations to less than 2^64 - 8 bytes and any frees, of blocks in use or NULL for the latter two, as
  -- long as the C library gives memory that overlaps nothing that is in use or free: an
  -- allocation of less than 2^64 - 8 bytes gives NULL, or a pointer behind the header of a block that has room for
  -- the header and all these bytes, and that overlaps no block in use.
  pub slab_alloc-Reach :
      {s : Slab} {live : List Block} (m : Memory) (size : ℕ)
      → Reach (slab_init grow limit before) s live
      → IsFresh m s live
      → size + head_size < 2 ^ 64
      → ((slab_alloc m size s).0 ≡ none)
        ⊎ ((b : Block) × ((slab_alloc m size s).0 ≡ some (b.at + head_size))
            × (size + head_size ≤ b.size)
            × Pairwise (b ∷ live))
  slab_alloc-Reach {s} {live} m size r fresh no_wrap =
      elim (slab_alloc-Allocated m s live (Reach-Owns r) fresh size no_wrap) [
        | inl (null, owns) ↦ inl null
        | inr (b, gives, room, owns) ↦ inr (
          b,
          gives,
          subst (λ k. size + head_size ≤ k) (sym room)
              (wanted-le-reserved s.sizes (size + head_size) (Reach-Owns r).table (omega arith)),
          Pairwise-left (b ∷ live) _ owns.apart,
        )
      ]
