-- ===== src/Slab/Steps.antt =====
-- src/slab.c: allocations, reallocations and frees in any order, and what they keep.
use linglongta.Prelude.{
  ℕ, ◌+◌, ◌^◌, ◌<◌, ◌≡◌, inl, inr, refl, sym, ap, ◌∙◌, subst, arith, Option, none, some, List, [],
  ◌∷◌,
}
use linglongta.Slab.Alloc.{Slab, Memory, slab_alloc, head_size}
use linglongta.Slab.Release.{slab_free, slab_realloc}
use linglongta.Slab.Apart.{Block, Picks}
use linglongta.Slab.Owns.{Owns}
use linglongta.Slab.Grow.{IsFresh}
use linglongta.Slab.Calls.{reserved, slab_alloc-Allocated}
use linglongta.Slab.Free.{slab_free-Owns}
use linglongta.Slab.Resize.{Resized, slab_realloc-Resized, slab_realloc-Resized_null}

-- One call, with the blocks in use before and after it. What is freed or resized is in use, or NULL is resized. The memory of each call
-- is its own.
pub data Step : Slab → List Block → Slab → List Block → Type 0 where
  allocated :
      {s : Slab} {live : List Block} {s' : Slab} (m : Memory) (size : ℕ) (b : Block)
      → IsFresh m s live
      → size + head_size < 2 ^ 64
      → slab_alloc m size s ≡ (some (b.at + head_size), s')
      → b.size ≡ reserved s.sizes (size + head_size)
      → Step s live s' (b ∷ live)
  refused :
      {s : Slab} {live : List Block} {s' : Slab} (m : Memory) (size : ℕ)
      → IsFresh m s live
      → size + head_size < 2 ^ 64
      → slab_alloc m size s ≡ (none, s')
      → Step s live s' live
  freed :
      {s : Slab} {live : List Block} {s' : Slab} {rest : List Block} (m : Memory) (b : Block)
      → Picks b live rest
      → slab_free m (b.at + head_size) s ≡ s'
      → Step s live s' rest
  resized :
      {s : Slab} {live : List Block} {s' : Slab} {rest : List Block} (m : Memory) (size : ℕ)
      (b c : Block) (copied : ℕ)
      → IsFresh m s live
      → size + head_size < 2 ^ 64
      → Picks b live rest
      → slab_realloc m (b.at + head_size) size s ≡ (some (c.at + head_size, copied), s')
      → c.size ≡ reserved s.sizes (size + head_size)
      → Step s live s' (c ∷ rest)
  resized_null :
      {s : Slab} {live : List Block} {s' : Slab} (m : Memory) (size : ℕ) (c : Block) (copied : ℕ)
      → IsFresh m s live
      → size + head_size < 2 ^ 64
      → slab_realloc m 0 size s ≡ (some (c.at + head_size, copied), s')
      → c.size ≡ reserved s.sizes (size + head_size)
      → Step s live s' (c ∷ live)
  not_resized :
      {s : Slab} {live : List Block} {s' : Slab} {rest : List Block} (m : Memory) (size : ℕ)
      (b : Block)
      → IsFresh m s live
      → size + head_size < 2 ^ 64
      → Picks b live rest
      → slab_realloc m (b.at + head_size) size s ≡ (none, s')
      → Step s live s' live
  not_resized_null :
      {s : Slab} {live : List Block} {s' : Slab} (m : Memory) (size : ℕ)
      → IsFresh m s live
      → size + head_size < 2 ^ 64
      → slab_realloc m 0 size s ≡ (none, s')
      → Step s live s' live
  freed_null :
      {s : Slab} {live : List Block} {s' : Slab} (m : Memory)
      → slab_free m 0 s ≡ s'
      → Step s live s' live

pub data Reach (start : Slab) : Slab → List Block → Type 0 where
  here : Reach start start []
  next :
      {s : Slab} {live : List Block} {s' : Slab} {live' : List Block}
      → Reach start s live
      → Step s live s' live'
      → Reach start s' live'

same_block : (a b : Block) → a.at + head_size ≡ b.at + head_size → a.size ≡ b.size → a ≡ b
same_block a b e q = ground (arith, same (a.at) (b.at) e)
  where
    same : (x y : ℕ) → x + head_size ≡ y + head_size → x ≡ y
    same x y h = omega arith

slab_free-null : (m : Memory) (s : Slab) → slab_free m 0 s ≡ s
unfolding slab_free
slab_free-null m s = refl

pointer_of : Option (ℕ × ℕ) → ℕ
pointer_of none = 0
pointer_of (some (p, copied)) = p

-- The block that a call of `_slab_realloc` gives is the one that it takes into use.
block_in_use :
    {live : List Block} {room : ℕ} {r : Option (ℕ × ℕ) × Slab} {s' : Slab} (others : List Block)
    (c : Block) (copied : ℕ)
    → r ≡ (some (c.at + head_size, copied), s')
    → c.size ≡ room
    → Resized room live others r
    → Owns s' (c ∷ others)
unfolding pointer_of
block_in_use others c copied gives room (inl (null, owns)) = cc (ap (λ r. r.0) gives, null)
block_in_use {s' = s'} others c copied gives room (inr (d, n, ptr, size_of, owns)) =
    subst (λ e. Owns s' (e ∷ others))
      (same_block d c (ap pointer_of (sym ptr ∙ ap (λ r. r.0) gives)) (size_of ∙ sym room))
      (subst (λ r. Owns r.1 (d ∷ others)) gives owns)

pub Step-Owns :
    {s : Slab} {live : List Block} {s' : Slab} {live' : List Block}
    → Step s live s' live'
    → Owns s live
    → Owns s' live'
Step-Owns {s} {live} {s'} (allocated m size b fresh no_wrap gives room) w =
    elim (slab_alloc-Allocated m s live w fresh size no_wrap) [
      | inl (null, owns) ↦ cc (ap (λ r. r.0) gives, null)
      | inr (c, ptr, size_of, owns) ↦
          subst (λ d. Owns s' (d ∷ live))
            (same_block c b (cc (ap (λ r. r.0) gives, ptr)) (size_of ∙ sym room))
            (subst (λ r. Owns r.1 (c ∷ live)) gives owns)
    ]
Step-Owns {s} {live} {s'} (refused m size fresh no_wrap gives) w =
    elim (slab_alloc-Allocated m s live w fresh size no_wrap) [
      | inl (null, owns) ↦ subst (λ r. Owns r.1 live) gives owns
      | inr (c, ptr, size_of, owns) ↦ cc (ap (λ r. r.0) gives, ptr)
    ]
Step-Owns {s} {live} (freed {rest} m b picked e) w =
    subst (λ t. Owns t rest) e (slab_free-Owns m s b live rest w picked)
Step-Owns {s} {live} {s'} (resized {rest} m size b c copied fresh no_wrap picked gives room) w =
    block_in_use rest c copied gives room
      (slab_realloc-Resized m s live w fresh size no_wrap rest b picked)
Step-Owns {s} {live} {s'} (resized_null m size c copied fresh no_wrap gives room) w =
    block_in_use live c copied gives room (slab_realloc-Resized_null m s live w fresh size no_wrap)
Step-Owns {s} {live} {s'} (not_resized {rest} m size b fresh no_wrap picked gives) w =
    elim (slab_realloc-Resized m s live w fresh size no_wrap rest b picked) [
      | inl (null, owns) ↦ subst (λ r. Owns r.1 live) gives owns
      | inr (d, n, ptr, size_of, owns) ↦ cc (ap (λ r. r.0) gives, ptr)
    ]
Step-Owns {s} {live} {s'} (not_resized_null m size fresh no_wrap gives) w =
    elim (slab_realloc-Resized_null m s live w fresh size no_wrap) [
      | inl (null, owns) ↦ subst (λ r. Owns r.1 live) gives owns
      | inr (d, n, ptr, size_of, owns) ↦ cc (ap (λ r. r.0) gives, ptr)
    ]
Step-Owns {s} {live} (freed_null m gives) w =
    subst (λ t. Owns t live) (sym (slab_free-null m s) ∙ gives) w
