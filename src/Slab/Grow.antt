-- ===== src/Slab/Grow.antt =====
-- src/slab.c: `do_slabs_newslab` gives a class a page of chunks that overlap nothing.
use linglongta.Prelude.{
  ℕ, ◌/◌, ◌≤◌, ◌<◌, ◌≢◌, sym, ap, ◌∙◌, arith, List, [], ◌∷◌, ◌++◌, map, All, update, update_self,
  update_ne,
}
use linglongta.Slab.Classes.{power_block}
use linglongta.Slab.Alloc.{Slab, Memory}
use linglongta.Slab.Apart.{
  Block, Apart, Apart-sym, Pairwise, Picks, append-Picks, All-Picks, Pairwise-Picks,
}
use linglongta.Slab.Pools.{chunks}
use linglongta.Slab.Pieces.{piece, free_blocks, free_blocks-Picks, chunks-Apart}
use linglongta.Slab.Owns.{owned}

-- The memory that `valloc` and `malloc` give overlaps nothing of what was obtained from them before.
pub record IsFresh (m : Memory) (s : Slab) (live : List Block) : Type 0 where
  pub page :
      m.valloc power_block ≢ 0
      → All (Apart (piece power_block (m.valloc power_block))) (owned s live)
  pub large : (n : ℕ) → m.malloc n ≢ 0 → All (Apart (piece n (m.malloc n))) (owned s live)

heads_of :
    (c : Block) (cs bs : List Block) → All (λ x. All (Apart x) (c ∷ cs)) bs → All (Apart c) bs
heads_of c cs [] h = tt
heads_of c cs (b ∷ bs) ((first, rest), h) = (Apart-sym b c first, heads_of c cs bs h)

tails_of :
    (c : Block) (cs bs : List Block)
    → All (λ x. All (Apart x) (c ∷ cs)) bs
    → All (λ x. All (Apart x) cs) bs
tails_of c cs [] h = tt
tails_of c cs (b ∷ bs) ((first, rest), h) = (rest, tails_of c cs bs h)

-- Many chunks of one class join pieces that they do not overlap.
module _ (size : ℕ → ℕ) (n : ℕ) (f : ℕ → List ℕ) (id : ℕ) (pos : 0 < id) (le : id ≤ n)
    (live : List Block) where
  abbrev with_chunks : List ℕ → List Block
  with_chunks cs = live ++ free_blocks size n (update f id cs)

  one_more :
      (c : ℕ) (cs : List ℕ) → Picks (piece (size id) c) (with_chunks (c ∷ cs)) (with_chunks cs)
  one_more c cs = append-Picks live (
      free_blocks-Picks size n (update f id (c ∷ cs)) (update f id cs) id c pos le
        (update_self f id (c ∷ cs) ∙ ap (λ l. c ∷ l) (sym (update_self f id cs)))
        (λ j some ne.
          update_ne f id j (c ∷ cs) (λ q. ne (sym q))
          ∙ sym (update_ne f id j cs (λ q. ne (sym q)))))

  all_added :
      (P : Block → Type 0) (cs : List ℕ)
      → All P (map (piece (size id)) cs)
      → All P (with_chunks [])
      → All P (with_chunks cs)
  all_added P [] h k = k
  all_added P (c ∷ cs) (h, hs) k = All-Picks P (one_more c cs) h (all_added P cs hs k)

  pub added-Pairwise :
      (cs : List ℕ)
      → Pairwise (map (piece (size id)) cs)
      → All (λ x. All (Apart x) (map (piece (size id)) cs)) (with_chunks [])
      → Pairwise (with_chunks [])
      → Pairwise (with_chunks cs)
  added-Pairwise [] h k w = w
  added-Pairwise (c ∷ cs) (h, hs) k w = Pairwise-Picks (one_more c cs) (
    all_added (Apart (piece (size id) c)) cs h
        (heads_of (piece (size id) c) (map (piece (size id)) cs) (with_chunks []) k),
    added-Pairwise cs hs
        (tails_of (piece (size id) c) (map (piece (size id)) cs) (with_chunks []) k) w,
  )

pub page_chunks-Apart :
    (size at : ℕ) (bs : List Block)
    → All (Apart (piece power_block at)) bs
    → All (λ x. All (Apart x) (map (piece size) (chunks (power_block / size) at size))) bs
page_chunks-Apart size at [] h = tt
page_chunks-Apart size at (b ∷ bs) (h, hs) = (
  chunks-Apart (power_block / size) at size (piece power_block at) b (omega arith) (grind arith)
      (Apart-sym (piece power_block at) b h),
  page_chunks-Apart size at bs hs,
)
