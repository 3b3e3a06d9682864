-- ===== src/Slab/Pieces.antt =====
-- src/slab.c: all free chunks as pieces of memory, and those of a new page.
use linglongta.Prelude.{
  ℕ, zero, suc, ◌+◌, ◌*◌, ◌≤◌, ◌<◌, ◌≡◌, ◌≢◌, inl, inr, refl, sym, ap, ◌∙◌, subst, arith, List, [],
  ◌∷◌, ◌++◌, map, All, ℕ_discrete,
}
use linglongta.Slab.Apart.{Block, Apart, Pairwise, Picks, append-Picks}
use linglongta.Slab.Pools.{chunks}

abbrev pub piece : (size at : ℕ) → Block
piece size at = record { at = at; size = size }

-- The free chunks of the classes 1 to `n`.
abbrev pub free_blocks : (size : ℕ → ℕ) (n : ℕ) (pools : ℕ → List ℕ) → List Block
free_blocks size zero pools = []
free_blocks size (suc n) pools =
    map (piece (size (suc n))) (pools (suc n)) ++ free_blocks size n pools

module _ (size : ℕ → ℕ) where
  pub free_blocks_same :
      (n : ℕ) (f g : ℕ → List ℕ)
      → ((j : ℕ) → 0 < j → j ≤ n → f j ≡ g j)
      → free_blocks size n f ≡ free_blocks size n g
  free_blocks_same zero f g h = refl
  free_blocks_same (suc n) f g h =
      ap (λ l. map (piece (size (suc n))) l ++ free_blocks size n f)
        (h (suc n) (omega arith) (omega arith))
      ∙ ap (λ l. map (piece (size (suc n))) (g (suc n)) ++ l)
          (free_blocks_same n f g (λ j pos le. h j pos (omega arith)))

  -- One class has one chunk more.
  pub free_blocks-Picks :
      (n : ℕ) (f g : ℕ → List ℕ) (i a : ℕ)
      → 0 < i
      → i ≤ n
      → f i ≡ a ∷ g i
      → ((j : ℕ) → 0 < j → j ≢ i → f j ≡ g j)
      → Picks (piece (size i) a) (free_blocks size n f) (free_blocks size n g)
  free_blocks-Picks zero f g i a some le e h = absurd (omega arith)
  free_blocks-Picks (suc n) f g i a some le e h = elim (ℕ_discrete i (suc n)) [
    | yes last ↦
        subst
          (λ k. Picks (piece (size k) a) (free_blocks size (suc n) f) (free_blocks size (suc n) g))
          (sym last)
          (subst (λ l. Picks (piece (size (suc n)) a) l (free_blocks size (suc n) g))
            (sym (
              ap (λ l. map (piece (size (suc n))) l ++ free_blocks size n f)
                (ap f (sym last) ∙ e ∙ ap (λ k. a ∷ g k) last)
              ∙ ap (λ l. piece (size (suc n)) a ∷ (map (piece (size (suc n))) (g (suc n)) ++ l))
                  (free_blocks_same n f g (λ j pos below. h j pos (omega arith)))))
            Picks.here)
    | no other ↦
        subst
          (λ l.
            Picks (piece (size i) a)
              (map (piece (size (suc n))) (f (suc n)) ++ free_blocks size n f)
              (map (piece (size (suc n))) l ++ free_blocks size n g))
          (h (suc n) (omega arith) (λ q. other (sym q)))
          (append-Picks (map (piece (size (suc n))) (f (suc n)))
            (free_blocks-Picks n f g i a some (omega arith) e h))
  ]

-- The chunks of a page do not overlap what the page does not overlap.
pub chunks-Apart :
    (n at size : ℕ) (page b : Block)
    → page.at ≤ at
    → at + n * size ≤ page.at + page.size
    → Apart b page
    → All (Apart b) (map (piece size) (chunks n at size))
chunks-Apart zero at size page b from to apart = tt
chunks-Apart (suc n) at size page b from to apart = (
  elim apart [ inl before ↦ inl (omega arith) | inr behind ↦ inr (grind arith) ],
  chunks-Apart n (at + size) size page b (omega arith) (grind arith) apart,
)

pub chunks-Pairwise : (n at size : ℕ) → Pairwise (map (piece size) (chunks n at size))
chunks-Pairwise zero at size = tt
chunks-Pairwise (suc n) at size = (
  chunks-Apart n (at + size) size (record { at = at + size; size = n * size }) (piece size at)
      (omega arith) (omega arith) (inl (omega arith)),
  chunks-Pairwise n (at + size) size,
)
