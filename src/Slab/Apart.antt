-- ===== src/Slab/Apart.antt =====
-- Pieces of memory that do not overlap, for the chunks of src/slab.c.
use linglongta.Prelude.{ℕ, ◌+◌, ◌≤◌, ◌⊎◌, inl, inr, List, [], ◌∷◌, ◌++◌, All}

-- Some bytes of memory from an address on.
pub record Block : Type 0 where
  pub at : ℕ
  pub size : ℕ

abbrev pub Apart : Block → Block → Type 0
Apart a b = (a.at + a.size ≤ b.at) ⊎ (b.at + b.size ≤ a.at)

pub Apart-sym : (a b : Block) → Apart a b → Apart b a
Apart-sym a b (inl h) = inr h
Apart-sym a b (inr h) = inl h

-- No two pieces of the list overlap.
abbrev pub Pairwise : List Block → Type 0
Pairwise [] = Unit
Pairwise (b ∷ bs) = All (Apart b) bs × Pairwise bs

-- The second list is the first one without one place of `b`.
pub data Picks (b : Block) : List Block → List Block → Type 0 where
  here : {bs : List Block} → Picks b (b ∷ bs) bs
  there : {c : Block} {bs cs : List Block} → Picks b bs cs → Picks b (c ∷ bs) (c ∷ cs)

pub Picks-All :
    (P : Block → Type 0) {b : Block} {bs cs : List Block}
    → Picks b bs cs
    → All P bs
    → P b × All P cs
Picks-All P here (h, hs) = (h, hs)
Picks-All P (there p) (h, hs) = let (q, qs) = Picks-All P p hs in (q, (h, qs))

pub All-Picks :
    (P : Block → Type 0) {b : Block} {bs cs : List Block}
    → Picks b bs cs
    → P b
    → All P cs
    → All P bs
All-Picks P here q hs = (q, hs)
All-Picks P (there p) q (h, hs) = (h, All-Picks P p q hs)

pub Picks-Pairwise :
    {b : Block} {bs cs : List Block} → Picks b bs cs → Pairwise bs → Pairwise (b ∷ cs)
Picks-Pairwise here h = h
Picks-Pairwise {b} (there {c} p) (h, hs) =
    let (apart, rest) = Picks-Pairwise p hs in
    let (first, others) = Picks-All (Apart c) p h in ((Apart-sym c b first, apart), (others, rest))

pub Pairwise-Picks :
    {b : Block} {bs cs : List Block} → Picks b bs cs → Pairwise (b ∷ cs) → Pairwise bs
Pairwise-Picks here h = h
Pairwise-Picks {b} (there {c} p) ((first, apart), (others, rest)) =
    (All-Picks (Apart c) p (Apart-sym b c first) others, Pairwise-Picks p (apart, rest))

pub Picks-append :
    {b : Block} {bs cs : List Block}
    → Picks b bs cs
    → (ds : List Block) → Picks b (bs ++ ds) (cs ++ ds)
Picks-append here ds = Picks.here
Picks-append (there p) ds = Picks.there (Picks-append p ds)

pub append-Picks :
    {b : Block} {bs cs : List Block} (ds : List Block)
    → Picks b bs cs
    → Picks b (ds ++ bs) (ds ++ cs)
append-Picks [] p = p
append-Picks (d ∷ ds) p = Picks.there (append-Picks ds p)
