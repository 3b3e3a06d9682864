-- ===== src/Slab/Owns.antt =====
-- src/slab.c: who owns which piece of memory, and what a class hands out.
use linglongta.Prelude.{
  ℕ, ◌+◌, ◌%◌, ◌^◌, ◌≤◌, ◌<◌, ◌≡◌, ◌≢◌, inl, inr, refl, sym, ap, ◌∙◌, subst, arith, true, false,
  some, List, [], ◌∷◌, ◌++◌, All, update, update_self, update_ne, ℕ_discrete,
}
use linglongta.Slab.Classes.{ClassSizes, slab_clsid}
use linglongta.Slab.Table.{IsTable}
use linglongta.Slab.Alloc.{SlabClass, SlabHead, Slab, has_chunk, take_chunk, take_from, head_size}
use linglongta.Slab.Apart.{Block, Apart, Pairwise, append-Picks, Picks-Pairwise}
use linglongta.Slab.Pools.{free_chunks, IsClass, take_chunk-free_chunks}
use linglongta.Slab.Pieces.{piece, free_blocks, free_blocks-Picks}

abbrev pub pools : ClassSizes → (ℕ → SlabClass) → ℕ → List ℕ
pools c classes j = free_chunks (c.size j) (classes j)

-- The memory that the allocator has to give out or has given out: the blocks in use, and the free chunks.
abbrev pub owned : Slab → List Block → List Block
owned s live = live ++ free_blocks s.sizes.size s.sizes.power_largest (pools s.sizes s.classes)

-- The head in front of a block in use says where it belongs.
pub record IsHeaded (c : ClassSizes) (heads : ℕ → SlabHead) (b : Block) : Type 0 where
  pub some_byte : 0 < b.size
  pub from_class :
      (heads b.at).is_malloc ≡ false
      → (0 < slab_clsid c (heads b.at).size)
        × (slab_clsid c (heads b.at).size ≤ c.power_largest)
        × (b.size ≡ c.size (slab_clsid c (heads b.at).size))

-- No two blocks in use or free overlap.
pub record Owns (s : Slab) (live : List Block) : Type 0 where
  pub table : IsTable s.sizes
  pub classes : (i : ℕ) → 0 < i → i ≤ s.sizes.power_largest → IsClass (s.sizes.size i) (s.classes i)
  pub apart : Pairwise (owned s live)
  pub headed : All (IsHeaded s.sizes s.heads) live

pub All-left : (P : Block → Type 0) (xs ys : List Block) → All P (xs ++ ys) → All P xs
All-left P [] ys h = tt
All-left P (x ∷ xs) ys (h, hs) = (h, All-left P xs ys hs)

pub classes_update :
    (c : ClassSizes) (classes : ℕ → SlabClass) (id : ℕ) (p : SlabClass)
    → ((i : ℕ) → 0 < i → i ≤ c.power_largest → IsClass (c.size i) (classes i))
    → IsClass (c.size id) p
    → (i : ℕ) → 0 < i
    → i ≤ c.power_largest
    → IsClass (c.size i) (update classes id p i)
classes_update c classes id p h w i pos le = elim (ℕ_discrete id i) [
  | yes e ↦
      subst (λ k. IsClass (c.size k) (update classes id p k)) e
        (subst (IsClass (c.size id)) (sym (update_self classes id p)) w)
  | no ne ↦ subst (IsClass (c.size i)) (sym (update_ne classes id i p ne)) (h i pos le)
]

-- A head that is written in front of one block leaves the heads of the others.
pub headed_beside :
    (c : ClassSizes) (heads : ℕ → SlabHead) (b : Block) (head : SlabHead) (live : List Block)
    → 0 < b.size
    → All (Apart b) live
    → All (IsHeaded c heads) live
    → All (IsHeaded c (update heads b.at head)) live
headed_beside c heads b head [] pos apart h = tt
headed_beside c heads b head (d ∷ live) pos (apart, others) (h, hs) = (
  record {
    some_byte = h.some_byte;
    from_class =
        subst
          (λ z.
            z.is_malloc ≡ false
            → (0 < slab_clsid c z.size)
              × (slab_clsid c z.size ≤ c.power_largest)
              × (d.size ≡ c.size (slab_clsid c z.size)))
          (sym (update_ne heads b.at d.at head (other apart))) h.from_class;
  },
  headed_beside c heads b head live pos others hs,
)
  where
    other : Apart b d → b.at ≢ d.at
    other (inl le) e = omega (arith, h.some_byte)
    other (inr le) e = omega (arith, h.some_byte)

module _ (s : Slab) (live : List Block) (w : Owns s live) (id wanted : ℕ) (pos : 0 < id)
    (le : id ≤ s.sizes.power_largest) where
  abbrev taken : ℕ
  taken = (take_chunk (s.sizes.size id) (s.classes id)).0

  abbrev after : SlabClass
  after = (take_chunk (s.sizes.size id) (s.classes id)).1

  -- A class with a free chunk: it is handed out with a head in front.
  pub take_from-Owns :
      has_chunk (s.classes id) ≡ true
      → wanted < 2 ^ 32
      → slab_clsid s.sizes wanted ≡ id
      → ((take_from id wanted s).0 ≡ some (taken + head_size))
        × Owns (take_from id wanted s).1 (piece (s.sizes.size id) taken ∷ live)
  take_from-Owns has small found =
      let (e, p) =
        take_chunk-free_chunks (s.sizes.size id) (s.classes id) (w.classes id pos le) has in
      let picked = append-Picks live (
        free_blocks-Picks s.sizes.size s.sizes.power_largest (pools s.sizes s.classes)
          (pools s.sizes (update s.classes id after)) id taken pos le
          (e
            ∙ ap (λ q. taken ∷ free_chunks (s.sizes.size id) q)
                (sym (update_self s.classes id after)))
          (λ j some ne.
            ap (free_chunks (s.sizes.size j))
              (sym (update_ne s.classes id j after (λ q. ne (sym q)))))) in
      let apart = Picks-Pairwise picked w.apart in
      (
        refl,
        record {
          table = w.table;
          classes = classes_update s.sizes s.classes id after w.classes p;
          apart = apart;
          headed = (
            record {
              some_byte = large;
              from_class = λ _.
                  subst
                    (λ z.
                      (0 < slab_clsid s.sizes z.size)
                      × (slab_clsid s.sizes z.size ≤ s.sizes.power_largest)
                      × (s.sizes.size id ≡ s.sizes.size (slab_clsid s.sizes z.size)))
                    (sym (
                      update_self s.heads taken
                        (record { is_malloc = false; size = wanted % 2 ^ 32 })))
                    (subst
                      (λ n.
                        (0 < slab_clsid s.sizes n)
                        × (slab_clsid s.sizes n ≤ s.sizes.power_largest)
                        × (s.sizes.size id ≡ s.sizes.size (slab_clsid s.sizes n)))
                      (whole wanted small)
                      (subst
                        (λ k.
                          (0 < k)
                          × (k ≤ s.sizes.power_largest)
                          × (s.sizes.size id ≡ s.sizes.size k))
                        (sym found) (pos, le, refl)));
            },
            headed_beside s.sizes s.heads (piece (s.sizes.size id) taken) _ live large
                (All-left (Apart (piece (s.sizes.size id) taken)) live _ apart.0) w.headed,
          );
        },
      )
    where
      large : 0 < s.sizes.size id
      large = omega (arith, w.table.room id pos le)

      whole : (n : ℕ) → n < 2 ^ 32 → n ≡ n % 2 ^ 32
      whole n h = omega arith
