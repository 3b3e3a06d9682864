-- ===== src/Slab/Pages.antt =====
-- src/slab.c: `do_slabs_newslab`, whether it finds memory or not.
use linglongta.Prelude.{
  ℕ, zero, suc, ◌+◌, ◌*◌, ◌/◌, ◌%◌, ◌^◌, ◌≤◌, ◌<◌, ◌≡◌, ◌≢◌, inl, inr, refl, sym, ap, ◌∙◌, subst,
  arith, Bool, ◌||◌, true, false, Bool-cases, some, List, [], ◌++◌, All, update, update_self,
  update_ne, ◌==◌, if◌then◌else◌, length, ℕ_discrete,
}
use linglongta.Slab.Classes.{power_block}
use linglongta.Slab.Search.{size_le}
use linglongta.Slab.Alloc.{
  SlabClass, Slab, Memory, is_set, has_chunk, grow_slab_list, add_page, new_page, over_limit,
  do_slabs_newslab,
}
use linglongta.Slab.Apart.{Block, Apart, Pairwise}
use linglongta.Slab.Pools.{free_chunks, chunks, IsClass, add_page-free_chunks}
use linglongta.Slab.Pieces.{piece, free_blocks, free_blocks_same, chunks-Pairwise}
use linglongta.Slab.Owns.{pools, Owns, classes_update}
use linglongta.Slab.Grow.{IsFresh, added-Pairwise, page_chunks-Apart}

-- What a call for a page leaves: the owners, with a chunk for the class if it says so.
pub record Grown (s : Slab) (live : List Block) (id : ℕ) (r : Bool × Slab) : Type 0 where
  pub owns : Owns r.1 live
  pub gets : r.0 ≡ true → has_chunk (r.1.classes id) ≡ true
  pub same_sizes : r.1.sizes ≡ s.sizes

set_page : (n l : ℕ) → n ≢ 0 → (is_set n || is_set l) ≡ true
set_page zero l e = absurd (e refl)
set_page (suc n) l e = refl

module _ (s : Slab) (live : List Block) (w : Owns s live) (id : ℕ) (pos : 0 < id)
    (le : id ≤ s.sizes.power_largest) where
  -- A class with other chunks, and what they come to for the pools.
  pools-update :
      (p : SlabClass) (l : List ℕ)
      → free_chunks (s.sizes.size id) p ≡ l
      → (j : ℕ) → pools s.sizes (update s.classes id p) j ≡ update (pools s.sizes s.classes) id l j
  pools-update p l e j = elim (ℕ_discrete id j) [
    | yes q ↦
        subst
          (λ k. pools s.sizes (update s.classes id p) k ≡ update (pools s.sizes s.classes) id l k) q
          (ap (free_chunks (s.sizes.size id)) (update_self s.classes id p)
            ∙ e
            ∙ sym (update_self (pools s.sizes s.classes) id l))
    | no ne ↦
        ap (free_chunks (s.sizes.size j)) (update_ne s.classes id j p ne)
        ∙ sym (update_ne (pools s.sizes s.classes) id j l ne)
  ]

  pub other_class-Owns :
      (p : SlabClass) (l : List ℕ) (malloced : ℕ)
      → IsClass (s.sizes.size id) p
      → free_chunks (s.sizes.size id) p ≡ l
      → Pairwise (
          live
          ++ free_blocks s.sizes.size s.sizes.power_largest (update (pools s.sizes s.classes) id l))
      → Owns (record s { classes = update s.classes id p; mem_malloced = malloced }) live
  other_class-Owns p l malloced c e apart = record {
    table = w.table;
    classes = classes_update s.sizes s.classes id p w.classes c;
    apart =
        subst (λ bs. Pairwise (live ++ bs))
          (sym (
            free_blocks_same s.sizes.size s.sizes.power_largest _ _
              (λ j some le. pools-update p l e j)))
          apart;
    headed = w.headed;
  }

  same_pools :
      (l : List ℕ)
      → free_chunks (s.sizes.size id) (s.classes id) ≡ l
      → (j : ℕ) → pools s.sizes s.classes j ≡ update (pools s.sizes s.classes) id l j
  same_pools l e j = elim (ℕ_discrete id j) [
    | yes q ↦
        subst (λ k. pools s.sizes s.classes k ≡ update (pools s.sizes s.classes) id l k) q
          (e ∙ sym (update_self (pools s.sizes s.classes) id l))
    | no ne ↦ sym (update_ne (pools s.sizes s.classes) id j l ne)
  ]

  as_they_are :
      (l : List ℕ)
      → free_chunks (s.sizes.size id) (s.classes id) ≡ l
      → Pairwise (
          live
          ++ free_blocks s.sizes.size s.sizes.power_largest (update (pools s.sizes s.classes) id l))
  as_they_are l e =
      subst (λ bs. Pairwise (live ++ bs))
        (free_blocks_same s.sizes.size s.sizes.power_largest (pools s.sizes s.classes)
          (update (pools s.sizes s.classes) id l) (λ j some le. same_pools l e j))
        w.apart

  -- Other fields of a class do not matter.
  pub same_chunks-Owns :
      (p : SlabClass)
      → IsClass (s.sizes.size id) p
      → free_chunks (s.sizes.size id) p ≡ free_chunks (s.sizes.size id) (s.classes id)
      → Owns (record s { classes = update s.classes id p }) live
  same_chunks-Owns p c e = other_class-Owns p _ s.mem_malloced c e (as_they_are _ refl)

  module _ (m : Memory) (fresh : IsFresh m s live) (empty : has_chunk (s.classes id) ≡ false) where
    -- the class, maybe with a longer list of pages
    as_before : (n : ℕ) → IsClass (s.sizes.size id) (record (s.classes id) { list_size = n })
    as_before n =
        let c = w.classes id pos le in
        record { perslab = c.perslab; some_left = c.some_left; not_more = c.not_more }

    room : 0 < s.sizes.size id
    room = omega (arith, w.table.room id pos le)

    page_added :
        (n : ℕ)
        → m.valloc power_block ≢ 0
        → Owns
            (record s {
              classes =
                  update s.classes id
                    (add_page (m.valloc power_block) (record (s.classes id) { list_size = n }));
              mem_malloced = (s.mem_malloced + power_block) % 2 ^ 64;
            })
            live
    page_added n given =
        let (e, none_before) =
          add_page-free_chunks (s.sizes.size id) (m.valloc power_block)
            (record (s.classes id) { list_size = n }) empty given (as_before n).perslab in
        other_class-Owns _
          (chunks (power_block / s.sizes.size id) (m.valloc power_block) (s.sizes.size id)) _
          (record {
            perslab = (as_before n).perslab;
            some_left = λ _.
                omega (arith, (as_before n).perslab, block_chunks (s.sizes.size id) room w_fits);
            not_more =
                omega (arith, (as_before n).perslab, block_chunks (s.sizes.size id) room w_fits);
          })
          e
          (added-Pairwise s.sizes.size s.sizes.power_largest (pools s.sizes s.classes) id pos le
            live (chunks (power_block / s.sizes.size id) (m.valloc power_block) (s.sizes.size id))
            (chunks-Pairwise (power_block / s.sizes.size id) (m.valloc power_block)
              (s.sizes.size id))
            (page_chunks-Apart (s.sizes.size id) (m.valloc power_block) _ (
              subst (λ bs. All (Apart (piece power_block (m.valloc power_block))) (live ++ bs))
                (no_chunks none_before) (fresh.page given)))
            (as_they_are [] none_before))
      where
        w_fits : s.sizes.size id ≤ power_block
        w_fits = omega (
          arith,
          size_le s.sizes w.table.sorted id s.sizes.power_largest le (omega arith),
          w.table.last,
        )

        block_chunks :
            (k : ℕ)
            → 0 < k
            → k ≤ power_block
            → (0 < power_block / k) × (power_block / k ≤ power_block)
        block_chunks k h f = grind arith

        no_chunks :
            free_chunks (s.sizes.size id) (s.classes id) ≡ []
            → free_blocks s.sizes.size s.sizes.power_largest (pools s.sizes s.classes)
              ≡ free_blocks s.sizes.size s.sizes.power_largest
                  (update (pools s.sizes s.classes) id [])
        no_chunks e =
            free_blocks_same s.sizes.size s.sizes.power_largest _ _ (λ j some le. same_pools [] e j)

    new_page-Grown :
        (n : ℕ) → Grown s live id (new_page m id s (some (record (s.classes id) { list_size = n })))
    new_page-Grown n = elim (Bool-cases (m.valloc power_block == 0)) [
      | inl refused ↦ rw refused (record {
        owns = same_chunks-Owns (record (s.classes id) { list_size = n }) (as_before n) refl;
        gets = λ e. cc;
        same_sizes = refl;
      })
      | inr given ↦ rw given (record {
        owns = page_added n (λ e. not_zero (m.valloc power_block) given e);
        gets = λ _.
            ap has_chunk (update_self s.classes id _)
            ∙ set_page (m.valloc power_block) (length (s.classes id).slots)
                (λ e. not_zero (m.valloc power_block) given e);
        same_sizes = refl;
      })
    ]
      where
        not_zero : (k : ℕ) → (k == 0) ≡ false → k ≢ 0
        not_zero k h e = ground arith

    as_it_is : Grown s live id (false, s)
    as_it_is = record { owns = w; gets = λ e. cc; same_sizes = refl }

    Grown-list : Grown s live id (new_page m id s (grow_slab_list m (s.classes id)))
    unfolding grow_slab_list
    Grown-list = elim (Bool-cases ((s.classes id).slabs == (s.classes id).list_size)) [
      | inr room_left ↦ rw room_left (new_page-Grown (s.classes id).list_size)
      | inl full ↦
          rw full
            (elim (Bool-cases (
              m.can_realloc (
                (if (s.classes id).list_size == 0
                  then 16
                  else (s.classes id).list_size * 2 % 2 ^ 32)
                * 8))) [
                  | inl longer ↦ rw longer (new_page-Grown _)
                  | inr refused ↦ rw refused as_it_is
                ])
    ]

    pub do_slabs_newslab-Grown : Grown s live id (do_slabs_newslab m id s)
    unfolding do_slabs_newslab
    do_slabs_newslab-Grown = elim (Bool-cases (over_limit (s.classes id) s)) [
      | inl over ↦ rw over as_it_is
      | inr within ↦ rw within Grown-list
    ]
