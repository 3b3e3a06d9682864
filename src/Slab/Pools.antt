-- ===== src/Slab/Pools.antt =====
-- src/slab.c: the free chunks of each class, as pieces of memory.
use linglongta.Prelude.{
  ℕ, zero, suc, ◌+◌, ◌/◌, ◌≤◌, ◌<◌, ◌≡◌, ◌≢◌, refl, ap, ◌∙◌, arith, true, false, ◌||◌, List, [],
  ◌∷◌, ◌++◌, ◌==◌, if◌then◌else◌,
}
use linglongta.Slab.Classes.{power_block}
use linglongta.Slab.Alloc.{SlabClass, is_set, has_chunk, take_chunk, one_less, add_page}

-- `n` chunks one behind the other
abbrev pub chunks : (n at size : ℕ) → List ℕ
chunks zero at size = []
chunks (suc n) at size = at ∷ chunks n (at + size) size

abbrev pub page_chunks : (end_page_ptr end_page_free size : ℕ) → List ℕ
page_chunks p n size = if p == 0 then [] else chunks n p size

-- The free chunks of a class, in the order in which they are handed out.
abbrev pub free_chunks : (size : ℕ) → SlabClass → List ℕ
free_chunks size p = p.slots ++ page_chunks p.end_page_ptr p.end_page_free size

-- A class with an end page has a chunk left on it.
pub record IsClass (size : ℕ) (p : SlabClass) : Type 0 where
  pub perslab : p.perslab ≡ power_block / size
  pub some_left : p.end_page_ptr ≢ 0 → 0 < p.end_page_free
  pub not_more : p.end_page_free ≤ power_block

first_chunk : (p n size : ℕ) → p ≢ 0 → page_chunks p n size ≡ chunks n p size
first_chunk p n size e = ground arith

rest_chunks :
    (p k size : ℕ)
    → p ≢ 0
    → chunks k (p + size) size ≡ page_chunks (if k == 0 then 0 else p + size) k size
rest_chunks p zero size e = refl
rest_chunks p (suc k) size e = ground arith

take_page :
    (p n size : ℕ)
    → p ≢ 0
    → 0 < n
    → n ≤ power_block
    → page_chunks p n size
      ≡ p ∷ page_chunks (if one_less n == 0 then 0 else p + size) (one_less n) size
take_page p zero size e some few = absurd (omega arith)
take_page p (suc k) size e some few =
    first_chunk p (suc k) size e
    ∙ ap (λ l. p ∷ l) (rest_chunks p k size e)
    ∙ ap (λ m. p ∷ page_chunks (if m == 0 then 0 else p + size) m size) (less k (omega arith))
  where
    less : (m : ℕ) → m < power_block → m ≡ one_less (suc m)
    less m lt = omega arith

take_of :
    (size : ℕ) (p : SlabClass) (l : List ℕ)
    → IsClass size p
    → has_chunk (record p { slots = l }) ≡ true
    → (free_chunks size (record p { slots = l })
        ≡ (take_chunk size (record p { slots = l })).0
          ∷ free_chunks size (take_chunk size (record p { slots = l })).1)
      × IsClass size (take_chunk size (record p { slots = l })).1
unfolding take_chunk
take_of size p (h ∷ l) w some =
    (refl, record { perslab = w.perslab; some_left = w.some_left; not_more = w.not_more })
take_of size p [] w some = (
  take_page p.end_page_ptr p.end_page_free size page (w.some_left page) w.not_more,
  record {
    perslab = w.perslab;
    some_left = λ e. still (one_less p.end_page_free) (p.end_page_ptr + size) e;
    not_more = omega (arith, w.some_left page, w.not_more);
  },
)
  where
    set : (n : ℕ) → (is_set n || is_set 0) ≡ true → n ≢ 0
    set zero e q = cc
    set (suc n) e q = omega arith

    page : p.end_page_ptr ≢ 0
    page = set p.end_page_ptr some

    still : (n q : ℕ) → (if n == 0 then 0 else q) ≢ 0 → 0 < n
    still n q e = ground arith

-- The chunk that is handed out is the first of the free ones.
pub take_chunk-free_chunks :
    (size : ℕ) (p : SlabClass)
    → IsClass size p
    → has_chunk p ≡ true
    → (free_chunks size p ≡ (take_chunk size p).0 ∷ free_chunks size (take_chunk size p).1)
      × IsClass size (take_chunk size p).1
take_chunk-free_chunks size p w some = take_of size p p.slots w some

no_slots :
    (p : SlabClass) (l : List ℕ)
    → has_chunk (record p { slots = l }) ≡ false
    → (l ≡ []) × (p.end_page_ptr ≡ 0)
no_slots p [] e = (refl, unset p.end_page_ptr e)
  where
    unset : (n : ℕ) → (is_set n || is_set 0) ≡ false → n ≡ 0
    unset zero e = refl
    unset (suc n) e = cc
no_slots p (h ∷ l) e = absurd (set p.end_page_ptr e)
  where
    set : (n : ℕ) → (is_set n || true) ≡ false → ⊥
    set zero e = cc
    set (suc n) e = cc

-- A class with no chunk left has a whole page of them once it gets one.
pub add_page-free_chunks :
    (size ptr : ℕ) (p : SlabClass)
    → has_chunk p ≡ false
    → ptr ≢ 0
    → p.perslab ≡ power_block / size
    → (free_chunks size (add_page ptr p) ≡ chunks (power_block / size) ptr size)
      × (free_chunks size p ≡ [])
add_page-free_chunks size ptr p none_left set per =
    let (none_free, no_page) = no_slots p p.slots none_left in
    (
      ap (λ l. l ++ page_chunks ptr p.perslab size) none_free
          ∙ first_chunk ptr p.perslab size set
          ∙ ap (λ n. chunks n ptr size) per,
      ap (λ l. l ++ page_chunks p.end_page_ptr p.end_page_free size) none_free
          ∙ ap (λ n. page_chunks n p.end_page_free size) no_page,
    )
