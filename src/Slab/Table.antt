-- ===== src/Slab/Table.antt =====
-- src/slab.c: the table of sizes that `slab_init` leaves.
use linglongta.Prelude.{
  ℕ, zero, suc, ◌+◌, ◌-◌, ◌/◌, ◌%◌, ◌≤◌, ◌<◌, ◌≡◌, refl, arith, dec_lt, true, false, leb, update,
}
use linglongta.Slab.Classes.{
  ClassSizes, power_block, power_largest_max, chunk_align_bytes, tiny_size, aligned, sizes_loop,
  init_sizes,
}
use linglongta.Slab.Search.{IsSorted}

-- The sizes grow up to that of a whole block, and a chunk has room for a header.
pub record IsTable (c : ClassSizes) : Type 0 where
  pub sorted : IsSorted c
  pub bounded : c.power_largest ≤ power_largest_max
  pub last : c.size c.power_largest ≡ power_block
  pub room : (i : ℕ) → 0 < i → i ≤ c.power_largest → tiny_size ≤ c.size i
  pub words : (i : ℕ) → 0 < i → i ≤ c.power_largest → c.size i % chunk_align_bytes ≡ 0

-- The classes below `i` are set.
record IsPart (t : ℕ → ℕ) (i : ℕ) : Type 0 where
  some_class : 0 < i
  starts : t 0 ≡ 0
  grows : (j : ℕ) → j + 1 < i → t j < t (j + 1)
  room : (j : ℕ) → 0 < j → j < i → tiny_size ≤ t j
  words : (j : ℕ) → 0 < j → j < i → t j % chunk_align_bytes ≡ 0

update-IsPart :
    (t : ℕ → ℕ) (i v : ℕ)
    → IsPart t i
    → t (i - 1) < v
    → tiny_size ≤ v
    → v % chunk_align_bytes ≡ 0
    → IsPart (update t i v) (i + 1)
update-IsPart t i v p more room words = record {
  some_class = omega arith;
  starts = ground (arith, p.starts, p.some_class);
  grows = λ j h. ground (arith, p.grows j, p.some_class);
  room = λ j pos h. ground (arith, p.room j);
  words = λ j pos h. ground (arith, p.words j);
}

aligned_lem : (n : ℕ) → (n ≤ aligned n) × (aligned n % chunk_align_bytes ≡ 0)
aligned_lem n = ground arith

aligned_half : (n : ℕ) → n ≤ power_block / 2 → aligned n ≤ power_block / 2
aligned_half n h = ground arith

last_class :
    (t : ℕ → ℕ) (i : ℕ)
    → IsPart t i
    → t (i - 1) < power_block
    → i ≤ power_largest_max
    → IsTable (record { size = update t i power_block; power_largest = i })
last_class t i p less le = record {
  sorted = record {
    some_class = p.some_class;
    starts = q.starts;
    grows = λ j h. q.grows j (omega arith);
  };
  bounded = le;
  last = ground arith;
  room = λ j pos h. q.room j pos (omega arith);
  words = λ j pos h. q.words j pos (omega arith);
}
  where
    q : IsPart (update t i power_block) (i + 1)
    q = update-IsPart t i power_block p less (omega arith) (omega arith)

module _ (grow : ℕ → ℕ) (grows : (n : ℕ) → tiny_size ≤ n → n < grow n) where
  sizes_loop-IsTable :
      (rest i size : ℕ) (t : ℕ → ℕ)
      → rest + i ≡ power_largest_max
      → IsPart t i
      → t (i - 1) < size
      → t (i - 1) ≤ power_block / 2
      → tiny_size ≤ size
      → IsTable (sizes_loop grow rest i size t)
  unfolding sizes_loop
  sizes_loop-IsTable zero i size t total p less half big =
      last_class t i p (omega arith) (omega arith)
  sizes_loop-IsTable (suc rest) i size t total p less half big =
      elim (dec_lt (power_block / 2) size) [
        | yes large ↦ rw (over size large) (last_class t i p (omega arith) (omega arith))
        | no small ↦ rw (within size small) (
            sizes_loop-IsTable rest (i + 1) (grow (aligned size)) (update t i (aligned size))
              (omega arith)
              (update-IsPart t i (aligned size) p (omega (arith, aligned_lem size))
                (omega (arith, aligned_lem size)) (aligned_lem size).1)
              (omega (arith, here, grows (aligned size) (omega (arith, aligned_lem size))))
              (omega (arith, here, aligned_half size (omega arith)))
              (omega
                (arith, grows (aligned size) (omega (arith, aligned_lem size)), aligned_lem size)))
      ]
    where
      over : (n : ℕ) → power_block / 2 < n → leb n (power_block / 2) ≡ false
      over n h = ground arith

      within : (n : ℕ) → ¬ (power_block / 2 < n) → leb n (power_block / 2) ≡ true
      within n h = ground arith

      here : update t i (aligned size) (i + 1 - 1) ≡ aligned size
      here = ground arith

  -- With a factor that makes each size from 16 bytes on larger: `slab_init` leaves a table in which the sizes
  -- grow from class to class up to that of a whole block of 4 MB, are multiples of 8 and have room for a header.
  pub init_sizes-IsTable : IsTable (init_sizes grow)
  unfolding init_sizes
  init_sizes-IsTable =
      sizes_loop-IsTable (power_largest_max - 1) 1 tiny_size (λ _. 0) refl
        (record {
          some_class = omega arith;
          starts = refl;
          grows = λ j h. absurd (omega arith);
          room = λ j pos h. absurd (omega arith);
          words = λ j pos h. absurd (omega arith);
        })
        (omega arith) (omega arith) (omega arith)
