-- ===== src/Storage/Sizes/Table.antt =====
-- src/storage.c: what `init_storage` leaves in the table of block sizes.
use linglongta.Prelude.{
  ℕ, zero, suc, ◌+◌, ◌*◌, ◌%◌, ◌^◌, ◌≤◌, ◌<◌, ◌≡◌, refl, subst, ◌↔◌, inl, inr, arith, leb, leb→le,
  Bool-cases, update, ℤ, pos, negsuc,
}
use linglongta.Storage.Sizes.{
  SizeTable, max_block_cnt, beginning_size, no_sizes, init_loop, actual_largest, init_storage,
}
use linglongta.Storage.Sizes.Powers.{
  nth_size, nth_size-zero, nth_size-add_one, nth_size_bound, nth_size_mono,
}

-- Entry i below the count is 128 doubled i times, and the count stays within the array.
pub record IsSizeTable (t : SizeTable) : Type 0 where
  pub count_le : t.block_type_count ≤ max_block_cnt
  pub entry : (i : ℕ) → i < t.block_type_count → t.block_size_array i ≡ nth_size i

-- The table holds the sizes up to `largest`, and the return code tells whether they all fit.
pub record Covers (largest : ℕ) (r : ℤ × SizeTable) : Type 0 where
  pub table : IsSizeTable r.1
  pub holds : (i : ℕ) → i < max_block_cnt → (i < r.1.block_type_count) ↔ (nth_size i ≤ largest)
  pub code : (r.0 ≡ pos 0) ↔ (largest < nth_size max_block_cnt)
  pub error : (r.0 ≡ negsuc 0) ↔ (nth_size max_block_cnt ≤ largest)

-- What the loop has done on reaching index `i`.
record Upto (largest i : ℕ) (t : SizeTable) : Type 0 where
  count : t.block_type_count ≡ i
  small : i ≤ max_block_cnt
  entries : (j : ℕ) → j < i → t.block_size_array j ≡ nth_size j
  below : (j : ℕ) → j < i → nth_size j ≤ largest

Upto-IsSizeTable : {largest i : ℕ} {t : SizeTable} → Upto largest i t → IsSizeTable t
Upto-IsSizeTable {largest} {i} {t} u = record {
  count_le = omega (arith, u.count, u.small);
  entry = λ j h. u.entries j (omega (arith, u.count));
}

Upto-next :
    {largest i curr : ℕ} {t : SizeTable}
    → Upto largest i t
    → i < max_block_cnt
    → curr ≡ nth_size i
    → curr ≤ largest
    → Upto largest
        (i + 1)
        (record { block_size_array = update t.block_size_array i curr; block_type_count = i + 1 })
Upto-next {largest} {i} {curr} {t} u lt e le = record {
  count = refl;
  small = omega arith;
  entries = λ j h. ground (arith, u.entries j);
  below = λ j h. ground (arith, u.below j);
}

stop-Covers :
    {largest i : ℕ} {t : SizeTable}
    → Upto largest i t
    → largest < nth_size i
    → Covers largest (pos 0, t)
stop-Covers {largest} {i} {t} u over = record {
  table = Upto-IsSizeTable u;
  holds = λ j h.
      (λ lt. u.below j (omega (arith, u.count)), λ le. ground (arith, u.count, nth_size_mono i j));
  code = (λ _. omega (arith, u.small, nth_size_mono i 20), λ _. refl);
  error = (λ e. cc, λ h. absurd (omega (arith, u.small, nth_size_mono i 20)));
}

full-Covers :
    {largest : ℕ} {t : SizeTable}
    → Upto largest 20 t
    → nth_size 20 ≤ largest
    → Covers largest (negsuc 0, t)
full-Covers {largest} {t} u le = record {
  table = Upto-IsSizeTable u;
  holds = λ j h. (λ _. u.below j h, λ _. omega (arith, u.count));
  code = (λ e. cc, λ h. absurd (omega arith));
  error = (λ _. le, λ _. refl);
}

init_loop-Covers :
    (rest i curr largest : ℕ) (t : SizeTable)
    → i + rest ≡ max_block_cnt
    → curr ≡ nth_size i
    → Upto largest i t
    → Covers largest (init_loop rest i curr largest t)
unfolding init_loop
init_loop-Covers zero i curr largest t e c u = elim (Bool-cases (leb curr largest)) [
  | inl more ↦
      rw more (full-Covers {t = t} (subst (λ k. Upto largest k t) (omega arith) u) (ground arith))
  | inr done ↦ rw done (stop-Covers u (ground arith))
]
init_loop-Covers (suc rest) i curr largest t e c u = elim (Bool-cases (leb curr largest)) [
  | inl more ↦ rw more (
      init_loop-Covers rest (i + 1) (curr * 2 % 2 ^ 64) largest _ (omega arith)
        (omega (arith, nth_size-add_one i, nth_size_bound i))
        (Upto-next u (omega arith) c (leb→le _ _ more)))
  | inr done ↦ rw done (stop-Covers u (ground arith))
]

-- The data of the `for` loop before its first round.
Upto-start : (largest : ℕ) → Upto largest 0 no_sizes
Upto-start largest = record {
  count = refl;
  small = omega arith;
  entries = λ j h. absurd (omega arith);
  below = λ j h. absurd (omega arith);
}

-- After `init_storage`, entry i of the table is 128 * 2^i, the table has exactly the sizes up to the
-- largest size asked for (4 MB where less than 128 is asked) that fit in its 20 entries, and the call
-- fails exactly when a 21st size would be needed.
pub init_storage-Covers : (largest : ℕ) → Covers (actual_largest largest) (init_storage largest)
unfolding init_storage
init_storage-Covers largest =
    init_loop-Covers max_block_cnt 0 beginning_size (actual_largest largest) no_sizes (omega arith)
      (omega (arith, nth_size-zero)) (Upto-start (actual_largest largest))
