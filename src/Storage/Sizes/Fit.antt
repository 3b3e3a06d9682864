-- ===== src/Storage/Sizes/Fit.antt =====
-- src/storage.c: `find_block_file(calc_block_size(n))` is the best fit for an object of n bytes.
use linglongta.Prelude.{
  ℕ, zero, suc, ◌+◌, ◌-◌, ◌^◌, ◌≤◌, ◌<◌, ◌≡◌, ◌≢◌, refl, ◌⊎◌, inl, inr, none, some, arith, leb,
  dec_lt,
}
use linglongta.Storage.Sizes.{
  SizeTable, int_covers, calc_loop, calc_block_size, find_loop, find_block_file,
}
use linglongta.Storage.Sizes.Powers.{nth_size, nth_size-zero, nth_size-add_one, nth_size_bound}
use linglongta.Storage.Sizes.Table.{IsSizeTable}

int_covers-eq-leb : (size n : ℕ) → n < 2 ^ 31 → int_covers size n ≡ leb n size
unfolding int_covers
int_covers-eq-leb size n h = ground arith

-- What the size loop returns when it enters at index `i`.
calc_loop-fits :
    (rest i n : ℕ)
    → n < 2 ^ 31
    → (k : ℕ) → i ≤ k
    → k < i + rest
    → n ≤ nth_size k
    → ((j : ℕ) → i ≤ j → j < k → nth_size j < n)
    → calc_loop rest (nth_size i) n ≡ some (nth_size k)
unfolding calc_loop
calc_loop-fits zero i n h k lo hi fit least = absurd (omega arith)
calc_loop-fits (suc rest) i n h k lo hi fit least = elim (dec_lt i k) [
  | yes later ↦ rw (← nth_size-add_one i) (
      ground (
        arith,
        int_covers-eq-leb (nth_size i) n h,
        least i,
        calc_loop-fits rest (i + 1) n h k (omega arith) (omega arith) fit
            (λ j a b. least j (omega arith) b),
      ))
  | no here ↦ let e : i ≡ k = omega arith in ground (arith, int_covers-eq-leb (nth_size i) n h)
]

find_loop-hit :
    (rest i k size : ℕ) (a : ℕ → ℕ)
    → i ≤ k
    → k < i + rest
    → a k ≡ size
    → ((j : ℕ) → j < k → a j ≢ size)
    → find_loop rest i size a ≡ some k
unfolding find_loop
find_loop-hit zero i k size a lo hi e ne = absurd (omega arith)
find_loop-hit (suc rest) i k size a lo hi e ne = elim (dec_lt i k) [
  | yes later ↦
      ground (arith, ne i, find_loop-hit rest (i + 1) k size a (omega arith) (omega arith) e ne)
  | no here ↦ let p : i ≡ k = omega arith in ground arith
]

find_loop-miss :
    (rest i size : ℕ) (a : ℕ → ℕ)
    → ((j : ℕ) → i ≤ j → j < i + rest → a j ≢ size)
    → find_loop rest i size a ≡ none
unfolding find_loop
find_loop-miss zero i size a ne = refl
find_loop-miss (suc rest) i size a ne =
    ground (
      arith,
      ne i,
      find_loop-miss rest (i + 1) size a (λ j lo hi. ne j (omega arith) (omega arith)),
    )

calc_loop-ge :
    (rest i n : ℕ)
    → n < 2 ^ 31
    → (calc_loop rest (nth_size i) n ≡ none)
      ⊎ ((m : ℕ) × (calc_loop rest (nth_size i) n ≡ some m) × (n ≤ m))
unfolding calc_loop
calc_loop-ge zero i n h = inl refl
calc_loop-ge (suc rest) i n h = elim (dec_lt (nth_size i) n) [
  | yes small ↦ elim (calc_loop-ge rest (i + 1) n h) [
    | inl e ↦ inl (rw (← nth_size-add_one i) (ground (arith, int_covers-eq-leb (nth_size i) n h)))
    | inr (m, e, le) ↦
        inr (m, rw (← nth_size-add_one i) (ground (arith, int_covers-eq-leb (nth_size i) n h)), le)
  ]
  | no big ↦ inr (nth_size i, ground (arith, int_covers-eq-leb (nth_size i) n h), omega arith)
]

calc_block_size_lem : (n : ℕ) → calc_block_size n ≡ calc_loop 20 (nth_size 0) n
unfolding calc_block_size
calc_block_size_lem n = rw nth_size-zero

module _ (t : SizeTable) (n : ℕ) where
  -- Block type `b` is the first whose blocks hold `n` bytes.
  pub record BestFit (b : ℕ) : Type 0 where
    pub in_range : b < t.block_type_count
    pub fits : n ≤ t.block_size_array b
    pub least : (c : ℕ) → c < b → t.block_size_array c < n

  abbrev pub TooLarge : Type 0
  TooLarge = (c : ℕ) → c < t.block_type_count → t.block_size_array c < n

  first_fit :
      (rest i : ℕ)
      → i + rest ≡ t.block_type_count
      → ((c : ℕ) → c < i → t.block_size_array c < n)
      → ((b : ℕ) × BestFit b) ⊎ TooLarge
  first_fit zero i e under = inr (λ c h. under c (omega arith))
  first_fit (suc rest) i e under = elim (dec_lt (t.block_size_array i) n) [
    | yes small ↦ first_fit rest (i + 1) (omega arith) (λ c h. ground (arith, under c))
    | no big ↦ inl (i, record { in_range = omega arith; fits = omega arith; least = under })
  ]

  found-BestFit :
      IsSizeTable t
      → n < 2 ^ 31
      → (b : ℕ) → BestFit b
      → find_block_file t (calc_block_size n) ≡ some b
  unfolding find_block_file
  found-BestFit w h b f = rw (calc_block_size_lem n) (
      rw calc (
        find_loop-hit t.block_type_count 0 b (nth_size b) t.block_size_array (omega arith)
          (omega (arith, f.in_range)) (w.entry b f.in_range)
          (λ j lt e. absurd (omega (arith, f.least j lt, f.fits, w.entry b f.in_range)))))
    where
      calc : calc_loop 20 (nth_size 0) n ≡ some (nth_size b)
      calc =
          calc_loop-fits 20 0 n h b (omega arith) (omega (arith, w.count_le, f.in_range))
            (omega (arith, w.entry b f.in_range, f.fits))
            (λ j lo hi. omega (arith, w.entry j (omega (arith, f.in_range)), f.least j hi))

  not_found-TooLarge :
      IsSizeTable t → n < 2 ^ 31 → TooLarge → find_block_file t (calc_block_size n) ≡ none
  unfolding find_block_file
  not_found-TooLarge w h large = elim (calc_loop-ge 20 0 n h) [
    | inl e ↦ rw (calc_block_size_lem n) (
        rw e (
          find_loop-miss t.block_type_count 0 (2 ^ 64 - 1) t.block_size_array (λ j lo hi q.
            absurd (omega (arith, w.count_le, w.entry j (omega arith), nth_size_bound j)))))
    | inr (m, e, le) ↦ rw (calc_block_size_lem n) (
        rw e (
          find_loop-miss t.block_type_count 0 m t.block_size_array
            (λ j lo hi q. absurd (omega (arith, large j (omega arith))))))
  ]

  -- With a table as `init_storage` leaves it, and data below 2 GB: the block file that `find_block_file`
  -- finds for the size from `calc_block_size` is the first whose blocks hold the data, and it finds none
  -- only where no block type holds it.
  pub find_block_file-calc_block_size :
      IsSizeTable t
      → n < 2 ^ 31
      → ((b : ℕ) × (find_block_file t (calc_block_size n) ≡ some b) × BestFit b)
        ⊎ ((find_block_file t (calc_block_size n) ≡ none) × TooLarge)
  find_block_file-calc_block_size w h =
      elim (first_fit t.block_type_count 0 (omega arith) (λ c p. absurd (omega arith))) [
        | inl (b, f) ↦ inl (b, found-BestFit w h b f, f)
        | inr large ↦ inr (not_found-TooLarge w h large, large)
      ]
