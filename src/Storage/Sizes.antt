-- ===== src/Storage/Sizes.antt =====
-- src/storage.c: the table of block sizes (`block_size_array`, `block_type_count`), the function that
-- fills it (`init_storage`), the size class of an object (`calc_block_size`) and the block file of a
-- size (`find_block_file`).
pub mod Powers
pub mod Table
pub mod Fit
use linglongta.Prelude.{
  ℕ, zero, suc, ◌+◌, ◌-◌, ◌*◌, ◌%◌, ◌^◌, ◌≡◌, refl, Bool, Option, none, some, ◌||◌, ltb, leb, ◌==◌,
  if◌then◌else◌, update, ℤ, pos, negsuc,
}

abbrev pub beginning_size : ℕ
beginning_size = 128

abbrev pub largest_size : ℕ
largest_size = 1024 * 1024 * 4

abbrev pub max_block_cnt : ℕ
max_block_cnt = 20

-- The two globals. The array is read only below `max_block_cnt`.
pub record SizeTable : Type 0 where
  pub block_size_array : ℕ → ℕ
  pub block_type_count : ℕ

abbrev pub no_sizes : SizeTable
no_sizes = record { block_size_array = λ _. 0; block_type_count = 0 }

-- The `for` loop at index `i`, with `rest` entries of the array left: at `rest = 0` the test
-- `i >= MAX_BLOCK_CNT` holds. `curr_size` is a `size_t`.
unfoldable pub init_loop : (rest i curr_size largest : ℕ) → SizeTable → ℤ × SizeTable
init_loop zero i curr_size largest t = if leb curr_size largest then (negsuc 0, t) else (pos 0, t)
init_loop (suc rest) i curr_size largest t =
    let next = init_loop rest (i + 1) (curr_size * 2 % 2 ^ 64) largest (record {
      block_size_array = update t.block_size_array i curr_size;
      block_type_count = i + 1;
    }) in
    if leb curr_size largest then next else (pos 0, t)

-- A largest size under the smallest block means the default.
unfoldable pub actual_largest : ℕ → ℕ
actual_largest largest = if ltb largest beginning_size then largest_size else largest

unfoldable pub init_storage : ℕ → ℤ × SizeTable
init_storage largest = init_loop max_block_cnt 0 beginning_size (actual_largest largest) no_sizes

-- `size >= (int)data_size`: the cast keeps 32 bits, and from 2^31 on the result is negative.
unfoldable pub int_covers : ℕ → ℕ → Bool
int_covers size data_size = leb (2 ^ 31) (data_size % 2 ^ 32) || leb (data_size % 2 ^ 32) size

-- The loop of `calc_block_size`; `none` is its result -1.
unfoldable pub calc_loop : (rest size data_size : ℕ) → Option ℕ
unfolding int_covers
calc_loop zero size data_size = none
calc_loop (suc rest) size data_size =
    let next = calc_loop rest (size * 2) data_size in
    if int_covers size data_size then some size else next

unfoldable pub calc_block_size : ℕ → Option ℕ
calc_block_size data_size = calc_loop max_block_cnt beginning_size data_size

-- The search loop at index `i`, with `rest` block types left; `none` is the result -1.
unfoldable pub find_loop : (rest i block_size : ℕ) → (ℕ → ℕ) → Option ℕ
find_loop zero i block_size a = none
find_loop (suc rest) i block_size a =
    let next = find_loop rest (i + 1) block_size a in if block_size == a i then some i else next

-- The argument -1 of `calc_block_size` becomes SIZE_MAX, here as `none`.
unfoldable pub find_block_file : SizeTable → Option ℕ → Option ℕ
find_block_file t none = find_loop t.block_type_count 0 (2 ^ 64 - 1) t.block_size_array
find_block_file t (some block_size) = find_loop t.block_type_count 0 block_size t.block_size_array
