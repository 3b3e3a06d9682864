-- ===== src/IndexLog/Reader.antt =====
-- src/indexlog.c: the index log in read mode, and the loop of tools/replay_journal.c that fetches its items
-- one by one.
use linglongta.Prelude.{
  ℕ, zero, suc, ◌+◌, Bool, Option, none, some, ◌&&◌, List, [], ◌∷◌, length, take, drop, ◌==◌,
  same_bytes, if◌then◌else◌, ℤ, pos, negsuc,
}
use linglongta.IndexLog.Encoding.{le_value, FetchedItem, read_value}
use linglongta.IndexLog.Writer.{magic_header}

-- struct index_logger_s as read mode uses it. Behind the descriptor stand the bytes that have not been
-- read, and the number of those that have.
pub record LogReader : Type 0 where
  pub unread : List ℕ
  pub file_offset : ℕ
  pub fetch_pos : ℕ
  pub fetch_records_amount : ℤ
  pub fetch_id : ℤ

unfoldable pub index_logger_open : (opened : Bool) → List ℕ → Option LogReader
index_logger_open opened file =
    if opened
    then some (record {
      unread = file;
      file_offset = 0;
      fetch_pos = 0;
      fetch_records_amount = negsuc 0;
      fetch_id = negsuc 0;
    })
    else none

-- `read` of n bytes: those that are left if they are fewer.
unfoldable pub read : ℕ → LogReader → List ℕ × LogReader
read n il = (
  take n il.unread,
  record il { unread = drop n il.unread; file_offset = il.file_offset + length (take n il.unread) },
)

-- A step of a fetch: it goes on with the descriptor where it got to, or the fetch ends with NULL.
abbrev pub M : Type 0 → Type 0
M A = LogReader → Option A × LogReader

abbrev pub and_then : {A B : Type 0} → (A → M B) → Option A × LogReader → Option B × LogReader
and_then f (none, il) = (none, il)
and_then f (some a, il) = f a il

infixl 5 ◌>>=◌ ◌>>◌
abbrev pub ◌>>=◌ : {A B : Type 0} → M A → (A → M B) → M B
◌>>=◌ m f il = and_then f (m il)

abbrev pub ◌>>◌ : {A B : Type 0} → M A → M B → M B
m >> k = m >>= λ _. k

-- `read`, which must give all the bytes.
unfoldable pub read_exactly : ℕ → M (List ℕ)
unfolding read
read_exactly n il =
    let (bs, il') = read n il in if length bs == n then (some bs, il') else (none, il')

-- The first fetch reads the magic number.
unfoldable pub fetch_magic : M (Unit {0})
unfolding read
fetch_magic il =
    let (bs, il') = read 4 il in
    if il.fetch_pos == 0
    then if same_bytes bs magic_header then (some tt, il') else (none, il')
    else (some tt, il)

unfoldable pub start_block : ℕ → M (Unit {0})
start_block count il = (some tt, record il { fetch_records_amount = pos count; fetch_id = pos 0 })

-- A block's checksum is read and not looked at.
unfoldable pub fetch_block_header : M (Unit {0})
fetch_block_header = do _ ← read_exactly 4; count ← read_exactly 4; start_block (le_value count)

abbrev pub is_minus_one : ℤ → Bool
is_minus_one (negsuc zero) = Bool.true
is_minus_one _ = Bool.false

unfoldable pub fetch_header : M (Unit {0})
fetch_header il = if is_minus_one il.fetch_id then fetch_block_header il else (some tt, il)

-- the three `slab_alloc`, in their order
unfoldable pub alloc_item : (ℕ → Bool) → M (Unit {0})
alloc_item can_alloc il =
    if can_alloc 0 && (can_alloc 1 && can_alloc 2) then (some tt, il) else (none, il)

abbrev pub inc_ℤ : ℤ → ℤ
inc_ℤ (pos n) = pos (n + 1)
inc_ℤ (negsuc zero) = pos 0
inc_ℤ (negsuc (suc n)) = negsuc n

abbrev pub eq_ℤ : ℤ → ℤ → Bool
eq_ℤ (pos a) (pos b) = a == b
eq_ℤ (pos a) (negsuc b) = Bool.false
eq_ℤ (negsuc a) (pos b) = Bool.false
eq_ℤ (negsuc a) (negsuc b) = a == b

-- Behind the last record of a block the next fetch starts a new one.
unfoldable pub count_record : M (Unit {0})
count_record il = (
  some tt,
  record il {
    fetch_id =
        if eq_ℤ (inc_ℤ il.fetch_id) il.fetch_records_amount then negsuc 0 else inc_ℤ il.fetch_id;
  },
)

unfoldable pub fetch_item : M FetchedItem
fetch_item = do
  type ← read_exactly 4
  key ← read_exactly 16
  value ← read_exactly 24
  count_record
  λ il.
      (some (record { type = le_value type; index_key = key; index_value = read_value value }), il)

abbrev pub fetch_steps : (ℕ → Bool) → M FetchedItem
fetch_steps can_alloc = do fetch_magic; fetch_header; alloc_item can_alloc; fetch_item

-- However it ends, a fetch notes how far the descriptor got.
unfoldable pub index_logger_fetch : (ℕ → Bool) → M FetchedItem
index_logger_fetch can_alloc il =
    let (r, il') = fetch_steps can_alloc il in (r, record il' { fetch_pos = il'.file_offset })

-- one round of the loop below
abbrev pub replay_on :
    (LogReader → List FetchedItem × Bool) → Option FetchedItem × LogReader → List FetchedItem × Bool
replay_on again (none, il) = ([], Bool.true)
replay_on again (some ili, il) = let rest = again il in (ili ∷ rest.0, rest.1)

-- `while ((ili = index_logger_fetch(il)) != NULL)`, for so many rounds at most: the items, and whether
-- the loop ended.
unfoldable pub replay : (ℕ → Bool) → ℕ → LogReader → List FetchedItem × Bool
replay can_alloc zero il = ([], Bool.false)
replay can_alloc (suc n) il = replay_on (replay can_alloc n) (index_logger_fetch can_alloc il)
