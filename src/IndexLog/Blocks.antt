-- ===== src/IndexLog/Blocks.antt =====
-- src/indexlog.c: the log as a sequence of items, and what its buffers and its file hold of them.
use linglongta.Prelude.{
  ℕ, ◌*◌, ◌≤◌, ◌≡◌, ◌≢◌, refl, sym, ap, ◌∙◌, arith, List, [], ◌∷◌, ◌++◌, append_assoc, append-nil,
  length, length-append, All, ◌==◌, if◌then◌else◌,
}
use linglongta.Storage.Types.{LogItem}
use linglongta.IndexLog.Encoding.{
  op_code, le_bytes, length-le_bytes, value_bytes, length-value_bytes, Fits,
}
use linglongta.IndexLog.Writer.{Buf, IndexLogger, item_bytes, magic_header}

-- How many items a buffer has room for.
abbrev pub block_capacity : ℕ
block_capacity = 186

-- The log as the program means it: the blocks in the file, and the items that wait in memory.
pub record ItemLog : Type 0 where
  pub blocks : List (List LogItem)
  pub waiting : List LogItem

unfoldable pub flat : List (List LogItem) → List LogItem
flat [] = []
flat (b ∷ bs) = b ++ flat bs

pub flat-snoc : (bs : List (List LogItem)) (b : List LogItem) → flat (bs ++ b ∷ []) ≡ flat bs ++ b
unfolding flat
flat-snoc [] b = append-nil b
flat-snoc (c ∷ bs) b = ap (λ l. c ++ l) (flat-snoc bs b) ∙ sym (append_assoc c (flat bs) b)

abbrev pub all_items : ItemLog → List LogItem
all_items g = flat g.blocks ++ g.waiting

abbrev pub no_items : ItemLog
no_items = record { blocks = []; waiting = [] }

unfoldable pub log_append : LogItem → ItemLog → ItemLog
log_append ili g =
    if length g.waiting == block_capacity
    then record { blocks = g.blocks ++ g.waiting ∷ []; waiting = ili ∷ [] }
    else record { blocks = g.blocks; waiting = g.waiting ++ ili ∷ [] }

pub all_items-log_append :
    (ili : LogItem) (g : ItemLog) → all_items (log_append ili g) ≡ all_items g ++ ili ∷ []
unfolding log_append
all_items-log_append ili g =
    ground (arith, flat-snoc g.blocks g.waiting, append_assoc (flat g.blocks) g.waiting (ili ∷ []))

-- What waits becomes a block.
unfoldable pub log_flush : ItemLog → ItemLog
log_flush g =
    if length g.waiting == 0
    then g
    else record { blocks = g.blocks ++ g.waiting ∷ []; waiting = [] }

pub all_items-log_flush : (g : ItemLog) → all_items (log_flush g) ≡ all_items g
unfolding log_flush
all_items-log_flush g =
    ground (arith, flat-snoc g.blocks g.waiting, append-nil (flat (g.blocks ++ g.waiting ∷ [])))

unfoldable pub log_append_all : List LogItem → ItemLog → ItemLog
log_append_all [] g = g
log_append_all (ili ∷ ilis) g = log_append_all ilis (log_append ili g)

pub all_items-log_append_all :
    (ilis : List LogItem) (g : ItemLog) → all_items (log_append_all ilis g) ≡ all_items g ++ ilis
unfolding log_append_all
all_items-log_append_all [] g = sym (append-nil (all_items g))
all_items-log_append_all (ili ∷ ilis) g =
    all_items-log_append_all ilis (log_append ili g)
    ∙ ap (λ l. l ++ ilis) (all_items-log_append ili g)
    ∙ append_assoc (all_items g) (ili ∷ []) ilis

unfoldable pub encode_item : LogItem → List ℕ
encode_item ili = le_bytes 4 (op_code ili.type) ++ (ili.index_key ++ value_bytes ili.index_value)

pub length-encode_item : (ili : LogItem) → Fits ili → length (encode_item ili) ≡ 44
unfolding encode_item
length-encode_item ili f = omega (
  arith,
  length-append (le_bytes 4 (op_code ili.type)) (ili.index_key ++ value_bytes ili.index_value),
  length-append ili.index_key (value_bytes ili.index_value),
  length-le_bytes 4 (op_code ili.type),
  length-value_bytes ili.index_value,
  f.key,
)

unfoldable pub encode_items : List LogItem → List ℕ
encode_items [] = []
encode_items (x ∷ xs) = encode_item x ++ encode_items xs

pub encode_items-append :
    (xs ys : List LogItem) → encode_items (xs ++ ys) ≡ encode_items xs ++ encode_items ys
unfolding encode_items
encode_items-append [] ys = refl
encode_items-append (x ∷ xs) ys =
    ap (λ l. encode_item x ++ l) (encode_items-append xs ys)
    ∙ sym (append_assoc (encode_item x) (encode_items xs) (encode_items ys))

pub length-encode_items :
    (xs : List LogItem) → All Fits xs → length (encode_items xs) ≡ length xs * 44
unfolding encode_items
length-encode_items [] h = refl
length-encode_items (x ∷ xs) (hx, h) = omega (
  arith,
  length-append (encode_item x) (encode_items xs),
  length-encode_item x hx,
  length-encode_items xs h,
)

module _ (crc32_calc : List ℕ → ℕ) where
  -- A block of the file: the checksum, the number of items, and the items.
  unfoldable pub encode_block : List LogItem → List ℕ
  encode_block xs =
      le_bytes 4 (crc32_calc (encode_items xs)) ++ (le_bytes 4 (length xs) ++ encode_items xs)

  unfoldable pub encode_blocks : List (List LogItem) → List ℕ
  encode_blocks [] = []
  encode_blocks (b ∷ bs) = encode_block b ++ encode_blocks bs

  pub encode_blocks-snoc :
      (bs : List (List LogItem)) (b : List LogItem)
      → encode_blocks (bs ++ b ∷ []) ≡ encode_blocks bs ++ encode_block b
  unfolding encode_blocks
  encode_blocks-snoc [] b = append-nil (encode_block b)
  encode_blocks-snoc (c ∷ bs) b =
      ap (λ l. encode_block c ++ l) (encode_blocks-snoc bs b)
      ∙ sym (append_assoc (encode_block c) (encode_blocks bs) (encode_block b))

-- A block that the log writes: it has an item, and no more than a buffer holds.
pub record IsBlock (xs : List LogItem) : Type 0 where
  pub some_item : xs ≢ []
  pub no_more : length xs ≤ block_capacity
  pub fits : All Fits xs

-- A buffer that holds these items.
pub record IsBuf (b : Buf) (xs : List LogItem) : Type 0 where
  pub counts : b.count ≡ length xs
  pub holds : item_bytes b ≡ encode_items xs
  pub no_more : length xs ≤ block_capacity
  pub fits : All Fits xs

-- The logger has the log `g` in its file and its working buffer.
pub record IsLog (crc32_calc : List ℕ → ℕ) (il : IndexLogger) (g : ItemLog) : Type 0 where
  pub file : il.file ≡ magic_header ++ encode_blocks crc32_calc g.blocks
  pub working : IsBuf il.working_buffer g.waiting
  pub blocks : All IsBlock g.blocks
