-- ===== src/IndexLog/Encoding.antt =====
-- src/indexlog.c, include/indexlog.h: the bytes of an item of the index log, as `memcpy` takes them from
-- the structs on x86-64: little-endian numbers, 4 bytes of type, 16 of key and 24 of value.
use linglongta.Prelude.{
  ℕ, zero, suc, ◌+◌, ◌*◌, ◌/◌, ◌%◌, ◌^◌, ◌<◌, ◌≡◌, refl, ap, arith, List, [], ◌∷◌, ◌++◌, length,
  take, drop,
}
use linglongta.Storage.Types.{Key, key_len, IndexValue, OpType, LogItem}

-- the bytes of a w-byte unsigned integer, the lowest first
unfoldable pub le_bytes : (w n : ℕ) → List ℕ
le_bytes zero n = []
le_bytes (suc w) n = (n % 256) ∷ le_bytes w (n / 256)

unfoldable pub le_value : List ℕ → ℕ
le_value [] = 0
le_value (b ∷ bs) = b + 256 * le_value bs

abbrev bound : ℕ → ℕ
bound zero = 1
bound (suc w) = 256 * bound w

le_value-le_bytes : (w n : ℕ) → n < bound w → le_value (le_bytes w n) ≡ n
unfolding le_value le_bytes
le_value-le_bytes zero n h = omega arith
le_value-le_bytes (suc w) n h = omega (arith, le_value-le_bytes w (n / 256) (omega arith))

pub length-le_bytes : (w n : ℕ) → length (le_bytes w n) ≡ w
unfolding le_bytes
length-le_bytes zero n = refl
length-le_bytes (suc w) n = ap suc (length-le_bytes w (n / 256))

pub le_value-le_bytes_4 : (n : ℕ) → n < 2 ^ 32 → le_value (le_bytes 4 n) ≡ n
le_value-le_bytes_4 n h = le_value-le_bytes 4 n (omega arith)

pub le_value-le_bytes_8 : (n : ℕ) → n < 2 ^ 64 → le_value (le_bytes 8 n) ≡ n
le_value-le_bytes_8 n h = le_value-le_bytes 8 n (omega arith)

-- the values of `enum op_type_t`
unfoldable pub op_code : OpType → ℕ
op_code OpType.index_unknown_op = 0
op_code OpType.index_append = 1
op_code OpType.index_modify = 2
op_code OpType.index_del = 3

-- struct index_log_item_s as it is read back: any 4 bytes can stand for the type.
pub record FetchedItem : Type 0 where
  pub type : ℕ
  pub index_key : Key
  pub index_value : IndexValue

unfoldable pub as_fetched : LogItem → FetchedItem
as_fetched ili = record {
  type = op_code ili.type;
  index_key = ili.index_key;
  index_value = ili.index_value;
}

-- struct index_value_t
unfoldable pub value_bytes : IndexValue → List ℕ
value_bytes v =
    le_bytes 4 v.crc32 ++ (le_bytes 4 v.block_id ++ (le_bytes 8 v.data_size ++ le_bytes 8 v.offset))

pub length-value_bytes : (v : IndexValue) → length (value_bytes v) ≡ 24
unfolding value_bytes le_bytes
length-value_bytes v = refl

unfoldable pub read_value : List ℕ → IndexValue
read_value bs = record {
  crc32 = le_value (take 4 bs);
  block_id = le_value (take 4 (drop 4 bs));
  data_size = le_value (take 8 (drop 8 bs));
  offset = le_value (drop 16 bs);
}

-- An item whose fields fit their C types.
pub record Fits (ili : LogItem) : Type 0 where
  pub key : length ili.index_key ≡ key_len
  pub crc32 : ili.index_value.crc32 < 2 ^ 32
  pub block_id : ili.index_value.block_id < 2 ^ 32
  pub data_size : ili.index_value.data_size < 2 ^ 64
  pub offset : ili.index_value.offset < 2 ^ 64

pub read_value-value_bytes :
    (v : IndexValue)
    → v.crc32 < 2 ^ 32
    → v.block_id < 2 ^ 32
    → v.data_size < 2 ^ 64
    → v.offset < 2 ^ 64
    → read_value (value_bytes v) ≡ v
unfolding read_value value_bytes le_bytes
read_value-value_bytes v c b d o = cc (
  le_value-le_bytes_4 v.crc32 c,
  le_value-le_bytes_4 v.block_id b,
  le_value-le_bytes_8 v.data_size d,
  le_value-le_bytes_8 v.offset o,
)
