-- ===== src/Storage/Types.antt =====
-- include/storage.h and src/storage.c: the data of the object store, and what it asks of Berkeley DB.
use linglongta.Prelude.{
  ℕ, ◌+◌, ◌*◌, ◌%◌, ◌^◌, ◌≡◌, ◌≢◌, Bool, List, ◌++◌, take, replicate, ℤ, pos, negsuc,
}
use linglongta.Rwlock.{Lock}
use linglongta.Storage.Sizes.{SizeTable}

abbrev pub max_free_slots : ℕ
max_free_slots = 100 * 1000

abbrev pub key_len : ℕ
key_len = 16

-- SLOTS_SECTION_POS and DATA_SECTION_POS: the header holds three 8-byte counters and the slots.
abbrev pub slots_section_pos : ℕ
slots_section_pos = 24

abbrev pub data_section_pos : ℕ
data_section_pos = slots_section_pos + 8 * max_free_slots

-- The `(uint32_t)` cast.
unfoldable pub as_u32 : ℕ → ℕ
as_u32 n = n % 2 ^ 32

-- struct block_file_t, without the lock: each function locks and unlocks it around its own accesses.
pub record BlockFile : Type 0 where
  pub fd : ℤ
  pub block_size : ℕ
  pub block_cnt : ℕ
  pub free_slots_cnt : ℕ
  pub free_slots_offset : ℕ → ℕ

-- A data file: the header at 0, the slots behind it, and from `data_section_pos` on the blocks, as
-- bytes by their offset in the file. `size` is the length of the file.
pub record DataFile : Type 0 where
  pub block_size : ℕ
  pub block_cnt : ℕ
  pub free_slots_cnt : ℕ
  pub free_slots_offset : ℕ → ℕ
  pub bytes : ℕ → ℕ
  pub size : ℕ

-- union index_key_t: 16 bytes
abbrev pub Key : Type 0
Key = List ℕ

-- A key is cut, or filled up by zeros, to 16 bytes.
unfoldable pub fix_key : List ℕ → Key
fix_key key = take key_len (key ++ replicate key_len 0)

pub record IndexValue : Type 0 where
  pub crc32 : ℕ
  pub block_id : ℕ
  pub data_size : ℕ
  pub offset : ℕ

-- enum op_type_t
pub data OpType : Type 0 where
  index_unknown_op index_append index_modify index_del : OpType

-- struct index_log_item_s
pub record LogItem : Type 0 where
  pub type : OpType
  pub index_key : Key
  pub index_value : IndexValue

-- What a lookup in the index answers: the record, DB_NOTFOUND, or another error.
pub data Lookup : Type 0 where
  hit : IndexValue → Lookup
  miss : Lookup
  failed : ℤ → Lookup

-- Berkeley DB as src/bdblib.c calls it: `get`, `put` and `del` of a DB handle, with their result codes.
pub record BdbOps (Db : Type 0) : Type 0 where
  pub get : Db → Key → Lookup
  pub put : Db → Key → IndexValue → ℤ × Db
  pub del : Db → Key → ℤ × Db
  pub db_notfound : ℤ

-- The documented behaviour that the store relies on: 0 means that the operation was done, and any
-- other code that the table is as before.
pub record BdbLaws {Db : Type 0} (ops : BdbOps Db) : Type 0 where
  pub get-put_self :
      (d : Db) (k : Key) (v : IndexValue)
      → (ops.put d k v).0 ≡ pos 0
      → ops.get (ops.put d k v).1 k ≡ hit v
  pub get-put_ne :
      (d : Db) (k j : Key) (v : IndexValue) → k ≢ j → ops.get (ops.put d k v).1 j ≡ ops.get d j
  pub get-put_fail :
      (d : Db) (k j : Key) (v : IndexValue)
      → (ops.put d k v).0 ≢ pos 0
      → ops.get (ops.put d k v).1 j ≡ ops.get d j
  pub get-del_self : (d : Db) (k : Key) → (ops.del d k).0 ≡ pos 0 → ops.get (ops.del d k).1 k ≡ miss
  pub get-del_ne : (d : Db) (k j : Key) → k ≢ j → ops.get (ops.del d k).1 j ≡ ops.get d j
  pub get-del_fail :
      (d : Db) (k j : Key) → (ops.del d k).0 ≢ pos 0 → ops.get (ops.del d k).1 j ≡ ops.get d j
  pub notfound_ne : (ops.db_notfound ≢ pos 0) × (ops.db_notfound ≢ negsuc 0)
  pub failed_ne :
      (d : Db) (k : Key) (c : ℤ) → ops.get d k ≡ failed c → (c ≢ pos 0) × (c ≢ ops.db_notfound)

-- struct bdb_t
pub record BdbHandle (Db : Type 0) : Type 0 where
  pub dbp : Db
  pub error_no : ℤ

-- The globals of src/storage.c, the files behind them, and struct bucket_storage_t. `journal` is the
-- sequence of items handed to `index_logger_append`.
pub record Storage (Db : Type 0) : Type 0 where
  pub sizes : SizeTable
  pub files : ℕ → BlockFile
  pub disk : ℕ → DataFile
  pub indexdb : BdbHandle Db
  pub journal : List LogItem
  pub index_lock : Lock

-- What the allocator and the kernel answer during a call: whether `slab_alloc` of n bytes succeeds,
-- whether the header and a slot of a block file are written, and how many bytes of the data
-- of a block file are written at an offset.
pub record Env : Type 0 where
  pub can_alloc : ℕ → Bool
  pub header_written : ℕ → Bool
  pub slot_written : ℕ → ℕ → Bool
  pub data_written : (block_id offset data_size : ℕ) → ℕ

-- The end of a call: it returns, an `assert` fails or the process exits, or it waits for the index lock for good,
-- or it does what C leaves undefined.
pub data Run {ℓ} (A : Type ℓ) : Type ℓ where
  done : A → Run A
  aborted : Run A
  blocked : Run A
  undefined : Run A
