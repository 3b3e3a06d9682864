-- ===== src/Storage/Invariant.antt =====
-- src/storage.c: the invariant that ties the index to the block files.
pub mod Index
pub mod Keep
pub mod Steps
pub mod Calls
use linglongta.Prelude.{ℕ, ◌≤◌, ◌<◌, ◌≡◌, ◌≢◌, true}
use linglongta.Storage.Sizes.{SizeTable}
use linglongta.Storage.Sizes.Table.{IsSizeTable}
use linglongta.Storage.Types.{BlockFile, Key, IndexValue, hit, BdbOps, Storage}
use linglongta.Storage.Files.{fd_open}
use linglongta.Storage.Slots.{IsBlockFile, InUse}

-- The value of an index entry: its block is in use, and the data fits in it.
pub record IsEntry (t : SizeTable) (files : ℕ → BlockFile) (iv : IndexValue) : Type 0 where
  pub in_range : iv.block_id < t.block_type_count
  pub fits : iv.data_size ≤ t.block_size_array iv.block_id
  pub used : InUse (files iv.block_id) iv.offset

-- Two index values that share no block.
abbrev pub Apart : IndexValue → IndexValue → Type 0
Apart iv jv = iv.block_id ≡ jv.block_id → iv.offset ≢ jv.offset

-- The block files up to the count are open, of the size of their type, and sound.
pub record AreFiles (t : SizeTable) (files : ℕ → BlockFile) : Type 0 where
  pub sound : (b : ℕ) → b < t.block_type_count → IsBlockFile (files b)
  pub sized : (b : ℕ) → b < t.block_type_count → (files b).block_size ≡ t.block_size_array b
  pub opened : (b : ℕ) → b < t.block_type_count → fd_open (files b).fd ≡ true

-- Every entry of the index names a block in use, and different keys never share a block.
pub record IsIndex (t : SizeTable) (files : ℕ → BlockFile) {Db : Type 0} (bdb : BdbOps Db) (d : Db)
    : Type 0 where
  pub entry : (k : Key) (iv : IndexValue) → bdb.get d k ≡ hit iv → IsEntry t files iv
  pub apart :
      (k j : Key) (iv jv : IndexValue)
      → bdb.get d k ≡ hit iv
      → bdb.get d j ≡ hit jv
      → k ≢ j
      → Apart iv jv

pub record IsStore {Db : Type 0} (bdb : BdbOps Db) (s : Storage Db) : Type 0 where
  pub table : IsSizeTable s.sizes
  pub files : AreFiles s.sizes s.files
  pub index : IsIndex s.sizes s.files bdb s.indexdb.dbp
