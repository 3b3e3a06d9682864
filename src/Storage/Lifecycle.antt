-- ===== src/Storage/Lifecycle.antt =====
-- src/storage.c: what opening and closing the store work on. A data file has the size of its blocks as its
-- name; these sizes are the same in every table that `init_storage` fills, and the model names the file by its
-- block type.
pub mod Bdb
pub mod Open
pub mod Close
pub mod Loaded
pub mod Closed
pub mod Kept
pub mod Calls
pub mod Created
pub mod Fresh
pub mod OnDisk
pub mod Reopen
pub mod Trace
mod Tests
use linglongta.Prelude.{ℕ, Bool, Option, none, some, List, ℤ}
use linglongta.Rwlock.{Lock}
use linglongta.Storage.Sizes.{SizeTable}
use linglongta.Storage.Types.{BlockFile, DataFile, LogItem, BdbHandle, Storage}

-- The globals, and the directory of the data files: which of them are there, and what is in them.
pub record Globals : Type 0 where
  pub inited_global_vars : Bool
  pub sizes : SizeTable
  pub files : ℕ → BlockFile
  pub present : ℕ → Bool
  pub disk : ℕ → DataFile

-- struct bucket_storage_t, where `none` is NULL. Of the index logger it has the items handed to it.
pub record Bucket (Db : Type 0) : Type 0 where
  pub indexdb : Option (BdbHandle Db)
  pub index_logger : Option (List LogItem)
  pub index_lock : Option Lock

module _ {Db : Type 0} where
  -- What `slab_calloc` gives.
  abbrev pub no_bucket : Bucket Db
  no_bucket = record { indexdb = none; index_logger = none; index_lock = none }

  -- The globals and the bucket of an open store.
  abbrev pub globals : Bool → (present : ℕ → Bool) → Storage Db → Globals
  globals inited present s = record {
    inited_global_vars = inited;
    sizes = s.sizes;
    files = s.files;
    present = present;
    disk = s.disk;
  }

  abbrev pub bucket : Storage Db → Bucket Db
  bucket s = record {
    indexdb = some s.indexdb;
    index_logger = some s.journal;
    index_lock = some s.index_lock;
  }
