-- ===== src/Storage/Lifecycle/Bdb.antt =====
-- src/bdblib.c: `open_transaction_bdb` and `close_bdb`, and src/storage.c: `open_index_file`.
use linglongta.Prelude.{
  ℕ, Bool, Option, none, some, List, [], ◌∷◌, ◌++◌, ◌*◌, ◌==◌, if◌then◌else◌, ℤ, pos, negsuc,
}
use linglongta.Rwlock.{Lock, rwlock_build}
use linglongta.Storage.Types.{LogItem, BdbHandle, Run, done, aborted, blocked, undefined}
use linglongta.Storage.Blocks.{is_zero}
use linglongta.Storage.Lifecycle.{Bucket}

abbrev pub bdb_cache_size : ℕ
bdb_cache_size = 1024 * 1024 * 1024

-- What Berkeley DB and the allocator answer while the index is opened, and the table in the file.
pub record BdbAnswers (Db : Type 0) : Type 0 where
  pub can_calloc : Bool
  pub db_env_create : ℤ
  pub set_cache_max : ℤ
  pub set_cachesize : ℤ
  pub log_set_config : ℤ
  pub set_lg_bsize : ℤ
  pub env_open : ℤ
  pub db_create : ℤ
  pub set_pagesize : ℤ
  pub db_open : ℤ
  pub table : Db

abbrev pub first_error : List ℤ → ℤ
first_error [] = pos 0
first_error (c ∷ cs) = if is_zero c then first_error cs else c

abbrev pub cache_calls : {Db : Type 0} → (cache_size : ℕ) → BdbAnswers Db → List ℤ
cache_calls cache_size a = if cache_size == 0 then [] else a.set_cache_max ∷ a.set_cachesize ∷ []

abbrev pub bdb_calls : {Db : Type 0} → (cache_size : ℕ) → BdbAnswers Db → List ℤ
bdb_calls cache_size a =
    a.db_env_create ∷ cache_calls cache_size a
    ++ a.log_set_config ∷ a.set_lg_bsize ∷ a.env_open ∷ a.db_create ∷ a.set_pagesize ∷ a.db_open
      ∷ []

-- `open_transaction_bdb`: each call is made if those before it gave 0. After an error the process exits; NULL
-- comes only of `calloc`.
unfoldable pub open_transaction_bdb :
    {Db : Type 0} → (cache_size : ℕ) → BdbAnswers Db → Run (Option (BdbHandle Db))
open_transaction_bdb cache_size a =
    if a.can_calloc
    then if is_zero (first_error (bdb_calls cache_size a))
      then done (some (record { dbp = a.table; error_no = pos 0 }))
      else aborted
    else done none

-- `close_bdb`, by the codes of its two calls.
unfoldable pub close_bdb : (db_close env_close : ℤ) → ℤ
close_bdb db_close env_close =
    if is_zero db_close then if is_zero env_close then pos 0 else env_close else db_close

-- What `open_index_file` is answered: by Berkeley DB, by `malloc` for the lock, and by `index_logger_create`,
-- which empties the journal.
pub record IndexAnswers (Db : Type 0) : Type 0 where
  pub bdb : BdbAnswers Db
  pub has_lock : Bool
  pub has_logger : Bool

abbrev pub rwlock_new : Bool → Option Lock
rwlock_new has_lock = if has_lock then some rwlock_build else none

abbrev pub index_logger_of : Bool → Option (List LogItem)
index_logger_of has_logger = if has_logger then some [] else none

module _ {Db : Type 0} (a : IndexAnswers Db) where
  -- Where the index logger cannot be created, the code is still 0.
  abbrev pub with_bdb : Run (Option (BdbHandle Db)) → Bucket Db → Run (ℤ × Bucket Db)
  with_bdb (done none) bsp = done (negsuc 0, bsp)
  with_bdb (done (some h)) bsp =
      if is_zero h.error_no
      then done (
        pos 0,
        record bsp {
          indexdb = some h;
          index_lock = rwlock_new a.has_lock;
          index_logger = index_logger_of a.has_logger;
        },
      )
      else done (negsuc 0, bsp)
  with_bdb aborted bsp = aborted
  with_bdb blocked bsp = blocked
  with_bdb undefined bsp = undefined

  unfoldable pub open_index_file : Bucket Db → Run (ℤ × Bucket Db)
  open_index_file bsp = with_bdb (open_transaction_bdb bdb_cache_size a.bdb) bsp
