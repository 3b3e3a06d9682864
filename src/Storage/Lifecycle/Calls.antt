-- ===== src/Storage/Lifecycle/Calls.antt =====
-- src/storage.c: what `close_storage` and `open_storage` return where all that they ask is done.
use linglongta.Prelude.{
  ℕ, ◌-◌, ◌<◌, ◌≡◌, refl, ap, arith, Bool, true, false, none, some, [], ℤ, pos,
}
use linglongta.Rwlock.{rwlock_build}
use linglongta.Storage.Sizes.{init_storage}
use linglongta.Storage.Types.{BlockFile, DataFile, Storage, Env, done}
use linglongta.Storage.Files.{fd_open, sync_data_file_header}
use linglongta.Storage.Lifecycle.{Globals, Bucket, no_bucket, globals, bucket}
use linglongta.Storage.Lifecycle.Bdb.{
  first_error, bdb_calls, bdb_cache_size, close_bdb, open_index_file, open_transaction_bdb,
}
use linglongta.Storage.Lifecycle.Open.{
  OpenAnswers, DirState, clear, open_data_files, open_globals, open_storage,
}
use linglongta.Storage.Lifecycle.Close.{CloseAnswers, close_files, close_storage, close_loop}
use linglongta.Storage.Lifecycle.Closed.{Closed}

-- All that is asked while the store closes is done.
pub record CloseWorks (c : CloseAnswers) : Type 0 where
  pub header : (b : ℕ) → c.env.header_written b ≡ true
  pub bdb : close_bdb c.db_close c.env_close ≡ pos 0
  pub logger : c.logger_close ≡ pos 0

-- The directory is there, and the allocator and Berkeley DB do all that they are asked.
pub record OpensIndex {Db : Type 0} (a : OpenAnswers Db) : Type 0 where
  pub has_bucket : a.has_bucket ≡ true
  pub dir : a.dir ≡ DirState.there
  pub calloc : a.index.bdb.can_calloc ≡ true
  pub bdb : first_error (bdb_calls bdb_cache_size a.index.bdb) ≡ pos 0
  pub lock : a.index.has_lock ≡ true
  pub logger : a.index.has_logger ≡ true

-- All that is asked while a store that is there opens is done.
pub record OpenWorks {Db : Type 0} (a : OpenAnswers Db) : Type 0 where
  pub index : OpensIndex a
  pub accessible : (b : ℕ) → a.files.accessible b ≡ true
  pub opens : (b : ℕ) → fd_open (a.files.fd b) ≡ true
  pub read : (b : ℕ) → a.files.header_read b ≡ true

module _ {Db : Type 0} (a : OpenAnswers Db) (works : OpensIndex a) where
  unfoldable pub opened_bucket : Bucket Db
  opened_bucket = record {
    indexdb = some (record { dbp = a.index.bdb.table; error_no = pos 0 });
    index_logger = some [];
    index_lock = some rwlock_build;
  }

  open_index_file-done : open_index_file a.index no_bucket ≡ done (pos 0, opened_bucket)
  unfolding open_index_file open_transaction_bdb opened_bucket
  open_index_file-done = rw works.calloc (rw works.bdb (rw works.lock (rw works.logger refl)))

  pub open_storage-done :
      (largest : ℕ) (g : Globals)
      → g.inited_global_vars ≡ false
      → (init_storage largest).0 ≡ pos 0
      → (open_data_files a.files (clear (init_storage largest).1 g)).0 ≡ pos 0
      → open_storage a largest g
        ≡ done (
          pos 0,
          (open_data_files a.files (clear (init_storage largest).1 g)).1,
          some opened_bucket,
        )
  unfolding open_storage open_globals
  open_storage-done largest g not_yet fits loads =
      rw works.has_bucket
        (rw works.dir (rw not_yet (rw fits (rw loads (rw open_index_file-done refl)))))

pub header_written-eq :
    (env : Env) (b : ℕ) (fh : BlockFile) (f : DataFile)
    → env.header_written b ≡ true
    → sync_data_file_header env b fh f ≡ record f {
      block_size = fh.block_size;
      block_cnt = fh.block_cnt;
      free_slots_cnt = fh.free_slots_cnt;
    }
unfolding sync_data_file_header
header_written-eq env b fh f e = rw e refl

module _ {Db : Type 0} (s : Storage Db) (there : ℕ → Bool) (c : CloseAnswers)
    (works : CloseWorks c) where
  unfoldable pub closing : ℤ × ℕ × Globals
  closing = close_loop c.env s.sizes.block_type_count 0 (globals true there s)

  unfoldable pub closed_globals : Globals
  closed_globals = record closing.2 {
    inited_global_vars = false;
    sizes = record closing.2.sizes {
      block_type_count = closing.2.sizes.block_type_count - closing.1;
    };
  }

  module _ (closed : Closed c.env s.sizes.block_type_count 0 (globals true there s) closing) where
    pub close_storage-done :
        close_storage c (bucket s) (globals true there s) ≡ (pos 0, closed_globals, none)
    unfolding close_storage close_files closing closed_globals
    close_storage-done = rw closed.ret (rw works.bdb (rw works.logger refl))

    pub closed_disk :
        (b : ℕ)
        → b < s.sizes.block_type_count
        → closed_globals.disk b ≡ sync_data_file_header c.env b (s.files b) (s.disk b)
    unfolding closed_globals
    closed_disk b h = closed.written b (omega arith) (omega arith)

    pub closed_present : closed_globals.present ≡ there
    unfolding closed_globals
    closed_present = ap (λ (g : Globals). g.present) closed.rest_same
