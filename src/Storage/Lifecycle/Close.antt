-- ===== src/Storage/Lifecycle/Close.antt =====
-- src/storage.c: `close_storage` and `sync_storage`.
use linglongta.Prelude.{
  ℕ, zero, suc, ◌+◌, ◌-◌, false, Option, none, some, List, if◌then◌else◌, update, ℤ, pos, negsuc,
}
use linglongta.Storage.Types.{LogItem, BdbHandle, Env, Run, done, aborted}
use linglongta.Storage.Files.{fd_open, sync_data_file_header}
use linglongta.Storage.Blocks.{is_zero}
use linglongta.Storage.Lifecycle.{Globals, Bucket}
use linglongta.Storage.Lifecycle.Bdb.{close_bdb}

-- What is answered while the store closes; `logger_close` is the code of `index_logger_close`.
pub record CloseAnswers : Type 0 where
  pub env : Env
  pub db_close : ℤ
  pub env_close : ℤ
  pub logger_close : ℤ

-- The header of a data file is written from memory, whatever the kernel answers.
abbrev pub sync_header : Env → (block_id : ℕ) → Globals → Globals
sync_header env block_id g = record g {
  disk =
      update g.disk block_id
        (sync_data_file_header env block_id (g.files block_id) (g.disk block_id));
}

abbrev pub close_file : Env → (block_id : ℕ) → Globals → Globals
close_file env block_id g = record (sync_header env block_id g) {
  files = update g.files block_id (record (g.files block_id) { fd = negsuc 0 });
}

-- The loop of `close_storage` at block type `i`, with `rest` of them left: the code, the count of files
-- closed, and the globals.
unfoldable pub close_loop : Env → (rest i : ℕ) → Globals → ℤ × ℕ × Globals
close_loop env zero i g = (pos 0, 0, g)
close_loop env (suc rest) i g =
    let (ret, closed, g') = close_loop env rest (i + 1) (close_file env i g) in
    if fd_open (g.files i).fd then (ret, closed + 1, g') else (negsuc 0, 0, g)

abbrev pub close_done : ℤ × ℕ × Globals → ℤ × Globals
close_done (ret, closed, g) =
    if is_zero ret
    then (
      pos 0,
      record g {
        inited_global_vars = false;
        sizes = record g.sizes { block_type_count = g.sizes.block_type_count - closed };
      },
    )
    else (negsuc 0, g)

unfoldable pub close_files : Env → Globals → ℤ × Globals
close_files env g =
    if g.inited_global_vars
    then close_done (close_loop env g.sizes.block_type_count 0 g)
    else (pos 0, g)

module _ (a : CloseAnswers) where
  abbrev pub close_indexdb : {Db : Type 0} → Option (BdbHandle Db) → ℤ
  close_indexdb none = pos 0
  close_indexdb (some h) = close_bdb a.db_close a.env_close

  abbrev pub close_logger : Option (List LogItem) → ℤ
  close_logger none = pos 0
  close_logger (some items) = a.logger_close

module _ {Db : Type 0} (a : CloseAnswers) where
  -- After the data files: the index, the index logger, and the bucket, which is freed at the end.
  abbrev pub close_bucket : Bucket Db → ℤ × Option (Bucket Db)
  close_bucket bsp =
      if is_zero (close_indexdb a bsp.indexdb)
      then if is_zero (close_logger a bsp.index_logger)
        then (pos 0, none)
        else (negsuc 0, some (record bsp { indexdb = none }))
      else (negsuc 0, some bsp)

  unfoldable pub close_storage : Bucket Db → Globals → ℤ × Globals × Option (Bucket Db)
  close_storage bsp g =
      let (ret, g') = close_files a.env g in
      let (ret', bsp') = close_bucket bsp in
      if is_zero ret then (ret', g', bsp') else (negsuc 0, g', some bsp)

-- The loop of `sync_storage`. What that flushes besides is the index and its log.
unfoldable pub sync_loop : Env → (rest i : ℕ) → Globals → Globals
sync_loop env zero i g = g
sync_loop env (suc rest) i g = sync_loop env rest (i + 1) (sync_header env i g)

-- The argument of `sync_storage`, as `strcasecmp` tells it apart.
pub data SyncObject : Type 0 where
  index all other : SyncObject

unfoldable pub sync_storage : Env → SyncObject → Globals → Run (ℤ × Globals)
sync_storage env index g = done (pos 0, g)
sync_storage env all g = done (pos 0, sync_loop env g.sizes.block_type_count 0 g)
sync_storage env other g = aborted
