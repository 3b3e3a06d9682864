-- ===== src/Storage/Lifecycle/OnDisk/Sync.antt =====
-- src/storage.c: `sync_storage` keeps the data files in step with the block files.
use linglongta.Prelude.{ℕ, zero, suc, ◌+◌, Bool, true}
use linglongta.Storage.Types.{Storage, Env}
use linglongta.Storage.Invariant.Steps.{OnDone}
use linglongta.Storage.Lifecycle.{Globals, globals}
use linglongta.Storage.Lifecycle.Close.{
  sync_header, sync_loop, SyncObject, index, all, other, sync_storage,
}
use linglongta.Storage.Lifecycle.OnDisk.{AreOnDisk, OnDisk, disk-AreOnDisk, header-HasSlots}

sync_loop-AreOnDisk :
    (env : Env) (there : ℕ → Bool) (n rest i : ℕ) (g : Globals)
    → AreOnDisk there n g.files g.disk
    → AreOnDisk there n g.files (sync_loop env rest i g).disk
unfolding sync_loop
sync_loop-AreOnDisk env there n zero i g w = w
sync_loop-AreOnDisk env there n (suc rest) i g w =
    sync_loop-AreOnDisk env there n rest (i + 1) (sync_header env i g)
      (disk-AreOnDisk there n g.files g.disk i _ w (λ h. header-HasSlots env i _ _ _ (w.file i h)))

pub sync_storage-OnDisk :
    {Db : Type 0} (env : Env) (there : ℕ → Bool) (s : Storage Db)
    → OnDisk there s
    → (object : SyncObject)
    → OnDone
        (λ r. AreOnDisk there s.sizes.block_type_count s.files r.1.disk)
        (sync_storage env object (globals true there s))
unfolding sync_storage
sync_storage-OnDisk env there s w index = w
sync_storage-OnDisk env there s w all =
    sync_loop-AreOnDisk env there s.sizes.block_type_count s.sizes.block_type_count 0
      (globals true there s) w
sync_storage-OnDisk env there s w other = tt
