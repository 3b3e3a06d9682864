-- ===== src/Storage/Lifecycle/Trace.antt =====
-- src/storage.c: a store from its creation on, under any calls, with the program ended and started in between.
use linglongta.Prelude.{
  ℕ, ◌≡◌, sym, ap, ◌∙◌, Bool, true, false, Option, none, some, List, ℤ, pos, subst,
}
use linglongta.Storage.Sizes.{init_storage}
use linglongta.Storage.Types.{
  DataFile, Key, miss, BdbOps, BdbLaws, Storage, Env, Run, done, aborted, blocked, undefined,
}
use linglongta.Storage.Ops.{Found, update_block, delete_block, find_block}
use linglongta.Storage.Invariant.{IsStore}
use linglongta.Storage.Invariant.Steps.{OnDone}
use linglongta.Storage.Invariant.Calls.{
  AllRoom, update_block-IsStore, delete_block-IsStore, find_block-IsStore,
}
use linglongta.Storage.Lifecycle.{Globals, Bucket, globals, bucket}
use linglongta.Storage.Lifecycle.Open.{OpenAnswers, open_storage}
use linglongta.Storage.Lifecycle.Close.{CloseAnswers, close_storage, SyncObject, sync_storage}
use linglongta.Storage.Lifecycle.Calls.{CloseWorks, OpenWorks}
use linglongta.Storage.Lifecycle.Fresh.{
  CreateWorks, fresh, fresh_there, open_storage-fresh, fresh-IsStore, fresh-OnDisk,
}
use linglongta.Storage.Lifecycle.OnDisk.{AreOnDisk, OnDisk}
use linglongta.Storage.Lifecycle.OnDisk.Sync.{sync_storage-OnDisk}
use linglongta.Storage.Lifecycle.OnDisk.Calls.{
  update_block-OnDisk, delete_block-OnDisk, find_block-OnDisk,
}
use linglongta.Storage.Lifecycle.Reopen.{
  reopened, open_storage-reopened, reopened-SameStore, reopened-OnDisk, close_storage-reopened,
}
use linglongta.Storage.Lifecycle.Kept.{same-IsStore}

module _ {Db : Type 0} (bdb : BdbOps Db) (crc32_calc : List ℕ → ℕ) where
  -- A call that ends, or a close with an open behind it that finds the same index.
  pub data Step (there : ℕ → Bool) : Storage Db → Storage Db → Type 0 where
    updated :
        {s : Storage Db} {s' : Storage Db} {ret : ℤ} (env : Env) (key content : List ℕ)
        → ((b i : ℕ) → env.slot_written b i ≡ true)
        → AllRoom s
        → update_block bdb crc32_calc env key content s ≡ done (ret, s')
        → Step there s s'
    deleted :
        {s : Storage Db} {s' : Storage Db} {ret : ℤ} (env : Env) (key : List ℕ)
        → ((b i : ℕ) → env.slot_written b i ≡ true)
        → AllRoom s
        → delete_block bdb crc32_calc env key s ≡ done (ret, s')
        → Step there s s'
    searched :
        {s : Storage Db} {s' : Storage Db} {found : Found} (env : Env) (key : List ℕ)
        → find_block bdb crc32_calc env key s ≡ done (found, s')
        → Step there s s'
    synced :
        {s : Storage Db} {ret : ℤ} (env : Env) (object : SyncObject) (disk : ℕ → DataFile)
        → sync_storage env object (globals true there s)
          ≡ done (ret, globals true there (record s { disk = disk }))
        → Step there s (record s { disk = disk })
    restarted :
        {s : Storage Db} {s' : Storage Db} (g' : Globals) (c : CloseAnswers) (a : OpenAnswers Db)
        (largest : ℕ)
        → CloseWorks c
        → OpenWorks a
        → (init_storage largest).0 ≡ pos 0
        → (init_storage largest).1.block_type_count ≡ s.sizes.block_type_count
        → ((k : Key) → bdb.get a.index.bdb.table k ≡ bdb.get s.indexdb.dbp k)
        → close_storage c (bucket s) (globals true there s) ≡ (pos 0, g', none)
        → open_storage a largest g' ≡ done (pos 0, globals true there s', some (bucket s'))
        → Step there s s'

  pub data Reach (there : ℕ → Bool) : Storage Db → Type 0 where
    created :
        {s : Storage Db} (a : OpenAnswers Db) (largest : ℕ) (before : Globals)
        → CreateWorks a
        → (init_storage largest).0 ≡ pos 0
        → ((k : Key) → bdb.get a.index.bdb.table k ≡ miss)
        → before.inited_global_vars ≡ false
        → ((b : ℕ) → before.present b ≡ false)
        → open_storage a largest before ≡ done (pos 0, globals true there s, some (bucket s))
        → Reach there s
    next : {s : Storage Db} {s' : Storage Db} → Reach there s → Step there s s' → Reach there s'

-- The invariant of the store, and that the data files have what the next start needs.
pub record IsSound {Db : Type 0} (bdb : BdbOps Db) (there : ℕ → Bool) (s : Storage Db)
    : Type 0 where
  pub store : IsStore bdb s
  pub on_disk : OnDisk there s

abbrev or_else {ℓ} : {A : Type ℓ} → A → Option A → A
or_else d none = d
or_else d (some x) = x

OnDone-subst : {A : Type 0} (P : A → Type 0) (r : Run A) (x : A) → r ≡ done x → OnDone P r → P x
OnDone-subst P r x e h = subst (OnDone P) e h

-- The globals and the bucket that `open_storage` gives, where it gives them.
module _ {Db : Type 0} where
  abbrev parts : Run (ℤ × Globals × Option (Bucket Db)) → Option (Globals × Bucket Db)
  parts (done (ret, h, some b)) = some (h, b)
  parts (done (ret, h, none)) = none
  parts aborted = none
  parts blocked = none
  parts undefined = none

  abbrev store_of : Storage Db → Option (Globals × Bucket Db) → Storage Db
  store_of d none = d
  store_of d (some (h, b)) = record {
    sizes = h.sizes;
    files = h.files;
    disk = h.disk;
    indexdb = or_else d.indexdb b.indexdb;
    journal = or_else d.journal b.index_logger;
    index_lock = or_else d.index_lock b.index_lock;
  }

  abbrev there_of : (ℕ → Bool) → Option (Globals × Bucket Db) → ℕ → Bool
  there_of d none = d
  there_of d (some (h, b)) = h.present

  same_IsSound :
      (bdb : BdbOps Db) (there there' : ℕ → Bool) (s t : Storage Db)
      → (Path
          (Run (ℤ × Globals × Option (Bucket Db)))
          (done (pos 0, globals true there s, some (bucket s)))
          (done (pos 0, globals true there' t, some (bucket t))))
      → IsSound bdb there s
      → IsSound bdb there' t
  same_IsSound bdb there there' s t e w =
      subst (λ p. IsSound bdb p t) (ap (λ r. there_of there (parts r)) e)
        (subst (IsSound bdb there) (ap (λ r. store_of s (parts r)) e) w)

module _ {Db : Type 0} {bdb : BdbOps Db} (laws : BdbLaws bdb) (crc32_calc : List ℕ → ℕ)
    {there : ℕ → Bool} where
  Step-IsSound :
      {s : Storage Db} {s' : Storage Db}
      → Step bdb crc32_calc there s s'
      → IsSound bdb there s
      → IsSound bdb there s'
  Step-IsSound {s} {s'} (updated env key content written room gives) w = record {
    store =
        OnDone-subst (λ r. IsStore bdb r.1) _ _ gives
          (update_block-IsStore laws crc32_calc env s w.store key content room);
    on_disk =
        OnDone-subst (λ r. OnDisk there r.1) _ _ gives
          (update_block-OnDisk bdb crc32_calc env there written s w.on_disk key content);
  }
  Step-IsSound {s} {s'} (deleted env key written room gives) w = record {
    store =
        OnDone-subst (λ r. IsStore bdb r.1) _ _ gives
          (delete_block-IsStore laws crc32_calc env s w.store key room);
    on_disk =
        OnDone-subst (λ r. OnDisk there r.1) _ _ gives
          (delete_block-OnDisk bdb crc32_calc env there written s w.on_disk key);
  }
  Step-IsSound {s} {s'} (searched env key gives) w = record {
    store =
        OnDone-subst (λ r. IsStore bdb r.1) _ _ gives
          (find_block-IsStore laws crc32_calc env s w.store key);
    on_disk =
        OnDone-subst (λ r. OnDisk there r.1) _ _ gives
          (find_block-OnDisk bdb crc32_calc env there s w.on_disk key);
  }
  Step-IsSound {s} (synced env object disk gives) w = record {
    store = record { table = w.store.table; files = w.store.files; index = w.store.index };
    on_disk =
        OnDone-subst (λ r. AreOnDisk there s.sizes.block_type_count s.files r.1.disk) _ _ gives
          (sync_storage-OnDisk env there s w.on_disk object);
  }
  Step-IsSound {s} {s'} (restarted g' c a largest closes opens fits count same_index closed gives)
        w =
      same_IsSound bdb there there
        (reopened bdb s w.store there w.on_disk c closes a opens largest fits count same_index) s'
        (sym (
            open_storage-reopened bdb s w.store there w.on_disk c closes a opens largest fits count
              same_index)
          ∙ ap (λ h. open_storage a largest h)
              (ap (λ r. r.1)
                (sym (
                    close_storage-reopened bdb s w.store there w.on_disk c closes a opens largest
                      fits count same_index)
                  ∙ closed))
          ∙ gives)
        (record {
          store = same-IsStore bdb s _ w.store (
              reopened-SameStore bdb s w.store there w.on_disk c closes a opens largest fits count
                same_index);
          on_disk =
              reopened-OnDisk bdb s w.store there w.on_disk c closes a opens largest fits count
                same_index;
        })

  -- From the creation of the store in a directory without data files on, with an empty index and a largest
  -- size that `init_storage` accepts, under any updates, deletes, searches and syncs that return, and with
  -- the store closed and opened in between so that the index is the same and there are as many block types,
  -- where all that is asked to create, close and open it is done: the invariant of the store holds, and the
  -- data files have the free slots that the next start needs. An update or a delete may meet any answers,
  -- but that the free slots get written, and each data file can grow by one block; one that frees the
  -- pointer which a failed index lookup never set is no step.
  pub Reach-IsSound : {s : Storage Db} → Reach bdb crc32_calc there s → IsSound bdb there s
  Reach-IsSound {s} (created a largest before works fits empty not_yet none_there gives) =
      same_IsSound bdb (fresh_there bdb a works largest fits empty before not_yet none_there) there
        (fresh bdb a works largest fits empty before not_yet none_there) s
        (sym (open_storage-fresh bdb a works largest fits empty before not_yet none_there) ∙ gives)
        (record {
          store = fresh-IsStore bdb a works largest fits empty before not_yet none_there;
          on_disk = fresh-OnDisk bdb a works largest fits empty before not_yet none_there;
        })
  Reach-IsSound (next r step) = Step-IsSound step (Reach-IsSound r)
