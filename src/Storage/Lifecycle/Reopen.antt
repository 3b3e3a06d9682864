-- ===== src/Storage/Lifecycle/Reopen.antt =====
-- src/storage.c: `close_storage` and then `open_storage`.
use linglongta.Prelude.{
  ℕ, ◌<◌, ◌≡◌, refl, sym, ap, ◌∙◌, arith, subst, Bool, true, false, none, some, List, [], ℤ, pos,
}
use linglongta.Rwlock.{rwlock_build}
use linglongta.Storage.Sizes.{init_storage}
use linglongta.Storage.Sizes.Table.{init_storage-Covers}
use linglongta.Storage.Types.{BlockFile, DataFile, Key, BdbOps, Storage, done}
use linglongta.Storage.Files.{fd_open, pread}
use linglongta.Storage.Reads.{pread-sync_data_file_header}
use linglongta.Storage.Invariant.{IsStore}
use linglongta.Storage.View.{Holds}
use linglongta.Storage.Lifecycle.{Globals, Bucket, globals, bucket}
use linglongta.Storage.Lifecycle.Open.{
  OpenAnswers, open_loop, header_of, clear, open_data_files, open_storage,
}
use linglongta.Storage.Lifecycle.Close.{CloseAnswers, close_storage}
use linglongta.Storage.Lifecycle.Loaded.{CanLoad, Loaded, open_loop-Loaded}
use linglongta.Storage.Lifecycle.Closed.{Closed, close_loop-Closed}
use linglongta.Storage.Lifecycle.Calls.{
  CloseWorks, OpenWorks, opened_bucket, open_storage-done, header_written-eq, closing,
  closed_globals, close_storage-done, closed_disk, closed_present,
}
use linglongta.Storage.Lifecycle.OnDisk.{HasSlots, OnDisk}
use linglongta.Storage.Lifecycle.Kept.{SameSlots, SameStore, same-IsStore, same-Holds}

module _ {Db : Type 0} (bdb : BdbOps Db) (s : Storage Db) (w : IsStore bdb s) (there : ℕ → Bool)
    (on_disk : OnDisk there s) (c : CloseAnswers) (closes : CloseWorks c) (a : OpenAnswers Db)
    (opens : OpenWorks a) (largest : ℕ) (fits : (init_storage largest).0 ≡ pos 0)
    (count : (init_storage largest).1.block_type_count ≡ s.sizes.block_type_count)
    (same_index : (k : Key) → bdb.get a.index.bdb.table k ≡ bdb.get s.indexdb.dbp k) where
  pub g : Globals
  g = closed_globals s there c closes

  closed : Closed c.env s.sizes.block_type_count 0 (globals true there s) (closing s there c closes)
  unfolding closing
  closed =
      close_loop-Closed c.env s.sizes.block_type_count 0 (globals true there s)
        (λ j h k. w.files.opened j (omega arith))

  g_disk :
      (b : ℕ)
      → b < s.sizes.block_type_count
      → g.disk b ≡ record (s.disk b) {
        block_size = (s.files b).block_size;
        block_cnt = (s.files b).block_cnt;
        free_slots_cnt = (s.files b).free_slots_cnt;
      }
  unfolding g
  g_disk b h =
      closed_disk s there c closes closed b h
      ∙ header_written-eq c.env b (s.files b) (s.disk b) (closes.header b)

  cleared : Globals
  cleared = clear (init_storage largest).1 g

  can_load : (b : ℕ) → b < s.sizes.block_type_count → CanLoad a.files cleared b
  unfolding cleared g
  can_load b h = record {
    present = ap (λ f. f b) (closed_present s there c closes closed) ∙ on_disk.present b h;
    accessible = opens.accessible b;
    opens = opens.opens b;
    read = opens.read b;
    long = omega (arith, (on_disk.file b h).long, ap (λ (f : DataFile). f.size) (g_disk b h));
  }

  opened : ℤ × Globals
  opened = open_data_files a.files cleared

  loads : Loaded a.files s.sizes.block_type_count 0 cleared opened
  unfolding opened open_data_files cleared
  loads =
      subst (λ n. Loaded a.files s.sizes.block_type_count 0 cleared (open_loop a.files n 0 cleared))
        (sym count)
        (open_loop-Loaded a.files s.sizes.block_type_count 0 cleared
          (λ j h k. can_load j (omega arith)))

  pub reopened : Storage Db
  reopened = record {
    sizes = (init_storage largest).1;
    files = opened.1.files;
    disk = g.disk;
    indexdb = record { dbp = a.index.bdb.table; error_no = pos 0 };
    journal = [];
    index_lock = rwlock_build;
  }

  reopened_file :
      (b : ℕ)
      → b < s.sizes.block_type_count
      → opened.1.files b
        ≡ record (s.files b) { fd = a.files.fd b; free_slots_offset = (s.disk b).free_slots_offset }
  unfolding cleared
  reopened_file b h =
      loads.read b (omega arith) (omega arith) ∙ ap (header_of (a.files.fd b)) (g_disk b h)

  reopened-SameSlots :
      (b : ℕ) → b < s.sizes.block_type_count → SameSlots (s.files b) (opened.1.files b)
  reopened-SameSlots b h = subst (SameSlots (s.files b)) (sym (reopened_file b h)) (record {
    block_size = refl;
    block_cnt = refl;
    free_slots_cnt = refl;
    slots = (on_disk.file b h).slots;
  })

  pub reopened-SameStore : SameStore bdb s reopened
  unfolding reopened g
  reopened-SameStore = record {
    table = (init_storage-Covers largest).table;
    count = count;
    opened = λ b h. ap (λ (f : BlockFile). fd_open f.fd) (reopened_file b h) ∙ opens.opens b;
    slots = reopened-SameSlots;
    reads = λ b h o n.
        ap (λ f. pread f o n) (closed_disk s there c closes closed b h)
        ∙ pread-sync_data_file_header c.env b (s.files b) (s.disk b) o n;
    index = same_index;
  }

  pub reopened-OnDisk : OnDisk there reopened
  unfolding reopened
  reopened-OnDisk = record {
    present = λ b h. on_disk.present b (omega (arith, count));
    file = λ b h.
        subst (λ f. HasSlots f (g.disk b)) (sym (reopened_file b (omega (arith, count))))
          (subst (HasSlots _) (sym (g_disk b (omega (arith, count))))
            (record { long = (on_disk.file b (omega (arith, count))).long; slots = λ i k. refl }));
  }

  not_inited : g.inited_global_vars ≡ false
  unfolding g closed_globals
  not_inited = refl

  opened_globals : opened.1 ≡ globals true there reopened
  unfolding reopened cleared g
  opened_globals =
      loads.rest_same
      ∙ ap (λ (p : ℕ → Bool). record cleared { files = opened.1.files; present = p })
          (closed_present s there c closes closed)

  opened_bucket-eq : opened_bucket a opens.index ≡ bucket reopened
  unfolding opened_bucket reopened
  opened_bucket-eq = refl

  pub open_storage-reopened :
      open_storage a largest g ≡ done (pos 0, globals true there reopened, some (bucket reopened))
  unfolding opened cleared
  open_storage-reopened =
      open_storage-done a opens.index largest g not_inited fits loads.ret
      ∙ ap (λ (r : Globals). done (pos 0, r, some (opened_bucket a opens.index))) opened_globals
      ∙ ap (λ (r : Bucket Db). done (pos 0, globals true there reopened, some r)) opened_bucket-eq

  pub close_storage-reopened : close_storage c (bucket s) (globals true there s) ≡ (pos 0, g, none)
  unfolding g
  close_storage-reopened = close_storage-done s there c closes closed

  -- In a sound store whose data files are there, each with room for a header and with the free slots that its
  -- block file has, closed and opened with a largest size that gives as many block types as before, where the
  -- allocator, the kernel and Berkeley DB do all that they are asked and the index is as it was: both
  -- `close_storage` and `open_storage` return 0, the bucket is freed by the first, and the second gives a sound
  -- store with a free index lock that holds under every key the data that was held there.
  pub close_storage-open_storage :
      (g' : Globals) × (close_storage c (bucket s) (globals true there s) ≡ (pos 0, g', none))
      × (s' : Storage Db) × (open_storage a largest g'
          ≡ done (pos 0, globals true there s', some (bucket s')))
      × IsStore bdb s'
      × (s'.index_lock ≡ rwlock_build)
      × ((k : Key) (content : List ℕ) → Holds bdb s k content → Holds bdb s' k content)
  unfolding reopened g
  close_storage-open_storage = (
    g,
    close_storage-reopened,
    reopened,
    open_storage-reopened,
    same-IsStore bdb s reopened w reopened-SameStore,
    refl,
    same-Holds bdb s reopened w reopened-SameStore,
  )
