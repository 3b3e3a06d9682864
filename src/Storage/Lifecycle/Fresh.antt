-- ===== src/Storage/Lifecycle/Fresh.antt =====
-- src/storage.c: the store that `open_storage` makes in a directory without data files.
use linglongta.Prelude.{
  ℕ, ◌≤◌, ◌<◌, ◌≡◌, refl, sym, ap, ◌∙◌, arith, Bool, true, false, [], some, ℤ, pos, subst,
}
use linglongta.Rwlock.{rwlock_build}
use linglongta.Storage.Sizes.{SizeTable, init_storage}
use linglongta.Storage.Sizes.Powers.{nth_size_pos}
use linglongta.Storage.Sizes.Table.{init_storage-Covers}
use linglongta.Storage.Types.{BlockFile, Key, IndexValue, hit, miss, BdbOps, Storage, done}
use linglongta.Storage.Files.{fd_open}
use linglongta.Storage.Slots.{slot_at, IsBlockFile}
use linglongta.Storage.Invariant.{IsStore}
use linglongta.Storage.Lifecycle.{Globals, Bucket, globals, bucket}
use linglongta.Storage.Lifecycle.Open.{
  FileAnswers, OpenAnswers, clear, open_data_files, open_storage,
}
use linglongta.Storage.Lifecycle.Loaded.{fd_open-is_fd}
use linglongta.Storage.Lifecycle.Calls.{OpensIndex, opened_bucket, open_storage-done}
use linglongta.Storage.Lifecycle.Created.{Created, fresh_file, open_loop-Created}
use linglongta.Storage.Lifecycle.OnDisk.{HasSlots, OnDisk}

fresh_file-IsBlockFile :
    (a : FileAnswers) (t : SizeTable) (b : ℕ)
    → 128 ≤ t.block_size_array b
    → IsBlockFile (fresh_file a t b)
unfolding slot_at
fresh_file-IsBlockFile a t b big = record {
  sized = big;
  room = ground arith;
  few = omega arith;
  free_at = λ i h. absurd (omega arith);
  free_apart = λ i j h k e. absurd (omega arith);
}

-- All that is asked while a store is created is done.
pub record CreateWorks {Db : Type 0} (a : OpenAnswers Db) : Type 0 where
  pub index : OpensIndex a
  pub opens : (b : ℕ) → fd_open (a.files.fd b) ≡ true
  pub writes : (b : ℕ) → a.files.header_written b ≡ true

module _ {Db : Type 0} (bdb : BdbOps Db) (a : OpenAnswers Db) (works : CreateWorks a) (largest : ℕ)
    (fits : (init_storage largest).0 ≡ pos 0)
    (empty : (k : Key) → bdb.get a.index.bdb.table k ≡ miss) (before : Globals)
    (not_yet : before.inited_global_vars ≡ false)
    (none_there : (b : ℕ) → before.present b ≡ false) where
  t : SizeTable
  t = (init_storage largest).1

  opened : ℤ × Globals
  opened = open_data_files a.files (clear t before)

  made : Created a.files t.block_type_count 0 (clear t before) opened
  unfolding opened open_data_files t
  made = open_loop-Created a.files t.block_type_count 0 (clear t before) (λ j h k. record {
    absent = none_there j;
    unused = refl;
    opens = fd_open-is_fd (a.files.fd j) (works.opens j);
    writes = works.writes j;
  })

  pub fresh : Storage Db
  fresh = record {
    sizes = (init_storage largest).1;
    files = opened.1.files;
    disk = opened.1.disk;
    indexdb = record { dbp = a.index.bdb.table; error_no = pos 0 };
    journal = [];
    index_lock = rwlock_build;
  }

  pub fresh_there : ℕ → Bool
  fresh_there = opened.1.present

  opened_globals : opened.1 ≡ globals true fresh_there fresh
  unfolding fresh fresh_there t
  opened_globals = made.rest_same

  opened_bucket-eq : opened_bucket a works.index ≡ bucket fresh
  unfolding opened_bucket fresh
  opened_bucket-eq = refl

  pub open_storage-fresh :
      open_storage a largest before
      ≡ done (pos 0, globals true fresh_there fresh, some (bucket fresh))
  unfolding opened t
  open_storage-fresh =
      open_storage-done a works.index largest before not_yet fits made.ret
      ∙ ap (λ (r : Globals). done (pos 0, r, some (opened_bucket a works.index))) opened_globals
      ∙ ap (λ (r : Bucket Db). done (pos 0, globals true fresh_there fresh, some r))
          opened_bucket-eq

  fresh_size : (b : ℕ) → b < t.block_type_count → 128 ≤ t.block_size_array b
  unfolding t
  fresh_size b h = omega (arith, (init_storage-Covers largest).table.entry b h, nth_size_pos b)

  fresh_file-eq : (b : ℕ) → b < t.block_type_count → opened.1.files b ≡ fresh_file a.files t b
  fresh_file-eq b h = made.file b (omega arith) (omega arith)

  pub fresh-IsStore : IsStore bdb fresh
  unfolding fresh t
  fresh-IsStore = record {
    table = (init_storage-Covers largest).table;
    files = record {
      sound = λ b h.
          subst IsBlockFile (sym (fresh_file-eq b h))
            (fresh_file-IsBlockFile a.files (init_storage largest).1 b (fresh_size b h));
      sized = λ b h. ap (λ (f : BlockFile). f.block_size) (fresh_file-eq b h);
      opened = λ b h. ap (λ (f : BlockFile). fd_open f.fd) (fresh_file-eq b h) ∙ works.opens b;
    };
    index = record {
      entry = λ k iv e. absurd (no_hit iv (sym (empty k) ∙ e));
      apart = λ k j iv jv e h ne. absurd (no_hit iv (sym (empty k) ∙ e));
    };
  }
    where
      no_hit : (iv : IndexValue) → ¬ (miss ≡ hit iv)
      no_hit iv e = cc

  pub fresh-OnDisk : OnDisk fresh_there fresh
  unfolding fresh fresh_there t
  fresh-OnDisk = record {
    present = λ b h. made.there b (omega arith) (omega arith);
    file = λ b h.
        subst (λ f. HasSlots f (opened.1.disk b)) (sym (fresh_file-eq b h))
          (subst (HasSlots _) (sym (made.disk b (omega arith) (omega arith)))
            (record { long = omega arith; slots = λ i k. refl }));
  }
