-- ===== src/Storage/Lifecycle/Tests.antt =====
-- src/storage.c: a store created with blocks of 128, 256 and 512 bytes, closed and opened again.
use linglongta.Prelude.{ℕ, zero, suc, ◌<◌, ◌≡◌, refl, arith, true, false, none, some, [], pos, List}
use linglongta.Rwlock.{rwlock_build, wrlock, unwrlock}
use linglongta.Storage.Sizes.{
  init_storage, init_loop, actual_largest, int_covers, calc_loop, calc_block_size, find_loop,
  find_block_file,
}
use linglongta.Storage.Types.{Key, fix_key, Storage, done}
use linglongta.Storage.Slots.{slot_at}
use linglongta.Storage.Invariant.{IsStore}
use linglongta.Storage.Invariant.Calls.{AllRoom}
use linglongta.Storage.View.{Holds}
use linglongta.Storage.Files.{take_slot}
use linglongta.Storage.Blocks.{find_record, insert_record, store_block, append_at, append_block}
use linglongta.Storage.Ops.{update_found, update_locked, update_block}
use linglongta.Storage.Tests.Objects.{name, content}
use linglongta.Storage.Tests.{Table, index, index-laws, crc, working}
use linglongta.Storage.Lifecycle.{Globals, globals, bucket}
use linglongta.Storage.Lifecycle.Bdb.{open_transaction_bdb, open_index_file, close_bdb}
use linglongta.Storage.Lifecycle.Open.{
  FileAnswers, OpenAnswers, DirState, no_file, no_bytes, clear, open_data_files, open_loop,
  create_data_file, open_globals, open_storage,
}
use linglongta.Storage.Lifecycle.Close.{CloseAnswers, close_storage}
use linglongta.Storage.Lifecycle.Calls.{OpensIndex, CloseWorks, OpenWorks}
use linglongta.Storage.Lifecycle.Fresh.{CreateWorks}
use linglongta.Storage.Lifecycle.Reopen.{close_storage-open_storage}
use linglongta.Storage.Lifecycle.Trace.{Step, Reach, IsSound, Reach-IsSound}

abbrev file_answers : FileAnswers
file_answers = record {
  accessible = λ _. true;
  fd = λ b. pos 7;
  header_read = λ _. true;
  part_read = λ b fh. fh;
  header_written = λ _. true;
  part_written = λ b f. f;
}

abbrev answers : Table → OpenAnswers Table
answers table = record {
  has_bucket = true;
  dir = DirState.there;
  files = file_answers;
  index = record {
    bdb = record {
      can_calloc = true;
      db_env_create = pos 0;
      set_cache_max = pos 0;
      set_cachesize = pos 0;
      log_set_config = pos 0;
      set_lg_bsize = pos 0;
      env_open = pos 0;
      db_create = pos 0;
      set_pagesize = pos 0;
      db_open = pos 0;
      table = table;
    };
    has_lock = true;
    has_logger = true;
  };
}

abbrev closing : CloseAnswers
closing = record { env = working; db_close = pos 0; env_close = pos 0; logger_close = pos 0 }

answers-OpensIndex : (table : Table) → OpensIndex (answers table)
answers-OpensIndex table = record {
  has_bucket = refl;
  dir = refl;
  calloc = refl;
  bdb = refl;
  lock = refl;
  logger = refl;
}

answers-CreateWorks : (table : Table) → CreateWorks (answers table)
answers-CreateWorks table = record {
  index = answers-OpensIndex table;
  opens = λ b. refl;
  writes = λ b. refl;
}

answers-OpenWorks : (table : Table) → OpenWorks (answers table)
answers-OpenWorks table = record {
  index = answers-OpensIndex table;
  accessible = λ b. refl;
  opens = λ b. refl;
  read = λ b. refl;
}

closing-CloseWorks : CloseWorks closing
unfolding close_bdb
closing-CloseWorks = record { header = λ b. refl; bdb = refl; logger = refl }

-- the globals of a program that starts in a directory without data files
abbrev nothing : Globals
nothing = record {
  inited_global_vars = false;
  sizes = record { block_size_array = λ _. 0; block_type_count = 0 };
  files = λ _. no_file;
  present = λ _. false;
  disk = λ _. no_bytes;
}

abbrev no_records : Table
no_records = λ _. none

abbrev made : Globals
made = (open_data_files file_answers (clear (init_storage 512).1 nothing)).1

abbrev start : Storage Table
start = record {
  sizes = made.sizes;
  files = made.files;
  disk = made.disk;
  indexdb = record { dbp = no_records; error_no = pos 0 };
  journal = [];
  index_lock = rwlock_build;
}

starts :
    open_storage (answers no_records) 512 nothing
    ≡ done (pos 0, globals true made.present start, some (bucket start))
unfolding open_storage open_globals open_data_files open_loop create_data_file init_storage
    init_loop actual_largest open_index_file open_transaction_bdb
starts = refl

fits : (init_storage 512).0 ≡ pos 0
unfolding init_storage init_loop actual_largest
fits = refl

start-Reach : Reach index crc made.present start
start-Reach =
    Reach.created (answers no_records) 512 nothing (answers-CreateWorks no_records) fits (λ k. refl)
      refl (λ b. refl) starts

start-IsSound : IsSound index made.present start
start-IsSound = Reach-IsSound index-laws crc start-Reach

three_files : made.sizes.block_type_count ≡ 3
unfolding open_data_files open_loop create_data_file init_storage init_loop actual_largest
three_files = refl

start-AllRoom : AllRoom start
unfolding open_data_files open_loop create_data_file init_storage init_loop actual_largest slot_at
start-AllRoom zero h = omega arith
start-AllRoom (suc zero) h = omega arith
start-AllRoom (suc (suc zero)) h = omega arith
start-AllRoom (suc (suc (suc b))) h = absurd (omega arith)

first_size : 3 < made.sizes.block_size_array 0
unfolding open_data_files open_loop create_data_file init_storage init_loop actual_largest
first_size = omega arith

-- the store after an update of one key
abbrev one_stored : Storage Table
one_stored =
    (append_at index crc working 0 (fix_key name) content (take_slot (start.files 0)) start).1

stores : update_block index crc working name content start ≡ done (pos 0, one_stored)
unfolding update_block update_locked update_found find_record append_block open_data_files open_loop
    create_data_file init_storage init_loop actual_largest wrlock unwrlock calc_block_size calc_loop
    int_covers find_block_file find_loop append_at store_block insert_record
stores = refl

one_stored-Reach : Reach index crc made.present one_stored
one_stored-Reach =
    Reach.next start-Reach (Step.updated working name content (λ b i. refl) start-AllRoom stores)

one_stored-IsSound : IsSound index made.present one_stored
one_stored-IsSound = Reach-IsSound index-laws crc one_stored-Reach

same_count : (init_storage 512).1.block_type_count ≡ one_stored.sizes.block_type_count
unfolding append_at store_block open_data_files open_loop create_data_file init_storage init_loop
    actual_largest
same_count = refl

abbrev Restarted : Type 0
Restarted =
    (g' : Globals) × (close_storage closing (bucket one_stored)
        (globals true made.present one_stored)
      ≡ (pos 0, g', none))
    × (s' : Storage Table) × (open_storage (answers one_stored.indexdb.dbp) 512 g'
        ≡ done (pos 0, globals true made.present s', some (bucket s')))
    × IsStore index s'
    × (s'.index_lock ≡ rwlock_build)
    × ((k : Key) (content : List ℕ) → Holds index one_stored k content → Holds index s' k content)

again : Restarted
again =
    close_storage-open_storage index one_stored one_stored-IsSound.store made.present
      one_stored-IsSound.on_disk closing closing-CloseWorks (answers one_stored.indexdb.dbp)
      (answers-OpenWorks one_stored.indexdb.dbp) 512 fits same_count (λ k. refl)

close_storage-open_storage_example : Restarted
close_storage-open_storage_example =
    close_storage-open_storage index one_stored one_stored-IsSound.store made.present
      one_stored-IsSound.on_disk closing closing-CloseWorks (answers one_stored.indexdb.dbp)
      (answers-OpenWorks one_stored.indexdb.dbp) 512 fits same_count (λ k. refl)

again-Reach : Reach index crc made.present again.2
again-Reach = Reach.next one_stored-Reach (
    Step.restarted again.0 closing (answers one_stored.indexdb.dbp) 512 closing-CloseWorks
      (answers-OpenWorks one_stored.indexdb.dbp) fits same_count (λ k. refl) again.1 again.3)

Reach-IsSound_example : IsSound index made.present again.2
Reach-IsSound_example = Reach-IsSound index-laws crc again-Reach
