-- ===== src/Storage/Lifecycle/Open.antt =====
-- src/storage.c: `load_data_file`, `create_data_file`, `open_data_files` and `open_storage`.
use linglongta.Prelude.{
  ℕ, zero, suc, ◌+◌, Bool, true, false, Option, none, some, ◌&&◌, leb, if◌then◌else◌, update, ℤ,
  pos, negsuc,
}
use linglongta.Storage.Sizes.{SizeTable, init_storage}
use linglongta.Storage.Types.{
  BlockFile, DataFile, Run, done, aborted, blocked, undefined, data_section_pos,
}
use linglongta.Storage.Blocks.{is_zero}
use linglongta.Storage.Lifecycle.{Globals, Bucket, no_bucket}
use linglongta.Storage.Lifecycle.Bdb.{IndexAnswers, open_index_file}

-- What the kernel answers for the data file of a block type: `access`, the descriptor of `open`, whether the
-- read of the header works and the write of it is whole, and what a read or a write leaves that is not.
pub record FileAnswers : Type 0 where
  pub accessible : ℕ → Bool
  pub fd : ℕ → ℤ
  pub header_read : ℕ → Bool
  pub part_read : ℕ → BlockFile → BlockFile
  pub header_written : ℕ → Bool
  pub part_written : ℕ → DataFile → DataFile

abbrev pub is_fd : ℤ → Bool
is_fd (pos n) = true
is_fd (negsuc n) = false

-- The header and the slots in the data file.
abbrev pub header_of : ℤ → DataFile → BlockFile
header_of fd f = record {
  fd = fd;
  block_size = f.block_size;
  block_cnt = f.block_cnt;
  free_slots_cnt = f.free_slots_cnt;
  free_slots_offset = f.free_slots_offset;
}

abbrev pub no_bytes : DataFile
no_bytes = record {
  block_size = 0;
  block_cnt = 0;
  free_slots_cnt = 0;
  free_slots_offset = λ _. 0;
  bytes = λ _. 0;
  size = 0;
}

-- The whole header and the slots go to the start of the file.
abbrev pub write_header : BlockFile → DataFile → DataFile
write_header fh f = record f {
  block_size = fh.block_size;
  block_cnt = fh.block_cnt;
  free_slots_cnt = fh.free_slots_cnt;
  free_slots_offset = fh.free_slots_offset;
  size = if leb data_section_pos f.size then f.size else data_section_pos;
}

module _ (a : FileAnswers) where
  -- `load_data_file`: a file without a whole header is an error.
  unfoldable pub load_data_file : (block_id : ℕ) → Globals → ℤ × Globals
  load_data_file block_id g =
      let fd = a.fd block_id in
      let fh = record (g.files block_id) { fd = fd } in
      if is_fd fd
      then if a.header_read block_id && leb data_section_pos (g.disk block_id).size
        then (pos 0, record g { files = update g.files block_id (header_of fd (g.disk block_id)) })
        else (
          negsuc 0,
          record g {
            files = update g.files block_id (record (a.part_read block_id fh) { fd = fd });
          },
        )
      else (negsuc 0, g)

  -- The block file that `create_data_file` writes.
  abbrev pub new_file : (block_id : ℕ) → Globals → BlockFile
  new_file block_id g = record (g.files block_id) {
    fd = a.fd block_id;
    block_size = g.sizes.block_size_array block_id;
    block_cnt = 0;
    free_slots_cnt = 0;
  }

  -- The bytes behind O_CREAT: those of a file that is there, or none.
  abbrev pub old_bytes : (block_id : ℕ) → Globals → DataFile
  old_bytes block_id g = if g.present block_id then g.disk block_id else no_bytes

  unfoldable pub create_data_file : (block_id : ℕ) → Globals → ℤ × Globals
  create_data_file block_id g =
      let fh = new_file block_id g in
      let opened = record g {
        files = update g.files block_id fh;
        present = update g.present block_id true;
      } in
      if is_fd (a.fd block_id)
      then if a.header_written block_id
        then (
          pos 0,
          record opened { disk = update g.disk block_id (write_header fh (old_bytes block_id g)) },
        )
        else (
          negsuc 0,
          record opened {
            disk = update g.disk block_id (a.part_written block_id (old_bytes block_id g));
          },
        )
      else (negsuc 0, g)

  abbrev pub open_data_file : (block_id : ℕ) → Globals → ℤ × Globals
  open_data_file block_id g =
      if g.present block_id && a.accessible block_id
      then load_data_file block_id g
      else create_data_file block_id g

  -- The loop of `open_data_files` at block type `i`, with `rest` of them left.
  unfoldable pub open_loop : (rest i : ℕ) → Globals → ℤ × Globals
  open_loop zero i g = (pos 0, g)
  open_loop (suc rest) i g =
      let (ret, g') = open_data_file i g in
      let next = open_loop rest (i + 1) g' in if is_zero ret then next else (negsuc 0, g')

  unfoldable pub open_data_files : Globals → ℤ × Globals
  open_data_files g = open_loop g.sizes.block_type_count 0 g

-- `stat` of the directory: it is there, it is not and `mkdir` gives a code, or the call fails otherwise.
pub data DirState : Type 0 where
  there : DirState
  missing : (mkdir_code : ℤ) → DirState
  failing : DirState

abbrev pub has_dir : DirState → Bool
has_dir there = true
has_dir (missing mkdir_code) = is_zero mkdir_code
has_dir failing = false

pub record OpenAnswers (Db : Type 0) : Type 0 where
  pub has_bucket : Bool
  pub dir : DirState
  pub files : FileAnswers
  pub index : IndexAnswers Db

-- `block_filehandler_array` after the `memset` of `init_storage`.
abbrev pub no_file : BlockFile
no_file = record {
  fd = pos 0;
  block_size = 0;
  block_cnt = 0;
  free_slots_cnt = 0;
  free_slots_offset = λ _. 0;
}

abbrev pub clear : SizeTable → Globals → Globals
clear t g = record g { inited_global_vars = true; sizes = t; files = λ _. no_file }

module _ {Db : Type 0} (a : OpenAnswers Db) where
  -- The data files, once the table is filled: the code of `open_storage` so far, and the globals.
  abbrev pub open_sized : ℤ × SizeTable → Globals → ℤ × Globals
  open_sized (ret, t) g =
      let cleared = clear t g in
      let (retno, g') = open_data_files a.files cleared in
      if is_zero ret then (if is_zero retno then pos 0 else negsuc 1, g') else (negsuc 0, cleared)

  -- A store that is there already has opened the data files.
  unfoldable pub open_globals : (largest_size : ℕ) → Globals → ℤ × Globals
  open_globals largest_size g =
      if g.inited_global_vars then (pos 0, g) else open_sized (init_storage largest_size) g

  -- The end of `open_storage`: the bucket is freed after an error.
  abbrev pub give_bucket : Globals → Run (ℤ × Bucket Db) → Run (ℤ × Globals × Option (Bucket Db))
  give_bucket g (done (ret, bsp)) =
      if is_zero ret then done (pos 0, g, some bsp) else done (negsuc 2, g, none)
  give_bucket g aborted = aborted
  give_bucket g blocked = blocked
  give_bucket g undefined = undefined

  abbrev pub with_globals : ℤ × Globals → Run (ℤ × Globals × Option (Bucket Db))
  with_globals (ret, g) =
      if is_zero ret then give_bucket g (open_index_file a.index no_bucket) else done (ret, g, none)

  unfoldable pub open_storage :
      (largest_size : ℕ) → Globals → Run (ℤ × Globals × Option (Bucket Db))
  open_storage largest_size g =
      if a.has_bucket
      then if has_dir a.dir
        then with_globals (open_globals largest_size g)
        else done (negsuc 4, g, none)
      else done (negsuc 3, g, none)
