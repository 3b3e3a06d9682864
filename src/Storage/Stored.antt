-- ===== src/Storage/Stored.antt =====
-- src/storage.c: the operations on one block store the data that they are given, where the kernel and
-- the index do what is asked.
use linglongta.Prelude.{
  ℕ, ◌≤◌, ◌<◌, ◌≡◌, refl, ap, ◌∙◌, arith, true, List, length, replicate, take-append,
  length-take-replicate, pos, update, update_self,
}
use linglongta.Storage.Types.{
  BlockFile, DataFile, Key, key_len, fix_key, IndexValue, hit, BdbOps, BdbLaws, Storage, Env,
  as_u32, done,
}
use linglongta.Storage.Files.{pread, sync_data, sync_data_file_header, take_slot}
use linglongta.Storage.Reads.{pread-sync_data}
use linglongta.Storage.Blocks.{
  insert_record, store_block, new_value, append_at, append_block, modified, modify_at, modify_block,
}
use linglongta.Storage.Invariant.{IsStore}
use linglongta.Storage.Invariant.Steps.{as_u32_small}
use linglongta.Storage.View.{Holds}

-- The allocator and the kernel do all that they are asked, and `put` and `del` succeed.
pub record Works {Db : Type 0} (bdb : BdbOps Db) (env : Env) : Type 0 where
  pub allocates : (n : ℕ) → env.can_alloc n ≡ true
  pub writes : (b o n : ℕ) → env.data_written b o n ≡ n
  pub puts : (d : Db) (k : Key) (v : IndexValue) → (bdb.put d k v).0 ≡ pos 0
  pub deletes : (d : Db) (k : Key) (v : IndexValue) → bdb.get d k ≡ hit v → (bdb.del d k).0 ≡ pos 0

pub fix_key-fix_key : (key : List ℕ) → fix_key (fix_key key) ≡ fix_key key
unfolding fix_key
fix_key-fix_key key =
    take-append key_len (fix_key key) (replicate key_len 0)
      (length-take-replicate key_len key_len key 0 (omega arith))

module _ {Db : Type 0} {bdb : BdbOps Db} (laws : BdbLaws bdb) (crc32_calc : List ℕ → ℕ) (env : Env)
    (works : Works bdb env) (s : Storage Db) (w : IsStore bdb s) where
  pub append_at-Holds_self :
      (b : ℕ) (key : Key) (content : List ℕ) (offset : ℕ) (fh : BlockFile)
      → b < s.sizes.block_type_count
      → Holds bdb
          (append_at bdb crc32_calc env b key content (offset, fh) s).1
          (fix_key key)
          content
  unfolding append_at store_block insert_record new_value
  append_at-Holds_self b key content offset fh lt = record {
    iv = record {
      crc32 = crc32_calc content;
      block_id = as_u32 b;
      data_size = length content;
      offset = offset;
    };
    entry = laws.get-put_self _ _ _ (works.puts _ _ _);
    reads =
        ap (λ c. pread (update s.disk b g c) offset (length content))
          (as_u32_small b (omega (arith, w.table.count_le)))
        ∙ ap (λ f. pread f offset (length content)) (update_self s.disk b g)
        ∙ pread-sync_data env b offset content _ (works.writes b offset (length content));
    whole = refl;
  }
    where
      g : DataFile
      g = (sync_data env b offset content (sync_data_file_header env b fh (s.disk b))).1

  pub append_block-eq-done :
      (b : ℕ) (key : Key) (content : List ℕ)
      → b < s.sizes.block_type_count
      → length content ≤ s.sizes.block_size_array b
      → append_block bdb crc32_calc env b key content s
        ≡ done (append_at bdb crc32_calc env b key content (take_slot (s.files b)) s)
  unfolding append_block
  append_block-eq-done b key content lt fits = ground (arith, w.files.opened b lt)

  pub modify_at-Holds_self :
      (iv : IndexValue) (key : Key) (content : List ℕ)
      → Holds bdb
          (modify_at bdb crc32_calc env iv key content
            (sync_data env iv.block_id iv.offset content (s.disk iv.block_id)).1
            s).1
          key
          content
  unfolding modify_at modified insert_record
  modify_at-Holds_self iv key content = record {
    iv = record iv { crc32 = crc32_calc content; data_size = length content };
    entry = laws.get-put_self _ _ _ (works.puts _ _ _);
    reads =
        ap (λ f. pread f iv.offset (length content)) (update_self s.disk iv.block_id _)
        ∙ pread-sync_data env iv.block_id iv.offset content _
            (works.writes iv.block_id iv.offset (length content));
    whole = refl;
  }

  pub modify_block-eq-done :
      (iv : IndexValue) (key : Key) (content : List ℕ)
      → iv.block_id < s.sizes.block_type_count
      → length content ≤ s.sizes.block_size_array iv.block_id
      → modify_block bdb crc32_calc env iv key content s
        ≡ done (
            modify_at bdb crc32_calc env iv key content
              (sync_data env iv.block_id iv.offset content (s.disk iv.block_id)).1
              s)
  unfolding modify_block sync_data
  modify_block-eq-done iv key content lt fits =
      ground
        (arith, w.files.opened iv.block_id lt, works.writes iv.block_id iv.offset (length content))
