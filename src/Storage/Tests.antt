-- ===== src/Storage/Tests.antt =====
-- Test data: an index as a function, an environment, and a store with three block files.
pub mod Objects
pub mod Examples
use linglongta.Prelude.{
  ℕ, ◌+◌, ◌<◌, ◌≡◌, ◌≢◌, refl, sym, ap, ◌∙◌, arith, true, Option, none, some, List, [], ◌∷◌, ℤ, pos,
  negsuc, ◌==◌,
}
use linglongta.Rwlock.{rwlock_build}
use linglongta.Storage.Sizes.{SizeTable}
use linglongta.Storage.Sizes.Powers.{nth_size, nth_size_pos}
use linglongta.Storage.Types.{
  BlockFile, DataFile, Key, IndexValue, Lookup, hit, miss, BdbOps, BdbLaws, BdbHandle, Storage, Env,
}
use linglongta.Storage.Slots.{slot_at, IsBlockFile}
use linglongta.Storage.Invariant.{AreFiles, IsStore}
use linglongta.Storage.Invariant.Index.{Key-discrete}
use linglongta.Storage.Stored.{Works}

abbrev pub Table : Type 0
Table = Key → Option IndexValue

abbrev pub as_lookup : Option IndexValue → Lookup
as_lookup none = miss
as_lookup (some v) = hit v

abbrev pub choose : {P : Type 0} → Dec P → Option IndexValue → Option IndexValue → Option IndexValue
choose (yes _) v w = v
choose (no _) v w = w

abbrev pub set : Key → Option IndexValue → Table → Table
set k v d j = choose (Key-discrete k j) v (d j)

abbrev pub del_code : Option IndexValue → ℤ
del_code none = negsuc 30987
del_code (some v) = pos 0

abbrev pub index : BdbOps Table
index = record {
  get = λ d k. as_lookup (d k);
  put = λ d k v. (pos 0, set k (some v) d);
  del = λ d k. (del_code (d k), set k none d);
  db_notfound = negsuc 30987;
}

choose_yes : {P : Type 0} (x : Dec P) (v w : Option IndexValue) → P → choose x v w ≡ v
choose_yes (yes _) v w p = refl
choose_yes (no np) v w p = absurd (np p)

choose_no : {P : Type 0} (x : Dec P) (v w : Option IndexValue) → ¬ P → choose x v w ≡ w
choose_no (yes p) v w np = absurd (np p)
choose_no (no _) v w np = refl

del_fails : (o : Option IndexValue) → del_code o ≢ pos 0 → as_lookup o ≡ miss
del_fails none h = refl
del_fails (some v) h = absurd (h refl)

pub as_lookup-ne-failed : (o : Option IndexValue) (c : ℤ) → as_lookup o ≢ Lookup.failed c
as_lookup-ne-failed none c e = cc
as_lookup-ne-failed (some v) c e = cc

set_missing :
    (d : Table) (k j : Key) (x : Dec (k ≡ j))
    → as_lookup (d k) ≡ miss
    → as_lookup (choose x none (d j)) ≡ as_lookup (d j)
set_missing d k j (yes same) e = sym e ∙ ap (λ i. as_lookup (d i)) same
set_missing d k j (no _) e = refl

pub index-laws : BdbLaws index
index-laws = record {
  get-put_self = λ d k v h. ap as_lookup (choose_yes (Key-discrete k k) _ _ refl);
  get-put_ne = λ d k j v ne. ap as_lookup (choose_no (Key-discrete k j) _ _ ne);
  get-put_fail = λ d k j v h. absurd (h refl);
  get-del_self = λ d k h. ap as_lookup (choose_yes (Key-discrete k k) _ _ refl);
  get-del_ne = λ d k j ne. ap as_lookup (choose_no (Key-discrete k j) _ _ ne);
  get-del_fail = λ d k j h. set_missing d k j (Key-discrete k j) (del_fails (d k) h);
  notfound_ne = (cc, cc);
  failed_ne = λ d k c h. absurd (as_lookup-ne-failed (d k) c h);
}

abbrev pub crc : List ℕ → ℕ
crc _ = 7

-- all that is asked is done; and the same with no memory but for the 24 bytes of an index value
abbrev pub working : Env
working = record {
  can_alloc = λ _. true;
  header_written = λ _. true;
  slot_written = λ _ _. true;
  data_written = λ _ _ n. n;
}

abbrev pub no_memory : Env
no_memory = record working { can_alloc = λ n. n == 24 }

hit_deletes : (o : Option IndexValue) (v : IndexValue) → as_lookup o ≡ hit v → del_code o ≡ pos 0
hit_deletes none v e = cc
hit_deletes (some w) v e = refl

pub working-Works : Works index working
working-Works = record {
  allocates = λ n. refl;
  writes = λ b o n. refl;
  puts = λ d k v. refl;
  deletes = λ d k v h. hit_deletes (d k) v h;
}

-- Block files of 128, 256 and 512 bytes, with no blocks, and an empty index.
abbrev pub sizes : SizeTable
sizes = record { block_size_array = nth_size; block_type_count = 3 }

abbrev pub no_blocks : ℕ → BlockFile
no_blocks b = record {
  fd = pos 5;
  block_size = nth_size b;
  block_cnt = 0;
  free_slots_cnt = 0;
  free_slots_offset = λ _. 0;
}

abbrev pub empty_store : Storage Table
empty_store = record {
  sizes = sizes;
  files = no_blocks;
  disk = λ b. record {
    block_size = nth_size b;
    block_cnt = 0;
    free_slots_cnt = 0;
    free_slots_offset = λ _. 0;
    bytes = λ _. 0;
    size = 0;
  };
  indexdb = record { dbp = λ _. none; error_no = pos 0 };
  journal = [];
  index_lock = rwlock_build;
}

pub no_blocks-IsBlockFile : (b : ℕ) → b < 3 → IsBlockFile (no_blocks b)
unfolding slot_at nth_size
no_blocks-IsBlockFile b h = record {
  sized = nth_size_pos b;
  room = omega arith;
  few = omega arith;
  free_at = λ i k. absurd (omega arith);
  free_apart = λ i j k l p. absurd (omega arith);
}

pub empty_store-IsStore : IsStore index empty_store
empty_store-IsStore = record {
  table = record { count_le = omega arith; entry = λ i h. refl };
  files = record { sound = no_blocks-IsBlockFile; sized = λ b h. refl; opened = λ b h. refl };
  index = record { entry = λ k iv e. cc; apart = λ k j iv jv e f ne. cc };
}
