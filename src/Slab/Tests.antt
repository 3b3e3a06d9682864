-- ===== src/Slab/Tests.antt =====
-- The allocator at concrete sizes, and the theorems on it there.
use linglongta.Prelude.{
  ℕ, ◌+◌, ◌*◌, ◌/◌, ◌≤◌, ◌<◌, ◌≡◌, ◌⊎◌, refl, arith, true, false, none, some, [], ◌∷◌, dec_lt,
}
use linglongta.Slab.Classes.{
  sizes_loop, init_sizes, ⊏_wf, search_loop, slab_clsid, slab_clsid_by_scan,
}
use linglongta.Slab.Scan.{slab_clsid-slab_clsid_by_scan}
use linglongta.Slab.Table.{IsTable, init_sizes-IsTable}
use linglongta.Slab.Alloc.{
  Slab, Memory, slab_init, slab_alloc, alloc_class, do_slabs_newslab, grow_slab_list, over_limit,
  take_chunk,
}
use linglongta.Slab.Apart.{Block, Pairwise}
use linglongta.Slab.Owns.{owned}
use linglongta.Slab.Grow.{IsFresh}
use linglongta.Slab.Calls.{reserved}
use linglongta.Slab.Steps.{Step, Reach}
use linglongta.Slab.Trace.{Reach-Pairwise, slab_alloc-Reach}

-- the growth by the factor 1.125 that the program sets
abbrev grow : ℕ → ℕ
grow n = n * 9 / 8

abbrev unset : Slab
unset = record {
  sizes = record { size = λ _. 0; power_largest = 0 };
  classes = λ _. record {
    perslab = 0;
    slots = [];
    sl_total = 0;
    end_page_ptr = 0;
    end_page_free = 0;
    slabs = 0;
    slab_list = λ _. 0;
    list_size = 0;
  };
  mem_limit = 0;
  mem_malloced = 0;
  heads = λ _. record { is_malloc = false; size = 0 };
}

grows : (n : ℕ) → 16 ≤ n → n < grow n
grows n h = omega arith

slab_clsid-slab_clsid_by_scan_example :
    slab_clsid (init_sizes grow) 100 ≡ slab_clsid_by_scan (init_sizes grow) 100
slab_clsid-slab_clsid_by_scan_example =
    slab_clsid-slab_clsid_by_scan (init_sizes grow) (init_sizes-IsTable grow grows).sorted 100

init_sizes-IsTable_example : IsTable (init_sizes grow)
init_sizes-IsTable_example = init_sizes-IsTable grow grows

abbrev memory : Memory
memory = record { can_realloc = λ n. true; valloc = λ n. 16777216; malloc = λ n. 33554432 }

abbrev start : Slab
start = slab_init grow 0 unset

-- the state after one allocation of 100 bytes
abbrev one_used : Slab
one_used = (slab_alloc memory 100 start).1

abbrev used : Block
used = record { at = 16777216; size = 120 }

all-IsFresh : IsFresh memory start []
unfolding slab_init init_sizes sizes_loop
all-IsFresh = record { page = λ _. tt; large = λ n _. tt }

gives_used : slab_alloc memory 100 start ≡ (some (used.at + 8), one_used)
unfolding slab_init init_sizes sizes_loop slab_alloc slab_clsid search_loop ⊏_wf dec_lt alloc_class
    do_slabs_newslab grow_slab_list over_limit take_chunk
gives_used = refl

size_used : used.size ≡ reserved start.sizes 108
unfolding slab_init init_sizes sizes_loop slab_clsid search_loop ⊏_wf dec_lt
size_used = refl

one_used-Reach : Reach start one_used (used ∷ [])
one_used-Reach =
    Reach.next Reach.here
      (Step.allocated memory 100 used all-IsFresh (omega arith) gives_used size_used)

Reach-Pairwise_example : Pairwise (owned one_used (used ∷ []))
Reach-Pairwise_example = Reach-Pairwise grow grows 0 unset one_used-Reach

slab_alloc-Reach_example :
    ((slab_alloc memory 200 start).0 ≡ none)
    ⊎ ((b : Block) × ((slab_alloc memory 200 start).0 ≡ some (b.at + 8))
        × (208 ≤ b.size)
        × Pairwise (b ∷ []))
slab_alloc-Reach_example =
    slab_alloc-Reach grow grows 0 unset memory 200 Reach.here all-IsFresh (omega arith)
