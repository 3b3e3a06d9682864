-- ===== src/Slab/Alloc.antt =====
-- src/slab.c: `slab_init`, `_slab_alloc` and what they call, in a build without NEED_DEBUG. The spin
-- lock of a class is held around all that touches it, and is left out. Addresses do not wrap around.
use linglongta.Prelude.{
  ℕ, zero, suc, ◌+◌, ◌-◌, ◌*◌, ◌/◌, ◌%◌, ◌^◌, Bool, true, false, ◌&&◌, ◌||◌, Option, none, some,
  List, [], ◌∷◌, length, ltb, ◌==◌, if◌then◌else◌, update,
}
use linglongta.Slab.Classes.{ClassSizes, init_sizes, power_block, slab_clsid}

-- slabclass_t without its size: `slots` has the free chunks up to `sl_curr`, the last one first.
pub record SlabClass : Type 0 where
  pub perslab : ℕ
  pub slots : List ℕ
  pub sl_total : ℕ
  pub end_page_ptr : ℕ
  pub end_page_free : ℕ
  pub slabs : ℕ
  pub slab_list : ℕ → ℕ
  pub list_size : ℕ

-- slabhead_t
pub record SlabHead : Type 0 where
  pub is_malloc : Bool
  pub size : ℕ

-- The static variables, and the heads in memory by their address.
pub record Slab : Type 0 where
  pub sizes : ClassSizes
  pub classes : ℕ → SlabClass
  pub mem_limit : ℕ
  pub mem_malloced : ℕ
  pub heads : ℕ → SlabHead

abbrev pub empty_class : (size : ℕ) → SlabClass
empty_class size = record {
  perslab = power_block / size;
  slots = [];
  sl_total = 0;
  end_page_ptr = 0;
  end_page_free = 0;
  slabs = 0;
  slab_list = λ _. 0;
  list_size = 0;
}

-- `slab_init`: memory and the count of bytes stay as they are.
unfoldable pub slab_init : (grow : ℕ → ℕ) (limit : ℕ) → Slab → Slab
slab_init grow limit s = record s {
  sizes = init_sizes grow;
  classes = λ id. empty_class ((init_sizes grow).size id);
  mem_limit = limit;
}

-- What the C library answers during a call: whether `realloc` to so many bytes succeeds, and the address that
-- `valloc` or `malloc` of so many bytes gives, 0 where there is no memory.
pub record Memory : Type 0 where
  pub can_realloc : ℕ → Bool
  pub valloc : ℕ → ℕ
  pub malloc : ℕ → ℕ

-- sizeof(slabhead_t)
abbrev pub head_size : ℕ
head_size = 8

abbrev pub is_set : ℕ → Bool
is_set zero = false
is_set (suc n) = true

-- `grow_slab_list`: the class, and whether it worked.
unfoldable pub grow_slab_list : Memory → SlabClass → Option SlabClass
grow_slab_list m p =
    let new_size = if p.list_size == 0 then 16 else p.list_size * 2 % 2 ^ 32 in
    if p.slabs == p.list_size
    then if m.can_realloc (new_size * 8) then some (record p { list_size = new_size }) else none
    else some p

-- A new page becomes the end page of the class.
abbrev pub add_page : ℕ → SlabClass → SlabClass
add_page ptr p = record p {
  end_page_ptr = ptr;
  end_page_free = p.perslab;
  slab_list = update p.slab_list p.slabs ptr;
  slabs = p.slabs + 1;
}

-- `do_slabs_newslab`, with USE_FIXED_BLOCK: each page has POWER_BLOCK bytes. It gives whether it worked.
abbrev pub new_page : Memory → ℕ → Slab → Option SlabClass → Bool × Slab
new_page m id s none = (false, s)
new_page m id s (some p) =
    if m.valloc power_block == 0 then (false, record s { classes = update s.classes id p }) else (
      true,
      record s {
        classes = update s.classes id (add_page (m.valloc power_block) p);
        mem_malloced = (s.mem_malloced + power_block) % 2 ^ 64;
      },
    )

unfoldable pub over_limit : SlabClass → Slab → Bool
over_limit p s =
    is_set s.mem_limit && ltb s.mem_limit ((s.mem_malloced + power_block) % 2 ^ 64) && ltb 0 p.slabs

unfoldable pub do_slabs_newslab : Memory → ℕ → Slab → Bool × Slab
do_slabs_newslab m id s =
    if over_limit (s.classes id) s
    then (false, s)
    else new_page m id s (grow_slab_list m (s.classes id))

-- --end_page_free, of an `unsigned int`
abbrev pub one_less : ℕ → ℕ
one_less n = (n + 2 ^ 32 - 1) % 2 ^ 32

-- The chunk that a class with a free chunk hands out: the last free slot, or the next one of the end page.
unfoldable pub take_chunk : (size : ℕ) → SlabClass → ℕ × SlabClass
take_chunk size p = elim p.slots [
  | head ∷ slots ↦ (head, record p { slots = slots })
  | [] ↦ (
    p.end_page_ptr,
    record p {
      end_page_free = one_less p.end_page_free;
      end_page_ptr = if one_less p.end_page_free == 0 then 0 else p.end_page_ptr + size;
    },
  )
]

abbrev pub has_chunk : SlabClass → Bool
has_chunk p = is_set p.end_page_ptr || is_set (length p.slots)

-- The head is written, and the pointer behind it handed out.
abbrev pub hand_out : Bool → ℕ → ℕ → Slab → Option ℕ × Slab
hand_out is_malloc size head s = (
  some (head + head_size),
  record s { heads = update s.heads head (record { is_malloc = is_malloc; size = size % 2 ^ 32 }) },
)

abbrev pub take_from : (id size : ℕ) → Slab → Option ℕ × Slab
take_from id size s =
    let (head, p) = take_chunk (s.sizes.size id) (s.classes id) in
    hand_out false size head (record s { classes = update s.classes id p })

abbrev pub take_new : (id size : ℕ) → Bool × Slab → Option ℕ × Slab
take_new id size (false, s) = (none, s)
take_new id size (true, s') = take_from id size s'

unfoldable pub alloc_class : Memory → (id size : ℕ) → Slab → Option ℕ × Slab
alloc_class m id size s =
    if has_chunk (s.classes id)
    then take_from id size s
    else take_new id size (do_slabs_newslab m id s)

-- A size above that of a whole block.
unfoldable pub alloc_large : Memory → (size : ℕ) → Slab → Option ℕ × Slab
alloc_large m size s =
    if m.malloc size == 0 then (none, s) else hand_out true size (m.malloc size) s

abbrev pub alloc_by : Memory → (id size : ℕ) → Slab → Option ℕ × Slab
alloc_by m id size s =
    if id == 0
    then (none, s)
    else if ltb s.sizes.power_largest id
    then alloc_large m size s
    else alloc_class m id size s

unfoldable pub slab_alloc : Memory → ℕ → Slab → Option ℕ × Slab
slab_alloc m size s =
    let with_head = (size + head_size) % 2 ^ 64 in
    alloc_by m (slab_clsid s.sizes with_head) with_head s

-- `_slab_calloc`, which also clears the bytes: what is in a block is left out.
unfoldable pub slab_calloc : Memory → ℕ → Slab → Option ℕ × Slab
slab_calloc m size s = slab_alloc m size s
