-- ===== src/Slab/Release.antt =====
-- src/slab.c: `_slab_free` and `_slab_realloc`, in a build without NEED_DEBUG.
use linglongta.Prelude.{
  ℕ, ◌-◌, ◌*◌, ◌%◌, ◌^◌, Option, none, some, ◌∷◌, length, ltb, ◌==◌, if◌then◌else◌, update,
}
use linglongta.Slab.Classes.{slab_clsid}
use linglongta.Slab.Alloc.{SlabClass, Slab, Memory, head_size, slab_alloc}

-- new_size * sizeof(void *), of an `int`
abbrev pub slots_bytes : ℕ → ℕ
slots_bytes n = if ltb n (2 ^ 31) then n * 8 else (2 ^ 64 - (2 ^ 32 - n)) * 8 % 2 ^ 64

-- More space for the list of free chunks, if need be.
abbrev pub more_slots : Memory → SlabClass → Option SlabClass
more_slots m p =
    let new_size = if p.sl_total == 0 then 1024 else p.sl_total * 2 % 2 ^ 32 in
    if length p.slots == p.sl_total
    then if m.can_realloc (slots_bytes new_size)
      then some (record p { sl_total = new_size })
      else none
    else some p

-- The chunk goes to the free list, or is lost where that cannot grow.
abbrev pub put_slot : (id head : ℕ) → Slab → Option SlabClass → Slab
put_slot id head s none = s
put_slot id head s (some p) = record s {
  classes = update s.classes id (record p { slots = head ∷ p.slots });
}

unfoldable pub free_chunk : Memory → (id head : ℕ) → Slab → Slab
free_chunk m id head s = put_slot id head s (more_slots m (s.classes id))

abbrev pub free_by : Memory → (id head : ℕ) → Slab → Slab
free_by m id head s = if id == 0 then s else free_chunk m id head s

-- `id` is an `unsigned char`. A block from `malloc` goes back to the C library.
unfoldable pub slab_free : Memory → (ptr : ℕ) → Slab → Slab
slab_free m ptr s =
    let head = ptr - head_size in
    if ptr == 0
    then s
    else if (s.heads head).is_malloc
    then s
    else free_by m (slab_clsid s.sizes (s.heads head).size % 2 ^ 8) head s

-- `_slab_realloc`: the new block, and how many bytes are copied there from the old one.
abbrev pub move_to : Memory → (ptr size : ℕ) → Option ℕ × Slab → Option (ℕ × ℕ) × Slab
move_to m ptr size (none, s) = (none, s)
move_to m ptr size (some p, s) =
    let old = (s.heads (ptr - head_size)).size in
    (some (p, if ltb size old then size else old), slab_free m ptr s)

abbrev pub copied_none : Option ℕ × Slab → Option (ℕ × ℕ) × Slab
copied_none (none, s) = (none, s)
copied_none (some p, s) = (some (p, 0), s)

unfoldable pub slab_realloc : Memory → (ptr size : ℕ) → Slab → Option (ℕ × ℕ) × Slab
slab_realloc m ptr size s =
    if size == 0
    then (none, s)
    else if ptr == 0
    then copied_none (slab_alloc m size s)
    else move_to m ptr size (slab_alloc m size s)
