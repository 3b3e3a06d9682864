-- ===== src/Slab/Classes.antt =====
-- src/slab.c, include/slab.h: the sizes of the chunks, how they are set up, and the search for the class of a
-- size. The growth of a size by the factor, a `double`, is a parameter.
use mathlib.Core.Logic.{dite}
use mathlib.Core.WellFounded.{Acc, WellFounded}
use linglongta.Prelude.{
  ℕ, zero, suc, ◌+◌, ◌-◌, ◌*◌, ◌/◌, ◌%◌, ◌<◌, arith, dec_lt, ltb, leb, ◌==◌, if◌then◌else◌, update,
}

abbrev pub power_largest_max : ℕ
power_largest_max = 200

abbrev pub power_block : ℕ
power_block = 1024 * 1024 * 4

abbrev pub chunk_align_bytes : ℕ
chunk_align_bytes = 8

abbrev pub tiny_size : ℕ
tiny_size = 16

-- The sizes in `slabclass`, from class 1 on, and `power_largest`.
pub record ClassSizes : Type 0 where
  pub size : ℕ → ℕ
  pub power_largest : ℕ

abbrev pub aligned : ℕ → ℕ
aligned size =
    if size % chunk_align_bytes == 0
    then size
    else size + (chunk_align_bytes - size % chunk_align_bytes)

module _ (grow : ℕ → ℕ) where
  -- The loop of `slab_init` at class `i`, with `rest` classes left below POWER_LARGEST, and the class of
  -- whole blocks behind it.
  unfoldable pub sizes_loop : (rest i size : ℕ) → (ℕ → ℕ) → ClassSizes
  sizes_loop zero i size t = record { size = update t i power_block; power_largest = i }
  sizes_loop (suc rest) i size t =
      let next = sizes_loop rest (i + 1) (grow (aligned size)) (update t i (aligned size)) in
      if leb size (power_block / 2)
      then next
      else record { size = update t i power_block; power_largest = i }

  unfoldable pub init_sizes : ClassSizes
  init_sizes = sizes_loop (power_largest_max - 1) 1 tiny_size (λ _. 0)

-- The loop variables of the search, and their order by the width of the range.
pub record Range : Type 0 where
  pub left : ℕ
  pub right : ℕ
  pub positive : 0 < left

infix 50 ◌⊏◌
abbrev pub ◌⊏◌ : Range → Range → Type 0
r ⊏ s = suc r.right - r.left < suc s.right - s.left

narrower : (k : ℕ) (r : Range) → suc r.right - r.left < k → Acc ◌⊏◌ r
narrower zero r h = absurd (omega arith)
narrower (suc k) r h = Acc.intro r (λ s inside. narrower k s (omega arith))

unfoldable pub ⊏_wf : WellFounded ◌⊏◌
unfolding narrower
⊏_wf = record { apply = λ r. narrower (suc (suc r.right - r.left)) r (omega arith) }

-- res = (left + right) / 2
abbrev pub middle : Range → ℕ
middle r = (r.left + r.right) / 2

abbrev pub upper : Range → Range
upper r = record r { left = middle r + 1; positive = omega arith }

abbrev pub lower : Range → Range
lower r = record r { right = middle r - 1 }

pub upper-⊏ : (r : Range) → r.left < suc r.right → upper r ⊏ r
upper-⊏ r h = omega arith

pub lower-⊏ : (r : Range) → r.left < suc r.right → lower r ⊏ r
lower-⊏ r h = omega (arith, r.positive)

pub data Probe : Type 0 where
  here below above : Probe

-- What the body of the search finds at `res`.
abbrev pub probe : (size : ℕ → ℕ) → (wanted res : ℕ) → Probe
probe size wanted res =
    if ltb wanted (size res)
    then if ltb (size (res - 1)) wanted then Probe.here else Probe.below
    else if ltb (size res) wanted
    then Probe.above
    else Probe.here

abbrev pub whole : ClassSizes → Range
whole c = record { left = 1; right = c.power_largest; positive = omega arith }

module _ (c : ClassSizes) (wanted : ℕ) where
  unfoldable pub search_loop : (r : Range) → Acc ◌⊏◌ r → ℕ
  search_loop r (Acc.intro _ inner) =
      dite (dec_lt r.left (suc r.right))
        (λ h. elim (probe c.size wanted (middle r)) [
          | here ↦ middle r
          | below ↦ search_loop (lower r) (inner _ (lower-⊏ r h))
          | above ↦ search_loop (upper r) (inner _ (upper-⊏ r h))
        ])
        (λ _. c.power_largest + 1)

  unfoldable pub slab_clsid : ℕ
  unfolding ⊏_wf
  slab_clsid = if wanted == 0 then 0 else search_loop (whole c) (⊏_wf.apply (whole c))

  -- The search of a build without BSEARCH_BLOCK, at class `res` with `rest` classes above it.
  unfoldable pub scan_loop : (rest res : ℕ) → ℕ
  scan_loop zero res = if ltb (c.size res) wanted then c.power_largest + 1 else res
  scan_loop (suc rest) res =
      let next = scan_loop rest (res + 1) in if ltb (c.size res) wanted then next else res

  unfoldable pub slab_clsid_by_scan : ℕ
  slab_clsid_by_scan = if wanted == 0 then 0 else scan_loop (c.power_largest - 1) 1
