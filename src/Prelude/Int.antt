-- ===== src/Prelude/Int.antt =====
-- Signed return codes of the C functions, over the native numbers.
use Prim.Native.Nat.{ℕ}
use mathlib.Core.Path.{◌≡◌}
use mathlib.Core.Logic.{◌≢◌}

-- `negsuc n` is -(n + 1).
pub data ℤ : Type 0 where
  pos : ℕ → ℤ
  negsuc : ℕ → ℤ

pub pos_inj : {j n : ℕ} → pos j ≡ pos n → j ≡ n
pos_inj e = cc

pub negsuc_ne_pos : (j n : ℕ) → negsuc j ≢ pos n
negsuc_ne_pos j n e = cc
