-- ===== src/Common/Int.antt =====
-- Integers over the native numbers: what `parseUnits` returns may be negative.
use Prim.Native.Nat.{ℕ}

-- `negsuc n` is -(n + 1).
pub data ℤ : Type 0 where
  pos : ℕ → ℤ
  negsuc : ℕ → ℤ
