-- ===== src/Common/Int.antt =====
-- Signed integers over the native numbers, for the counts that the source keeps in an `int`.
use Prim.Native.Nat.{ℕ}

-- `negsuc n` is -(n + 1).
pub data ℤ : Type 0 where
  pos : ℕ → ℤ
  negsuc : ℕ → ℤ
