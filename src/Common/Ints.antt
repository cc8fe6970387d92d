-- ===== src/Common/Ints.antt =====
-- The sign of a JavaScript `bigint`: a number, or -(n + 1).
use Prim.Native.Nat.{ℕ}

pub data ℤ : Type 0 where
  pos : ℕ → ℤ
  negsuc : ℕ → ℤ
