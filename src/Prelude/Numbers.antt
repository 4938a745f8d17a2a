-- ===== src/Prelude/Numbers.antt =====
-- Signed integers, as the source's `i32` values are read.
use Prim.Native.Nat.{ℕ}

-- `negsuc n` is -(n + 1).
pub data ℤ : Type 0 where
  pos : ℕ → ℤ
  negsuc : ℕ → ℤ
