-- ===== src/Prelude/Int.antt =====
-- Go's int where a value may be negative: the program stores and prints it, and computes nothing.
use Prim.Native.Nat.{ℕ}

-- `negsuc n` is -(n + 1).
pub data ℤ : Type 0 where
  pos : ℕ → ℤ
  negsuc : ℕ → ℤ
