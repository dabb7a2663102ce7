-- ===== src/Prelude/Int.antt =====
-- The signed results of the program, `negsuc n` for -(n + 1).
use Prim.Native.Nat.{ℕ}

pub data ℤ : Type 0 where
  pos : ℕ → ℤ
  negsuc : ℕ → ℤ
