-- ===== src/Common/Int.antt =====
-- Signed integers over the native numbers: what the code's `int` parameters and results are.
use Prim.Native.Nat.{ℕ}

-- `negsuc n` is -(n + 1).
pub data ℤ : Type 0 where
  pos : ℕ → ℤ
  negsuc : ℕ → ℤ

-- -1, the error result of the system calls.
abbrev pub minus_one : ℤ
minus_one = negsuc 0
