-- ===== src/Prelude/Ints.antt =====
-- Go's `int`, of which the program only asks the sign: no arithmetic is done on these values.
use Prim.Native.Nat.{ℕ}
use mathlib.Core.Bool.{Bool, true, false}
use kubedns.Prelude.Tests.{nat_beq}

-- `negsuc n` is -(n + 1).
pub data ℤ : Type 0 where
  pos : ℕ → ℤ
  negsuc : ℕ → ℤ

-- i == 0
abbrev pub is_zero : ℤ → Bool
is_zero (pos n) = nat_beq n 0
is_zero (negsuc n) = false

-- i <= 0
abbrev pub is_le_zero : ℤ → Bool
is_le_zero (pos n) = nat_beq n 0
is_le_zero (negsuc n) = true
