-- ===== src/Common/Integers.antt =====
-- Go's signed integers, as far as the options use them: a value, and its test against 0.
use Prim.Native.Nat.{ℕ}

pub data ℤ : Type 0 where
  pos : ℕ → ℤ
  negsuc : ℕ → ℤ

-- The value if it is above 0, else 0.
abbrev pub positive : ℤ → ℕ
positive (pos n) = n
positive (negsuc n) = 0
