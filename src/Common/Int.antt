-- ===== src/Common/Int.antt =====
-- Go's signed integers where the source lets a value be negative. Only their signs and orders
-- against zero are used, so there is no arithmetic here.
use Prim.Native.Nat.{ℕ}
use mathlib.Core.Bool.{Bool, true, false}

-- `negsuc n` is -(n + 1).
pub data ℤ : Type 0 where
  pos : ℕ → ℤ
  negsuc : ℕ → ℤ

-- `z < 0`
abbrev pub is_negative : ℤ → Bool
is_negative (pos n) = false
is_negative (negsuc n) = true

-- The value where it is not negative, and 0 where it is: `if z < 0 { z = 0 }`.
abbrev pub pos_part : ℤ → ℕ
pos_part (pos n) = n
pos_part (negsuc n) = 0
