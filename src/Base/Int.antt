-- ===== src/Base/Int.antt =====
-- Integers, where the source subtracts without clipping.
use Prim.Native.Nat.{ℕ, zero, suc, ◌-◌}
use mathlib.Core.Bool.{Bool, true, false}
use datasluice.Base.Tests.{leb, ltb, if◌then◌else◌}

-- `negsuc n` is -(n + 1).
pub data ℤ : Type 0 where
  pos : ℕ → ℤ
  negsuc : ℕ → ℤ

abbrev pub sub_ℕ : ℕ → ℕ → ℤ
sub_ℕ a b = if leb b a then pos (a - b) else negsuc (b - a - 1)

-- `n < x`, `x <= 0` and `x < 0` of an integer and a natural number.
abbrev pub is_le_zero : ℤ → Bool
is_le_zero (pos zero) = true
is_le_zero (pos (suc n)) = false
is_le_zero (negsuc n) = true

abbrev pub exceeds : ℕ → ℤ → Bool
exceeds n (pos m) = ltb m n
exceeds n (negsuc m) = true

abbrev pub is_neg : ℤ → Bool
is_neg (pos n) = false
is_neg (negsuc n) = true

-- `max(0, x)`
abbrev pub clip : ℤ → ℕ
clip (pos n) = n
clip (negsuc n) = 0
