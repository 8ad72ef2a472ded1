-- ===== src/Common/Ints.antt =====
-- Python's int as a signed integer over the native numbers: `negsuc n` is -(n + 1).
use Prim.Native.Nat.{ℕ, zero, suc}
use mathlib.Core.Bool.{Bool, true, false}

pub data ℤ : Type 0 where
  pos : ℕ → ℤ
  negsuc : ℕ → ℤ

-- n < 0
abbrev pub is_negative : ℤ → Bool
is_negative (pos n) = false
is_negative (negsuc n) = true

-- n <= 0
abbrev pub is_nonpositive : ℤ → Bool
is_nonpositive (pos zero) = true
is_nonpositive (pos (suc n)) = false
is_nonpositive (negsuc n) = true

-- The number, for one that is not below 0
abbrev pub magnitude : ℤ → ℕ
magnitude (pos n) = n
magnitude (negsuc n) = 0
