-- ===== src/Base/Int.antt =====
-- Go's signed `int`, as far as the program compares it. No operation here overflows.
use Prim.Native.Nat.{ℕ}
use mathlib.Core.Bool.{Bool, true, false}
use jardin.Base.Tests.{◌=?◌, ltb}

-- `negsuc n` is -(n + 1).
pub data ℤ : Type 0 where
  pos : ℕ → ℤ
  negsuc : ℕ → ℤ

abbrev pub is_negative : ℤ → Bool
is_negative (pos n) = false
is_negative (negsuc n) = true

abbrev pub is_zero : ℤ → Bool
is_zero (pos n) = n =? 0
is_zero (negsuc n) = false

-- n < z
abbrev pub exceeds : ℕ → ℤ → Bool
exceeds n (pos m) = ltb n m
exceeds n (negsuc m) = false
