-- ===== src/Base/Int.antt =====
-- Signed machine integers, as far as the settings are compared with constants.
use mathlib.Core.Bool.{Bool, false}
use Prim.Native.Nat.{ℕ}
use chbackup.Base.Tests.{◌==◌, ltb}

-- `negsuc n` is -(n + 1).
pub data ℤ : Type 0 where
  pos negsuc : ℕ → ℤ

-- `i != 0`, `i > 0`, `i == -1`, and `i as usize` of a positive number
abbrev pub is_zero : ℤ → Bool
is_zero (pos n) = n == 0
is_zero (negsuc n) = false

abbrev pub is_positive : ℤ → Bool
is_positive (pos n) = ltb 0 n
is_positive (negsuc n) = false

abbrev pub is_minus_one : ℤ → Bool
is_minus_one (pos n) = false
is_minus_one (negsuc n) = n == 0

abbrev pub as_usize : ℤ → ℕ
as_usize (pos n) = n
as_usize (negsuc n) = 0
