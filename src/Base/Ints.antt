-- ===== src/Base/Ints.antt =====
-- The integers of C's `int`, and their comparison.
use Prim.Native.Nat.{ℕ, ◌-◌}
use mathlib.Core.Bool.{Bool, false}
use ledger_kee_pass.Base.Tests.{◌==◌}

-- `negsuc n` is -(n + 1).
pub data ℤ : Type 0 where
  pos : ℕ → ℤ
  negsuc : ℕ → ℤ

abbrev pub eq_int : ℤ → ℤ → Bool
eq_int (pos m) (pos n) = m == n
eq_int (pos m) (negsuc n) = false
eq_int (negsuc m) (pos n) = false
eq_int (negsuc m) (negsuc n) = m == n

-- -n for a literal that is not 0
abbrev pub minus : ℕ → ℤ
minus n = negsuc (n - 1)
