-- ===== src/Prelude/Ints.antt =====
-- Python's integers where they can be negative, such as the exit code of a process.
use Prim.Native.Nat.{ℕ, suc}
use Prim.Native.String.{String, ◌++◌}
use mathlib.Core.Bool.{Bool, false}
use deep_thought.Prelude.Tests.{eqb}
use deep_thought.Prelude.Text.{show}

-- `negsuc n` is -(n + 1).
pub data ℤ : Type 0 where
  pos : ℕ → ℤ
  negsuc : ℕ → ℤ

unfoldable pub show_int : ℤ → String
unfolding show
show_int (pos n) = show n
show_int (negsuc n) = "-" ++ show (suc n)

-- `i == n` for a natural number
abbrev pub is_nat : ℕ → ℤ → Bool
is_nat n (pos m) = eqb m n
is_nat n (negsuc m) = false
