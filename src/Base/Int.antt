-- ===== src/Base/Int.antt =====
-- Python's integers over the native numbers. `negsuc n` is -(n + 1).
use Prim.Native.Nat.{ℕ, suc}
use mathlib.Core.Bool.{Bool}
use vedadb_driver.Base.Tests.{leb}

pub data ℤ : Type 0 where
  pos : ℕ → ℤ
  negsuc : ℕ → ℤ

-- `-n <= v <= m` for the bounds of an integer type.
abbrev pub within : ℕ → ℕ → ℤ → Bool
within n m (pos a) = leb a m
within n m (negsuc a) = leb (suc a) n
