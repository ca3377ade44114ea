-- ===== src/Prelude/Int.antt =====
-- Signed integers over the native numbers, with the division that rounds down.
use Prim.Native.Nat.{ℕ, suc, ◌+◌, ◌-◌, ◌/◌}
use mathlib.Core.Bool.{Bool, false}
use project008_soundtech_ass.Prelude.Tests.{ltb, leb, if◌then◌else◌}

-- `negsuc n` is -(n + 1).
pub data ℤ : Type 0 where
  pos : ℕ → ℤ
  negsuc : ℕ → ℤ

-- the difference of two numbers
abbrev pub minus : ℕ → ℕ → ℤ
minus m n = if ltb m n then negsuc (n - suc m) else pos (m - n)

infixl 60 ◌+ℤ◌
abbrev pub ◌+ℤ◌ : ℤ → ℤ → ℤ
pos m +ℤ pos n = pos (m + n)
pos m +ℤ negsuc n = minus m (suc n)
negsuc m +ℤ pos n = minus n (suc m)
negsuc m +ℤ negsuc n = negsuc (suc (m + n))

abbrev pub negate : ℤ → ℤ
negate (pos n) = minus 0 n
negate (negsuc n) = pos (suc n)

-- `z // n` for a positive `n`
abbrev pub floor_div : ℤ → ℕ → ℤ
floor_div (pos m) n = pos (m / n)
floor_div (negsuc m) n = negsuc (m / n)

-- `z >= n`
abbrev pub at_least : ℤ → ℕ → Bool
at_least (pos m) n = leb n m
at_least (negsuc m) n = false
