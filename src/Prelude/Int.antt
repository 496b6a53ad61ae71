-- ===== src/Prelude/Int.antt =====
-- Integers over the native numbers.
use Prim.Native.Nat.{ℕ, suc, ◌+◌, ◌-◌, ◌<◌, ◌≤◌, compare, Ordering}
use mathlib.Core.Path.{◌≡◌}
use native.Mathlib.Omega.{arith}

pub data ℤ : Type 0 where
  pos : ℕ → ℤ
  negsuc : ℕ → ℤ

-- The difference of two numbers.
abbrev pub subℕ : ℕ → ℕ → ℤ
subℕ a b = elim (compare a b) [ Ordering.lt ↦ negsuc (b - suc a) | _ ↦ pos (a - b) ]

-- A number less an integer.
abbrev pub minus : ℕ → ℤ → ℤ
minus a (pos b) = subℕ a b
minus a (negsuc b) = pos (a + suc b)

-- A number and an integer.
abbrev pub plus : ℕ → ℤ → ℤ
plus a (pos b) = pos (a + b)
plus a (negsuc b) = subℕ a (suc b)

pub subℕ-le : (a b : ℕ) → b ≤ a → subℕ a b ≡ pos (a - b)
subℕ-le a b h = ground arith

pub subℕ-lt : (a b : ℕ) → a < b → subℕ a b ≡ negsuc (b - suc a)
subℕ-lt a b h = ground arith
