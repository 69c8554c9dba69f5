-- ===== src/Prelude/Bits.antt =====
-- A mask bounds what it lets through.
use Prim.Native.Nat.{ℕ, zero, suc, ◌/◌, ◌≤◌, min, bit_and, digits, bit_and-bitwise}
use native.Mathlib.Omega.{arith}

-- The digit recursion that `bit_and` stands for.
abbrev masked : ℕ → ℕ → ℕ → ℕ
masked n a b = digits (λ b. zero) min n a b

masked-le : (n a b : ℕ) → masked n a b ≤ b
masked-le zero zero b = omega arith
masked-le zero (suc a) b = omega arith
masked-le (suc n) zero b = omega arith
masked-le (suc n) (suc a) b = omega (arith, masked-le n (suc a / 2) (b / 2))

pub bit_and-le : (a b : ℕ) → bit_and a b ≤ b
bit_and-le a b = omega (arith, bit_and-bitwise a b, masked-le a a b)
