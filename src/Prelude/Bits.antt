-- ===== src/Prelude/Bits.antt =====
-- Masking by 2^k - 1 keeps the last k bits.
use Prim.Native.Nat.{ℕ, zero, suc, ◌+◌, ◌*◌, ◌/◌, ◌%◌, ◌≤◌, min, bit_and, digits, bit_and-bitwise}
use mathlib.Core.Path.{◌≡◌, refl}
use native.Mathlib.Omega.{arith}

-- The digit recursion behind `bit_and`, with its own fuel.
abbrev masked : ℕ → ℕ → ℕ → ℕ
masked fuel a m = digits (λ rest. zero) min fuel a m

masked_enough : (a m f g : ℕ) → a ≤ f → a ≤ g → masked f a m ≡ masked g a m
masked_enough zero m zero zero hf hg = refl
masked_enough zero m zero (suc g) hf hg = refl
masked_enough zero m (suc f) zero hf hg = refl
masked_enough zero m (suc f) (suc g) hf hg = refl
masked_enough (suc a) m zero g hf hg = absurd (omega arith)
masked_enough (suc a) m (suc f) zero hf hg = absurd (omega arith)
masked_enough (suc a) m (suc f) (suc g) hf hg =
    omega (arith, masked_enough (suc a / 2) (m / 2) f g (omega arith) (omega arith))

bit_and-halves : (a m : ℕ) → bit_and a m ≡ 2 * bit_and (a / 2) (m / 2) + min (a % 2) (m % 2)
bit_and-halves zero m = omega (arith, bit_and-bitwise 0 m, bit_and-bitwise 0 (m / 2))
bit_and-halves (suc a) m = omega (
  arith,
  bit_and-bitwise (suc a) m,
  bit_and-bitwise (suc a / 2) (m / 2),
  masked_enough (suc a / 2) (m / 2) a (suc a / 2) (omega arith) (omega arith),
)

bit_and-zero_below : (bound a : ℕ) → a ≤ bound → bit_and a 0 ≡ 0
bit_and-zero_below bound zero h = refl
bit_and-zero_below zero (suc a) h = absurd (omega arith)
bit_and-zero_below (suc bound) (suc a) h =
    omega (arith, bit_and-halves (suc a) 0, bit_and-zero_below bound (suc a / 2) (omega arith))

bit_and_1 : (a : ℕ) → bit_and a 1 ≡ a % 2
bit_and_1 a = omega (arith, bit_and-halves a 1, bit_and-zero_below (a / 2) (a / 2) (omega arith))

bit_and_7 : (a : ℕ) → bit_and a 7 ≡ a % 8
bit_and_7 a = omega (arith, bit_and-halves a 7, bit_and-halves (a / 2) 3, bit_and_1 (a / 2 / 2))

bit_and_63 : (a : ℕ) → bit_and a 63 ≡ a % 64
bit_and_63 a = omega (
  arith,
  bit_and-halves a 63,
  bit_and-halves (a / 2) 31,
  bit_and-halves (a / 2 / 2) 15,
  bit_and_7 (a / 2 / 2 / 2),
)

pub bit_and_255 : (a : ℕ) → bit_and a 255 ≡ a % 256
bit_and_255 a =
    omega (arith, bit_and-halves a 255, bit_and-halves (a / 2) 127, bit_and_63 (a / 2 / 2))
