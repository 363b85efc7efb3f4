-- ===== src/Prelude/Bits/Step.antt =====
-- The lowest binary digit of the native bitwise operations, whose meaning is a recursion on digits
-- with as much fuel as the first number.
use Prim.Native.Nat.{
  ℕ, zero, suc, ◌+◌, ◌*◌, ◌/◌, ◌%◌, ◌≤◌, min, max, bit_and, bit_or, bit_xor, digits, differ,
  bitwise, bit_xor-bitwise, bit_or-bitwise, bit_and-bitwise,
}
use mathlib.Core.Path.{◌≡◌, refl}
use mathlib.Core.Logic.{◌⊎◌, inl, inr}
use native.Mathlib.Omega.{arith}

-- `rest` is what is left of the second number where the first ends, and `op` acts on a digit.
module _ (rest : ℕ → ℕ) (op : ℕ → ℕ → ℕ) where
  -- Any fuel will do that covers the first number.
  enough_fuel : (x y k l : ℕ) → x ≤ k → x ≤ l → digits rest op k x y ≡ digits rest op l x y
  enough_fuel (suc x) y (suc k) (suc l) hk hl =
      let half = enough_fuel (suc x / 2) (y / 2) k l (ground arith) (ground arith) in
      ground (arith, half)
  enough_fuel (suc x) y zero l hk hl = ground arith
  enough_fuel (suc x) y (suc k) zero hk hl = ground arith
  enough_fuel zero y (suc k) (suc l) hk hl = refl
  enough_fuel zero y (suc k) zero hk hl = refl
  enough_fuel zero y zero (suc l) hk hl = refl
  enough_fuel zero y zero zero hk hl = refl

  lowest_digit :
      (x y : ℕ)
      → bitwise rest op (suc x) y ≡ op (suc x % 2) (y % 2) + 2 * bitwise rest op (suc x / 2) (y / 2)
  lowest_digit x y =
      let half = enough_fuel (suc x / 2) (y / 2) x (suc x / 2) (ground arith) (ground arith) in
      ground (arith, half)

parity : (x : ℕ) → (x % 2 ≡ 0) ⊎ (x % 2 ≡ 1)
parity x = omega arith

-- Unequal digits are those with an odd sum.
odd_sum : (x y : ℕ) → differ (x % 2) (y % 2) ≡ (x % 2 + y % 2) % 2
odd_sum x y = elim (parity x) [
  | inl even ↦ rw even (elim (parity y) [ inl e ↦ rw e refl | inr o ↦ rw o refl ])
  | inr odd ↦ rw odd (elim (parity y) [ inl e ↦ rw e refl | inr o ↦ rw o refl ])
]

pub bit_xor_step : (x y : ℕ) → bit_xor x y ≡ bit_xor (x / 2) (y / 2) * 2 + (x % 2 + y % 2) % 2
bit_xor_step zero y = ground (arith, bit_xor-bitwise 0 y, bit_xor-bitwise 0 (y / 2))
bit_xor_step (suc x) y = ground (
  arith,
  odd_sum (suc x) y,
  lowest_digit (λ d. d) differ x y,
  bit_xor-bitwise (suc x) y,
  bit_xor-bitwise (suc x / 2) (y / 2),
)

pub bit_or_step : (x y : ℕ) → bit_or x y ≡ bit_or (x / 2) (y / 2) * 2 + max (x % 2) (y % 2)
bit_or_step zero y = ground (arith, bit_or-bitwise 0 y, bit_or-bitwise 0 (y / 2))
bit_or_step (suc x) y = ground (
  arith,
  lowest_digit (λ d. d) max x y,
  bit_or-bitwise (suc x) y,
  bit_or-bitwise (suc x / 2) (y / 2),
)

pub bit_and_step : (x y : ℕ) → bit_and x y ≡ bit_and (x / 2) (y / 2) * 2 + min (x % 2) (y % 2)
bit_and_step zero y = ground (arith, bit_and-bitwise 0 y, bit_and-bitwise 0 (y / 2))
bit_and_step (suc x) y = ground (
  arith,
  lowest_digit (λ d. 0) min x y,
  bit_and-bitwise (suc x) y,
  bit_and-bitwise (suc x / 2) (y / 2),
)
