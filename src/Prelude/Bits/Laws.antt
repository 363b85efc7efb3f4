-- ===== src/Prelude/Bits/Laws.antt =====
-- One bit of a word, and the law of each operation for it.
use Prim.Native.Nat.{ℕ, zero, suc, ◌+◌, ◌-◌, ◌*◌, ◌/◌, ◌%◌, ◌^◌, ◌≤◌, ◌<◌, min, max}
use Prim.Native.Nat.{bit_and, bit_or, bit_xor}
use mathlib.Core.Path.{◌≡◌, refl, ap, ◌∙◌}
use mathlib.Core.Logic.{◌≢◌, inl, inr}
use mathlib.Core.Bool.{Bool, true, false, ◌&&◌, ◌||◌}
use native.Mathlib.Nat.{
  pow-suc, one-le-pow, div-add-mod, mod-one, mod-lt, mod-eq_of_lt, mul-add-mod_self_left,
}
use native.Mathlib.Omega.{arith}
use ts_m2cellcpp.Prelude.Tests.{ltb, ◌==◌, xor, Bool-cases}
use ts_m2cellcpp.Prelude.Bits.Step.{bit_and_step, bit_or_step, bit_xor_step}

-- Bit `i` of `a`, the lowest being bit 0.
unfoldable pub bit : ℕ → ℕ → Bool
bit a zero = a % 2 == 1
bit a (suc i) = bit (a / 2) i

and_low :
    (a b : ℕ)
    → (bit_and a b % 2 ≡ min (a % 2) (b % 2)) × (bit_and a b / 2 ≡ bit_and (a / 2) (b / 2))
and_low a b = omega (arith, bit_and_step a b)

or_low :
    (a b : ℕ) → (bit_or a b % 2 ≡ max (a % 2) (b % 2)) × (bit_or a b / 2 ≡ bit_or (a / 2) (b / 2))
or_low a b = omega (arith, bit_or_step a b)

xor_low :
    (a b : ℕ)
    → (bit_xor a b % 2 ≡ (a % 2 + b % 2) % 2) × (bit_xor a b / 2 ≡ bit_xor (a / 2) (b / 2))
xor_low a b = omega (arith, bit_xor_step a b)

pub bit-bit_and : (a b i : ℕ) → bit (bit_and a b) i ≡ (bit a i && bit b i)
unfolding bit
bit-bit_and a b zero = ground (arith, and_low a b)
bit-bit_and a b (suc i) = rw (and_low a b).1 (bit-bit_and (a / 2) (b / 2) i)

pub bit-bit_or : (a b i : ℕ) → bit (bit_or a b) i ≡ (bit a i || bit b i)
unfolding bit
bit-bit_or a b zero = ground (arith, or_low a b)
bit-bit_or a b (suc i) = rw (or_low a b).1 (bit-bit_or (a / 2) (b / 2) i)

pub bit-bit_xor : (a b i : ℕ) → bit (bit_xor a b) i ≡ xor (bit a i) (bit b i)
unfolding bit
bit-bit_xor a b zero = ground (arith, xor_low a b)
bit-bit_xor a b (suc i) = rw (xor_low a b).1 (bit-bit_xor (a / 2) (b / 2) i)

pub bit-zero : (i : ℕ) → bit 0 i ≡ false
unfolding bit
bit-zero zero = refl
bit-zero (suc i) = bit-zero i

-- The word with the one bit `p`.
pub bit-pow : (p i : ℕ) → bit (2 ^ p) i ≡ (p == i)
unfolding bit
bit-pow zero zero = refl
bit-pow zero (suc i) = bit-zero i ∙ ground arith
bit-pow (suc p) zero = ground (arith, pow-suc 2 p)
bit-pow (suc p) (suc i) =
    let half : 2 ^ suc p / 2 ≡ 2 ^ p = omega (arith, pow-suc 2 p) in
    rw half (bit-pow p i ∙ ground arith)

-- The word with the lowest `w` bits set.
pub bit-ones : (w i : ℕ) → bit (2 ^ w - 1) i ≡ ltb i w
unfolding bit
bit-ones zero i = bit-zero i ∙ ground arith
bit-ones (suc w) zero = ground (arith, pow-suc 2 w, one-le-pow w 2)
bit-ones (suc w) (suc i) =
    let half : (2 ^ suc w - 1) / 2 ≡ 2 ^ w - 1 = omega (arith, pow-suc 2 w, one-le-pow w 2) in
    rw half (bit-ones w i ∙ ground arith)

-- `~a` on a word of `w` bits.
unfoldable pub complement : ℕ → ℕ → ℕ
complement w a = bit_xor a (2 ^ w - 1)

pub bit-complement : (w a i : ℕ) → bit (complement w a) i ≡ xor (bit a i) (ltb i w)
unfolding complement
bit-complement w a i = rw (← bit-ones w i) (bit-bit_xor a (2 ^ w - 1) i)

half_mod_whole : (a p : ℕ) → 0 < p → a % (p * 2) ≡ a / 2 % p * 2 + a % 2
half_mod_whole a p h =
    let s = a / 2 % p * 2 + a % 2 in
    let whole : a ≡ p * 2 * (a / 2 / p) + s = omega (arith, div-add-mod (a / 2) p) in
    let fits : s < p * 2 = omega (arith, mod-lt (a / 2) h) in
    ap (λ (t : ℕ). t % (p * 2)) whole
    ∙ (mul-add-mod_self_left (p * 2) (a / 2 / p) s ∙ mod-eq_of_lt fits)

half_mod : (a p : ℕ) → 0 < p → (a % (p * 2) % 2 ≡ a % 2) × (a % (p * 2) / 2 ≡ a / 2 % p)
half_mod a p h = omega (arith, half_mod_whole a p h)

-- A conversion to `w` bits keeps the lowest.
pub bit-mod : (w a i : ℕ) → bit (a % 2 ^ w) i ≡ (ltb i w && bit a i)
unfolding bit
bit-mod zero a i = rw mod-one (bit-zero i ∙ ground arith)
bit-mod (suc w) a zero = ground (arith, pow-suc 2 w, one-le-pow w 2, half_mod a (2 ^ w))
bit-mod (suc w) a (suc i) =
    rw (pow-suc, (half_mod a (2 ^ w) (one-le-pow w 2 (omega arith))).1)
      (bit-mod w (a / 2) i ∙ ground arith)

eq_of_bits_below : (n a b : ℕ) → a ≤ n → b ≤ n → ((i : ℕ) → bit a i ≡ bit b i) → a ≡ b
unfolding bit
eq_of_bits_below zero a b p q h = omega arith
eq_of_bits_below (suc n) a b p q h =
    let low : a % 2 ≡ b % 2 = ground (arith, h 0) in
    omega (arith, eq_of_bits_below n (a / 2) (b / 2) (omega arith) (omega arith) (λ i. h (suc i)))

-- Two words with the same bits are the same number.
pub eq_of_bits : (a b : ℕ) → ((i : ℕ) → bit a i ≡ bit b i) → a ≡ b
eq_of_bits a b h = eq_of_bits_below (a + b) a b (omega arith) (omega arith) h

nonzero-bit_below : (n a : ℕ) → a ≤ n → a ≢ 0 → (i : ℕ) × (bit a i ≡ true)
unfolding bit
nonzero-bit_below zero a p h = absurd (omega arith)
nonzero-bit_below (suc n) a p h = elim (Bool-cases (a % 2 == 1)) [
  | inl odd ↦ (zero, odd)
  | inr even ↦
      let above = nonzero-bit_below n (a / 2) (omega arith) (ground arith) in (suc above.0, above.1)
]

-- A word that is not 0 has a bit.
pub nonzero-bit : (a : ℕ) → (a == 0) ≡ false → (i : ℕ) × (bit a i ≡ true)
nonzero-bit a h = nonzero-bit_below a a (omega arith) (ground arith)

-- A word with a bit is not 0.
pub nonzero_of_bit : (a i : ℕ) → bit a i ≡ true → (a == 0) ≡ false
nonzero_of_bit a i h = elim (Bool-cases (a == 0)) [
  | inl none_set ↦ ground (arith, bit-zero i)
  | inr found ↦ found
]

-- A word that is 0 has none.
pub bit_of_zero : (a i : ℕ) → (a == 0) ≡ true → bit a i ≡ false
bit_of_zero a i h = ground (arith, bit-zero i)
