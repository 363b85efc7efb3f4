-- ===== src/Faultmgr/FaultStatusBits/Laws.antt =====
-- What a write does to each bit.
use ts_m2cellcpp.Prelude.{
  ℕ, ◌^◌, ◌<◌, ◌≤◌, ◌≡◌, inl, inr, ◌==◌, bit, bit-bit_and, bit-bit_or, bit-pow, bit-complement,
  complement, Bool-cases, ◌∙◌, Bool, true, false, ◌||◌, leb, if◌then◌else◌, ℤ, pos, negsuc, Result,
  ok, err, range_error, List, [], ◌∷◌, any, arith,
}
use ts_m2cellcpp.Faultmgr.FaultBit.{FaultBit, stale_data_warn, position}
use ts_m2cellcpp.Faultmgr.FaultStatusBits.{write_bit, set_bit, set_bit_at, unset_bit_at, set_all}

pub bit-write_bit :
    (w m p : ℕ) (on : Bool) (i : ℕ)
    → i < w
    → bit (write_bit w m p on) i ≡ (if p == i then on else bit m i)
unfolding write_bit
bit-write_bit w m p true i h = ground (arith, bit-bit_or m (2 ^ p) i, bit-pow p i)
bit-write_bit w m p false i h =
    ground (arith, bit-bit_and m (complement w (2 ^ p)) i, bit-complement w (2 ^ p) i, bit-pow p i)

-- What a call of setBit64, setBit32 or setBit8 on a word of `w` bits does: out of range it throws
-- range_error, and in range the bit at the position takes the value and every other bit stays.
pub data SetBit (w m : ℕ) (on : Bool) : ℤ → Result ℕ → Type 0 where
  below : (n : ℕ) → SetBit w m on (negsuc n) (err range_error)
  above : (p : ℕ) → w ≤ p → SetBit w m on (pos p) (err range_error)
  within :
      (p m' : ℕ)
      → p < w
      → ((i : ℕ) → i < w → bit m' i ≡ (if p == i then on else bit m i))
      → SetBit w m on (pos p) (ok m')

-- A write at any `int` position, at any width, throws range_error exactly outside of the word, and
-- within it gives the bit at the position the value and changes no other bit.
pub set_bit-SetBit : (w m : ℕ) (p : ℤ) (on : Bool) → SetBit w m on p (set_bit w m p on)
unfolding set_bit
set_bit-SetBit w m (negsuc n) on = below n
set_bit-SetBit w m (pos p) on = elim (Bool-cases (leb w p)) [
  | inl out ↦ rw out (above p (ground arith))
  | inr inside ↦
      rw inside (within p (write_bit w m p on) (ground arith) (λ i. bit-write_bit w m p on i))
]

pub position-lt : (f : FaultBit) → position f < 64
position-lt stale_data_warn = omega arith
position-lt _ = omega arith

-- An enumerator is in range, so setBitAt and unsetBitAt never throw on one.
pub set_bit-position :
    (m : ℕ) (f : FaultBit)
    → (set_bit 64 m (pos (position f)) true ≡ ok (set_bit_at m f))
      × (set_bit 64 m (pos (position f)) false ≡ ok (unset_bit_at m f))
unfolding set_bit set_bit_at unset_bit_at
set_bit-position m f = ground (arith, position-lt f)

pub bit-set_bit_at :
    (m : ℕ) (f : FaultBit) (i : ℕ)
    → i < 64
    → bit (set_bit_at m f) i ≡ ((position f == i) || bit m i)
unfolding set_bit_at
bit-set_bit_at m f i h = bit-write_bit 64 m (position f) true i h ∙ ground arith

pub bit-unset_bit_at :
    (m : ℕ) (f : FaultBit) (i : ℕ)
    → i < 64
    → bit (unset_bit_at m f) i ≡ (if position f == i then false else bit m i)
unfolding unset_bit_at
bit-unset_bit_at m f i h = bit-write_bit 64 m (position f) false i h

pub bit-set_all :
    (m : ℕ) (fs : List FaultBit) (i : ℕ)
    → i < 64
    → bit (set_all m fs) i ≡ (bit m i || any (λ f. position f == i) fs)
unfolding set_all
bit-set_all m [] i h = ground arith
bit-set_all m (f ∷ fs) i h =
    ground (arith, bit-set_all (set_bit_at m f) fs i h, bit-set_bit_at m f i h)
