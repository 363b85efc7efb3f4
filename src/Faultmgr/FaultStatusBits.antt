-- ===== src/Faultmgr/FaultStatusBits.antt =====
-- The fault bitmap of faultmgr/FaultStatusBits.cpp: the writes of one bit at each width, and the
-- reads through a mask. A bitmap is the number that its word holds.
pub mod Laws
use ts_m2cellcpp.Prelude.{
  ℕ, ◌^◌, bit_and, bit_or, complement, Bool, leb, if◌then◌else◌, ℤ, pos, negsuc, Result, ok, err,
  range_error, List, [], ◌∷◌,
}
use ts_m2cellcpp.Faultmgr.FaultBit.{FaultBit, position}

-- The body of setBit64, setBit32 and setBit8 on a word of `w` bits, once `pos` is in range.
unfoldable pub write_bit : ℕ → ℕ → ℕ → Bool → ℕ
write_bit w bitmap p set =
    let bit = 2 ^ p in if set then bit_or bitmap bit else bit_and bitmap (complement w bit)

unfoldable pub set_bit : ℕ → ℕ → ℤ → Bool → Result ℕ
set_bit w bitmap (pos p) set = if leb w p then err range_error else ok (write_bit w bitmap p set)
set_bit w bitmap (negsuc n) set = err range_error

abbrev pub set_bit64 : ℕ → ℤ → Bool → Result ℕ
set_bit64 = set_bit 64

abbrev pub set_bit32 : ℕ → ℤ → Bool → Result ℕ
set_bit32 = set_bit 32

abbrev pub set_bit8 : ℕ → ℤ → Bool → Result ℕ
set_bit8 = set_bit 8

-- setBitAt and unsetBitAt on an enumerator, which is always in range.
unfoldable pub set_bit_at : ℕ → FaultBit → ℕ
unfolding write_bit
set_bit_at bitmap fault = write_bit 64 bitmap (position fault) Bool.true

unfoldable pub unset_bit_at : ℕ → FaultBit → ℕ
unfolding write_bit
unset_bit_at bitmap fault = write_bit 64 bitmap (position fault) Bool.false

abbrev pub get_bits_set_in_mask : ℕ → ℕ → ℕ
get_bits_set_in_mask bitmap mask = bit_and bitmap mask

abbrev pub get_bits_set_out_of_mask : ℕ → ℕ → ℕ
get_bits_set_out_of_mask bitmap mask = bit_and bitmap (complement 64 mask)

-- The result is the bit in its place, not 0 or 1.
unfoldable pub get_bit : ℕ → ℤ → ℕ
get_bit bitmap (pos p) = if leb 64 p then 0 else get_bits_set_in_mask bitmap (2 ^ p)
get_bit bitmap (negsuc n) = 0

-- A run of setBitAt calls.
unfoldable pub set_all : ℕ → List FaultBit → ℕ
unfolding set_bit_at
set_all bitmap [] = bitmap
set_all bitmap (fault ∷ faults) = set_all (set_bit_at bitmap fault) faults
