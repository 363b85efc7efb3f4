-- ===== src/Control/Ports/Laws.antt =====
-- What the port accessors mean bit by bit.
use ts_m2cellcpp.Prelude.{
  ℕ, ◌^◌, ◌<◌, ◌≡◌, Bool, true, not, ◌==◌, Bool_ext, if◌then◌else◌, bit, bit_and, bit-bit_and,
  bit-pow, nonzero-bit, nonzero_of_bit, arith,
}
use ts_m2cellcpp.Faultmgr.FaultStatusBits.Laws.{bit-write_bit}
use ts_m2cellcpp.Control.Ports.{
  OutputBit, motor_power_on, output_pos, get_output, write_output, output_bit_at_pos,
}

-- The test `bitmap & (1 << pos)`.
pub mask_test : (m p : ℕ) → not (bit_and m (2 ^ p) == 0) ≡ bit m p
mask_test m p =
    Bool_ext _ _
      (λ h.
        let (i, e) = nonzero-bit (bit_and m (2 ^ p)) (ground arith) in
        let low : (p == i) ≡ true = ground (arith, bit-bit_and m (2 ^ p) i, bit-pow p i) in
        ground (arith, bit-bit_and m (2 ^ p) i))
      (λ h.
        ground (arith, bit-bit_and m (2 ^ p) p, bit-pow p p, nonzero_of_bit (bit_and m (2 ^ p)) p))

pub output_pos-lt : (b : OutputBit) → output_pos b < 8
output_pos-lt motor_power_on = omega arith
output_pos-lt _ = omega arith

pub get_output-bit : (port : ℕ) (b : OutputBit) → get_output port b ≡ bit port (output_pos b)
unfolding get_output output_bit_at_pos
get_output-bit port b = ground (arith, output_pos-lt b, mask_test port (output_pos b))

-- A write of an output is seen by a read of the same output, and by no other.
pub get_output-write_output :
    (port : ℕ) (b c : OutputBit) (set : Bool)
    → get_output (write_output port b set) c
      ≡ (if output_pos b == output_pos c then set else get_output port c)
unfolding write_output
get_output-write_output port b c set = ground (
  arith,
  get_output-bit (write_output port b set) c,
  get_output-bit port c,
  bit-write_bit 8 port (output_pos b) set (output_pos c),
  output_pos-lt c,
)
