-- ===== src/Control/Ports.antt =====
-- The output and input ports of the FPGA, control/OutputPortBits and control/InputPortBits. A port
-- is the number that its word holds.
pub mod Laws
use ts_m2cellcpp.Prelude.{
  ℕ, ◌^◌, bit_and, Bool, true, false, not, ◌==◌, leb, ℤ, pos, negsuc, Result, ok, err,
  if◌then◌else◌,
}
use ts_m2cellcpp.Faultmgr.FaultStatusBits.{write_bit, set_bit}

pub data OutputBit : Type 0 where
  motor_power_on ilc_comm_power_on crio_interlock_enable reset_motor_breakers : OutputBit
  reset_comm_breakers spare_d05 spare_d06 spare_d07 : OutputBit

abbrev pub output_pos : OutputBit → ℕ
output_pos motor_power_on = 0
output_pos ilc_comm_power_on = 1
output_pos crio_interlock_enable = 2
output_pos reset_motor_breakers = 3
output_pos reset_comm_breakers = 4
output_pos spare_d05 = 5
output_pos spare_d06 = 6
output_pos spare_d07 = 7

pub data InputBit : Type 0 where
  redundancy_ok load_distribution_ok power_supply_2_dc_ok power_supply_1_dc_ok : InputBit
  power_supply_2_current_ok power_supply_1_current_ok j1_w9_1_mtr_pwr_brkr_ok : InputBit
  j1_w9_2_mtr_pwr_brkr_ok j1_w9_3_mtr_pwr_brkr_ok j2_w10_1_mtr_pwr_brkr_ok : InputBit
  j2_w10_2_mtr_pwr_brkr_ok j2_w10_3_mtr_pwr_brkr_ok j3_w11_1_mtr_pwr_brkr_ok : InputBit
  j3_w11_2_mtr_pwr_brkr_ok j3_w11_3_mtr_pwr_brkr_ok j1_w12_1_comm_pwr_brkr_ok spare_d16 : InputBit
  spare_d17 spare_d18 spare_d19 spare_d20 spare_d21 spare_d22 spare_d23 : InputBit
  j1_w12_2_comm_pwr_brkr_ok j2_w13_1_comm_pwr_brkr_ok j2_w13_2_comm_pwr_brkr_ok : InputBit
  j3_w14_1_comm_pwr_brkr_ok j3_w14_2_comm_pwr_brkr_ok spare_d29 spare_d30 : InputBit
  interlock_power_relay always_high always_low : InputBit

abbrev pub input_pos : InputBit → ℕ
input_pos redundancy_ok = 0
input_pos load_distribution_ok = 1
input_pos power_supply_2_dc_ok = 2
input_pos power_supply_1_dc_ok = 3
input_pos power_supply_2_current_ok = 4
input_pos power_supply_1_current_ok = 5
input_pos j1_w9_1_mtr_pwr_brkr_ok = 6
input_pos j1_w9_2_mtr_pwr_brkr_ok = 7
input_pos j1_w9_3_mtr_pwr_brkr_ok = 8
input_pos j2_w10_1_mtr_pwr_brkr_ok = 9
input_pos j2_w10_2_mtr_pwr_brkr_ok = 10
input_pos j2_w10_3_mtr_pwr_brkr_ok = 11
input_pos j3_w11_1_mtr_pwr_brkr_ok = 12
input_pos j3_w11_2_mtr_pwr_brkr_ok = 13
input_pos j3_w11_3_mtr_pwr_brkr_ok = 14
input_pos j1_w12_1_comm_pwr_brkr_ok = 15
input_pos spare_d16 = 16
input_pos spare_d17 = 17
input_pos spare_d18 = 18
input_pos spare_d19 = 19
input_pos spare_d20 = 20
input_pos spare_d21 = 21
input_pos spare_d22 = 22
input_pos spare_d23 = 23
input_pos j1_w12_2_comm_pwr_brkr_ok = 24
input_pos j2_w13_1_comm_pwr_brkr_ok = 25
input_pos j2_w13_2_comm_pwr_brkr_ok = 26
input_pos j3_w14_1_comm_pwr_brkr_ok = 27
input_pos j3_w14_2_comm_pwr_brkr_ok = 28
input_pos spare_d29 = 29
input_pos spare_d30 = 30
input_pos interlock_power_relay = 31
input_pos always_high = 100000
input_pos always_low = 100001

-- OutputPortBits::getBitAtPos and writeBit at an `int` position.
unfoldable pub output_bit_at_pos : ℕ → ℤ → Bool
output_bit_at_pos port (pos p) = elim (leb 8 p) [
  | true ↦ false
  | false ↦ not (bit_and port (2 ^ p) == 0)
]
output_bit_at_pos port (negsuc n) = false

abbrev pub output_write_bit : ℕ → ℤ → Bool → Result ℕ
output_write_bit = set_bit 8

-- The same at an enumerator, which is in range.
unfoldable pub get_output : ℕ → OutputBit → Bool
unfolding output_bit_at_pos
get_output port b = output_bit_at_pos port (pos (output_pos b))

unfoldable pub write_output : ℕ → OutputBit → Bool → ℕ
write_output port b set = write_bit 8 port (output_pos b) set

-- InputPortBits::getBitAtPos and setBitAtPos.
unfoldable pub input_bit_at_pos : ℕ → ℤ → Bool
input_bit_at_pos port (pos p) = elim (leb 32 p) [
  | true ↦ p == input_pos always_high
  | false ↦ not (bit_and port (2 ^ p) == 0)
]
input_bit_at_pos port (negsuc n) = false

unfoldable pub input_set_bit_at_pos : ℕ → ℤ → Bool → Result ℕ
input_set_bit_at_pos port (pos p) val =
    if p == input_pos always_high
    then ok port
    else if p == input_pos always_low
    then ok port
    else set_bit 32 port (pos p) val
input_set_bit_at_pos port (negsuc n) val = set_bit 32 port (negsuc n) val

unfoldable pub get_input : ℕ → InputBit → Bool
unfolding input_bit_at_pos
get_input port b = input_bit_at_pos port (pos (input_pos b))
