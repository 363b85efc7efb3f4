-- ===== src/Simulator/SimCore.antt =====
-- The simulator of the FPGA, simulator/SimCore.cpp: both supplies on one output port and one input
-- port. One turn of its loop is one step.
use ts_m2cellcpp.Prelude.{ℕ, ◌+◌, ◌-◌, ◌%◌, ◌^◌, Bool, true, List, [], ◌∷◌, ℤ, Result, ok, err}
use ts_m2cellcpp.Faultmgr.FaultStatusBits.{write_bit}
use ts_m2cellcpp.Control.Defs.{SysInfo}
use ts_m2cellcpp.Control.Ports.{
  InputBit, input_pos, output_write_bit, redundancy_ok, load_distribution_ok, power_supply_1_dc_ok,
  power_supply_2_dc_ok, power_supply_1_current_ok, power_supply_2_current_ok,
  j1_w9_1_mtr_pwr_brkr_ok, j1_w9_2_mtr_pwr_brkr_ok, j1_w9_3_mtr_pwr_brkr_ok,
  j2_w10_1_mtr_pwr_brkr_ok, j2_w10_2_mtr_pwr_brkr_ok, j2_w10_3_mtr_pwr_brkr_ok,
  j3_w11_1_mtr_pwr_brkr_ok, j3_w11_2_mtr_pwr_brkr_ok, j3_w11_3_mtr_pwr_brkr_ok,
  j1_w12_1_comm_pwr_brkr_ok, j1_w12_2_comm_pwr_brkr_ok, j2_w13_1_comm_pwr_brkr_ok,
  j2_w13_2_comm_pwr_brkr_ok, j3_w14_1_comm_pwr_brkr_ok, j3_w14_2_comm_pwr_brkr_ok,
}
use ts_m2cellcpp.Control.PowerSubsystemConfig.{setup_motor, setup_comm}
use ts_m2cellcpp.Simulator.{
  SimPowerSubsystem, sim_power_subsystem, get_voltage, get_current, sim_turn,
}

pub record SimCore : Type 0 where
  pub output_port : ℕ
  pub input_port : ℕ
  pub motor_sub : SimPowerSubsystem
  pub comm_sub : SimPowerSubsystem
  pub new_output : ℕ
  pub sim_info : SysInfo
  pub iterations : ℕ
  pub prev_time_stamp : ℕ

abbrev pub motor_breaker_in_bits : List InputBit
motor_breaker_in_bits =
    j1_w9_1_mtr_pwr_brkr_ok ∷ j1_w9_2_mtr_pwr_brkr_ok ∷ j1_w9_3_mtr_pwr_brkr_ok
    ∷ j2_w10_1_mtr_pwr_brkr_ok ∷ j2_w10_2_mtr_pwr_brkr_ok ∷ j2_w10_3_mtr_pwr_brkr_ok
    ∷ j3_w11_1_mtr_pwr_brkr_ok ∷ j3_w11_2_mtr_pwr_brkr_ok ∷ j3_w11_3_mtr_pwr_brkr_ok ∷ []

abbrev pub comm_breaker_in_bits : List InputBit
comm_breaker_in_bits =
    j1_w12_1_comm_pwr_brkr_ok ∷ j1_w12_2_comm_pwr_brkr_ok ∷ j2_w13_1_comm_pwr_brkr_ok
    ∷ j2_w13_2_comm_pwr_brkr_ok ∷ j3_w14_1_comm_pwr_brkr_ok ∷ j3_w14_2_comm_pwr_brkr_ok ∷ []

abbrev pub set_bits : List InputBit → ℕ → ℕ
set_bits [] port = port
set_bits (b ∷ bs) port = set_bits bs (write_bit 32 port (input_pos b) true)

-- The bits of the input port that are normally high.
abbrev pub normal_input : ℕ
normal_input =
    set_bits
      (redundancy_ok ∷ load_distribution_ok ∷ power_supply_1_dc_ok ∷ power_supply_2_dc_ok
        ∷ power_supply_1_current_ok ∷ power_supply_2_current_ok ∷ [])
      0

-- The constructor and `start`, at its time; the members of SysInfo have no initial values.
unfoldable pub sim_core : ℕ → SysInfo → SimCore
sim_core now info = record {
  output_port = 0;
  input_port = normal_input;
  motor_sub = sim_power_subsystem setup_motor motor_breaker_in_bits 0 0;
  comm_sub = sim_power_subsystem setup_comm comm_breaker_in_bits 0 0;
  new_output = 0;
  sim_info = info;
  iterations = 0;
  prev_time_stamp = now;
}

-- A supply writes the input port that it shares.
abbrev pub on_input : ℕ → SimPowerSubsystem → SimPowerSubsystem
on_input port s = record s { input_port = port }

-- One turn of _simRun.
unfoldable pub sim_run : ℕ → SimCore → SimCore
sim_run ts s =
    let time_diff = ts - s.prev_time_stamp in
    let motor = sim_turn ts time_diff s.new_output (on_input s.input_port s.motor_sub) in
    let comm = sim_turn ts time_diff s.new_output (on_input motor.input_port s.comm_sub) in
    record {
      output_port = s.new_output;
      input_port = comm.input_port;
      motor_sub = motor;
      comm_sub = comm;
      new_output = s.new_output;
      sim_info = record {
        output_port = s.new_output;
        input_port = comm.input_port;
        motor_voltage = get_voltage motor;
        motor_current = get_current motor;
        motor_breaker_closed = motor.breaker_closed;
        comm_voltage = get_voltage comm;
        comm_current = get_current comm;
        comm_breaker_closed = comm.breaker_closed;
        iterations = s.iterations;
        timestamp = ts;
      };
      iterations = (s.iterations + 1) % 2 ^ 64;
      prev_time_stamp = ts;
    }

abbrev put_output : Result ℕ → SimCore → Result SimCore
put_output (ok port) s = ok (record s { new_output = port })
put_output (err e) s = err e

unfoldable pub write_new_output_port_bit : ℤ → Bool → SimCore → Result SimCore
write_new_output_port_bit bit set s = put_output (output_write_bit s.new_output bit set) s

unfoldable pub set_new_output_port : ℕ → SimCore → SimCore
set_new_output_port output s = record s { new_output = output }

abbrev pub get_sys_info : SimCore → SysInfo
get_sys_info s = s.sim_info
