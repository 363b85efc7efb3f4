-- ===== src/Control/PowerSystem.antt =====
-- PowerSystem of control/PowerSystem.cpp: the two power subsystems on one output port, the two
-- commands, and the health of the power supplies. The reads of the DAQ, which report to the model
-- and to the fault manager, stand in System.
pub mod Both
pub mod Order
use ts_m2cellcpp.Prelude.{ℕ, Bool, true, false, not, ◌&&◌, ◌||◌, if◌then◌else◌}
use ts_m2cellcpp.Faultmgr.FaultBit.{power_supply_load_share_err, power_health_fault}
use ts_m2cellcpp.Faultmgr.FaultStatusBits.{set_bit_at}
use ts_m2cellcpp.Faultmgr.FaultMgr.{FaultMgr}
use ts_m2cellcpp.Control.Defs.{SysInfo, off, on, state_eq}
use ts_m2cellcpp.Control.Ports.{
  get_input, redundancy_ok, load_distribution_ok, power_supply_1_dc_ok, power_supply_2_dc_ok,
  power_supply_1_current_ok, power_supply_2_current_ok, crio_interlock_enable, write_output,
  motor_power_on, ilc_comm_power_on,
}
use ts_m2cellcpp.Control.PowerSubsystemConfig.{setup_motor, setup_comm}
use ts_m2cellcpp.Control.PowerSubsystem.{
  PowerSubsystem, Drive, set_power_off, set_power_on, power_subsystem,
}

pub record PowerSystem : Type 0 where
  pub port : ℕ
  pub motor : PowerSubsystem
  pub comm : PowerSubsystem
  pub daq_read_time : ℕ
  pub boost_current_fault_enabled : Bool

-- A subsystem with the port and the word of faults, and back.
abbrev pub motor_drive : ℕ → PowerSystem → Drive
motor_drive w p = record { port = p.port; faults_set = w; sub = p.motor }

abbrev pub comm_drive : ℕ → PowerSystem → Drive
comm_drive w p = record { port = p.port; faults_set = w; sub = p.comm }

abbrev pub put_motor : Drive → PowerSystem → PowerSystem
put_motor d p = record p { port = d.port; motor = d.sub }

abbrev pub put_comm : Drive → PowerSystem → PowerSystem
put_comm d p = record p { port = d.port; comm = d.sub }

-- The constructor, on the port as it is.
unfoldable pub power_system : ℕ → SysInfo → ℕ → PowerSystem
power_system now info port =
    let motor_off = power_subsystem now setup_motor info port in
    let comm_off = power_subsystem now setup_comm info motor_off.port in
    record {
      port = comm_off.port;
      motor = motor_off.sub;
      comm = comm_off.sub;
      daq_read_time = now;
      boost_current_fault_enabled = true;
    }

unfoldable pub motor_power_off : ℕ → PowerSystem → PowerSystem
motor_power_off now p = put_motor (set_power_off now (motor_drive 0 p)) p

unfoldable pub comm_power_off : ℕ → PowerSystem → PowerSystem
comm_power_off now p = put_comm (set_power_off now (comm_drive 0 p)) p

unfoldable pub write_crio_interlock_enable : Bool → PowerSystem → PowerSystem
write_crio_interlock_enable set p = record p {
  port = write_output p.port crio_interlock_enable set;
}

-- FpgaIo::_emergencyTurnOffAllPower, which knows of the port only.
unfoldable pub emergency_turn_off_all_power : ℕ → ℕ
emergency_turn_off_all_power port =
    write_output (write_output port motor_power_on false) ilc_comm_power_on false

unfoldable pub power_motor : ℕ → FaultMgr → Bool → PowerSystem → PowerSystem × Bool
power_motor now f on_wanted p =
    let (d, answer) = set_power_on now f (motor_drive 0 p) in
    if on_wanted && not (state_eq p.comm.actual_power_state on)
    then (p, false)
    else if on_wanted
    then (put_motor d p, answer)
    else (motor_power_off now p, true)

unfoldable pub power_comm : ℕ → FaultMgr → Bool → PowerSystem → PowerSystem × Bool
power_comm now f on_wanted p =
    let p1 =
      if not on_wanted && not (state_eq p.motor.actual_power_state off)
      then motor_power_off now p
      else p in
    let (d, answer) = set_power_on now f (comm_drive 0 p1) in
    if on_wanted then (put_comm d p1, answer) else (comm_power_off now p1, true)

-- _processDaqHealthTelemetry, on the word of current faults.
unfoldable pub process_daq_health_telemetry : Bool → SysInfo → ℕ → ℕ
process_daq_health_telemetry boost_enabled info current_faults =
    let power_load_ok =
      get_input info.input_port redundancy_ok && get_input info.input_port load_distribution_ok in
    let boost_on =
      not (get_input info.input_port power_supply_1_current_ok)
      || not (get_input info.input_port power_supply_2_current_ok) in
    let all_dc_ok =
      get_input info.input_port power_supply_1_dc_ok
      && get_input info.input_port power_supply_2_dc_ok in
    let power_supply_ok = all_dc_ok && not (boost_enabled && boost_on) in
    let loaded =
      if not power_load_ok
      then set_bit_at current_faults power_supply_load_share_err
      else current_faults in
    if not power_supply_ok then set_bit_at loaded power_health_fault else loaded
