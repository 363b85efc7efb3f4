-- ===== src/Control/PowerSystem/Order.antt =====
-- Comm power comes first and goes last, and what the inputs say of the power supplies.
use ts_m2cellcpp.Prelude.{
  ℕ, ◌<◌, ◌≡◌, ◌≢◌, Bool, true, false, not, ◌&&◌, ◌||◌, ◌==◌, ltb, bit, if_true, arith,
}
use ts_m2cellcpp.Faultmgr.FaultBit.{power_supply_load_share_err, power_health_fault}
use ts_m2cellcpp.Faultmgr.FaultStatusBits.{set_bit_at}
use ts_m2cellcpp.Faultmgr.FaultStatusBits.Laws.{bit-set_bit_at}
use ts_m2cellcpp.Faultmgr.FaultMgr.{FaultMgr}
use ts_m2cellcpp.Control.Defs.{SysInfo, off, on, state_eq}
use ts_m2cellcpp.Control.Ports.{
  OutputBit, output_pos, get_output, write_output, motor_power_on, ilc_comm_power_on, get_input,
  redundancy_ok, load_distribution_ok, power_supply_1_dc_ok, power_supply_2_dc_ok,
  power_supply_1_current_ok, power_supply_2_current_ok,
}
use ts_m2cellcpp.Control.Ports.Laws.{get_output-write_output}
use ts_m2cellcpp.Control.PowerSubsystem.Invariant.{IsOff}
use ts_m2cellcpp.Control.PowerSystem.{
  PowerSystem, motor_power_off, comm_power_off, power_motor, power_comm,
  process_daq_health_telemetry, emergency_turn_off_all_power,
}
use ts_m2cellcpp.Control.PowerSystem.Both.{Both, Configured, comm_power_off-IsOff}

-- Comm first: a command for motor power is refused, and changes nothing, while the actual state of
-- the comm subsystem is not ON.
pub power_motor-refused :
    (now : ℕ) (f : FaultMgr) (p : PowerSystem)
    → p.comm.actual_power_state ≢ on
    → power_motor now f true p ≡ (p, false)
unfolding power_motor
power_motor-refused now f p h = ground arith

-- Comm last: in a power system with the configurations of the two subsystems, a command that turns
-- comm power off while the actual state of the motor subsystem is not OFF turns both off.
pub power_comm-IsOff :
    (now : ℕ) (f : FaultMgr) (p : PowerSystem)
    → Configured p
    → p.motor.actual_power_state ≢ off
    → Both IsOff (power_comm now f false p).0
unfolding power_comm
power_comm-IsOff now f p c h =
    if_true (λ x. Both IsOff (comm_power_off now x)) (not (state_eq p.motor.actual_power_state off))
      (motor_power_off now p) p (ground arith) (comm_power_off-IsOff now p c)

-- Turning all power off in an emergency makes the motor and the comm power output low and leaves
-- every other output as it is.
pub emergency_lem :
    (port : ℕ) (b : OutputBit)
    → get_output (emergency_turn_off_all_power port) b ≡ (ltb 1 (output_pos b) && get_output port b)
unfolding emergency_turn_off_all_power
emergency_lem port b = ground (
  arith,
  get_output-write_output port motor_power_on b false,
  get_output-write_output (write_output port motor_power_on false) ilc_comm_power_on b false,
)

-- Below bit 64, the inputs decide two faults: a load that is not shared, and a supply without its DC output or,
-- where boost currents count, with a boost current; the other faults stay as they were.
pub health_telemetry-bit :
    (boost : Bool) (info : SysInfo) (c i : ℕ)
    → i < 64
    → let up = get_input info.input_port in
      bit (process_daq_health_telemetry boost info c) i ≡ (
        bit c i
        || ((i == 20) && not (up redundancy_ok && up load_distribution_ok))
        || ((i == 16)
            && not (
                (up power_supply_1_dc_ok && up power_supply_2_dc_ok)
                && not (
                    boost
                    && (not (up power_supply_1_current_ok)
                        || not (up power_supply_2_current_ok))))))
unfolding process_daq_health_telemetry
health_telemetry-bit boost info c i lt = ground (
  arith,
  bit-set_bit_at c power_supply_load_share_err i lt,
  bit-set_bit_at c power_health_fault i lt,
  bit-set_bit_at (set_bit_at c power_supply_load_share_err) power_health_fault i lt,
)
