-- ===== src/Control/PowerSubsystem/PowerOff.antt =====
-- _processPowerOff of control/PowerSubsystem.cpp.
use ts_m2cellcpp.Prelude.{ℕ, ◌-◌, ltb, if◌then◌else◌}
use ts_m2cellcpp.Control.Defs.{PowerState, off, turning_off}
use ts_m2cellcpp.Control.PowerSubsystemConfig.{output_off_max_delay}
use ts_m2cellcpp.Control.PowerSubsystem.{
  Drive, get_voltage, get_relay_control_output_on, set_fault, set_power_off,
}

-- case TURNING_OFF.
unfoldable pub process_turning_off : ℕ → Drive → Drive
process_turning_off now d =
    let c = d.sub.ps_cfg in
    if ltb (get_voltage d.sub) c.voltage_off_level
    then record d { sub = record (d.sub) { actual_power_state = off; phase_start_time = now } }
    else if ltb (output_off_max_delay c) (now - d.sub.phase_start_time)
    then set_power_off now (set_fault c.relay_in_use (set_fault c.relay_fault d))
    else d

-- The switch: every state but OFF falls through to TURNING_OFF.
unfoldable pub process_not_off : ℕ → PowerState → Drive → Drive
process_not_off now off d = d
process_not_off now turning_off d = process_turning_off now d
process_not_off now _ d =
    let d1 = set_power_off now d in
    process_turning_off now (record d1 { sub = record (d1.sub) { phase_start_time = now } })

unfoldable pub process_power_off : ℕ → Drive → Drive
process_power_off now d =
    if get_relay_control_output_on d.sub
    then set_power_off now d
    else process_not_off now d.sub.actual_power_state d
