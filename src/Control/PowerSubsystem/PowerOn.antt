-- ===== src/Control/PowerSubsystem/PowerOn.antt =====
-- _processPowerOn of control/PowerSubsystem.cpp, one function for each case of its switch.
use ts_m2cellcpp.Prelude.{
  ℕ, ◌+◌, ◌-◌, ◌*◌, Bool, true, false, not, ◌&&◌, ◌==◌, ltb, leb, if◌then◌else◌,
}
use ts_m2cellcpp.Faultmgr.FaultBit.{hardware_fault}
use ts_m2cellcpp.Control.Defs.{
  SysStatus, fault, good, status_value, PowerState, unknown, turning_on, reset, on,
}
use ts_m2cellcpp.Control.Ports.{write_output}
use ts_m2cellcpp.Control.Breakers.{check_breakers}
use ts_m2cellcpp.Control.PowerSubsystemConfig.{
  min_voltage_warn, max_voltage_warn, min_voltage_fault, max_voltage_fault, output_on_max_delay,
}
use ts_m2cellcpp.Control.PowerSubsystem.{
  Drive, get_voltage, get_current, set_fault, power_should_be_on, set_power_off,
}

-- PowerSubsystemConfig::checkBreakers on the information last read; the group is never null.
abbrev pub breaker_status : Drive → SysStatus
breaker_status d = (check_breakers d.sub.sys_info.input_port d.sub.ps_cfg.breaker_feed_group).0

abbrev pub set_breaker_output : Bool → Drive → Drive
set_breaker_output v d = record d {
  port = write_output d.port d.sub.ps_cfg.output_breaker_bit_pos v;
}

unfoldable pub update_faults : ℕ → Drive → Drive
update_faults now d =
    set_power_off now (set_fault hardware_fault (set_fault d.sub.ps_cfg.voltage_fault d))

-- The result is true when there is a fault, which has then turned the power off.
unfoldable pub check_for_power_on_breaker_fault : ℕ → Drive → Drive × Bool
check_for_power_on_breaker_fault now d =
    let status = status_value (breaker_status d) in
    if leb d.sub.ps_cfg.breaker_operating_voltage (get_voltage d.sub)
    then (if status == status_value good
        then (d, false)
        else if leb status (status_value fault)
        then (set_power_off now (set_fault d.sub.ps_cfg.breaker_fault d), true)
        else (set_fault d.sub.ps_cfg.breaker_warn d, false))
    else (update_faults now d, true)

-- case ON, phase 2: the voltage is watched.
unfoldable pub watch_voltage : ℕ → Drive → Drive
watch_voltage now d =
    let voltage = get_voltage d.sub in
    let d1 =
      if ltb voltage (min_voltage_warn d.sub.ps_cfg)
      then set_fault d.sub.ps_cfg.voltage_warn d
      else d in
    if ltb voltage (min_voltage_fault d.sub.ps_cfg)
    then set_power_off now (set_fault d.sub.ps_cfg.voltage_fault d1)
    else d1

-- case ON, from the phases on. The rise time stands on the other side of the comparison: the code
-- subtracts it from the settling time, and the difference is negative.
unfoldable pub process_on_phase : ℕ → Drive → Drive
process_on_phase now d =
    let c = d.sub.ps_cfg in
    let since = now - d.sub.phase_start_time in
    if leb d.sub.phase 1
    then (if ltb c.voltage_settling_time (since + c.breaker_operating_voltage_rise_time)
        then record d { sub = record (d.sub) { phase = 2; phase_start_time = now } }
        else d)
    else if d.sub.phase == 2
    then watch_voltage now d
    else d

-- case ON.
unfoldable pub process_on : ℕ → Bool → Drive → Drive
process_on now output_is_on d =
    let (d1, breaker_fault) = check_for_power_on_breaker_fault now d in
    if not output_is_on
    then set_power_off now d
    else if breaker_fault
    then set_power_off now d1
    else process_on_phase now d1

-- case TURNING_ON, phase 1: the count of the reads.
unfoldable pub count_telemetry : ℕ → Drive → Drive
count_telemetry now d =
    let counter = d.sub.telem_counter + 1 in
    if d.sub.phase == 1
    then (if leb 10 counter
        then record d {
          sub = record (d.sub) { telem_counter = counter; phase = 2; phase_start_time = now };
        }
        else record d { sub = record (d.sub) { telem_counter = counter } })
    else d

-- case TURNING_ON, phase 3: the breakers decide.
unfoldable pub finish_turning_on : ℕ → Drive → Drive
finish_turning_on now d =
    if ltb (get_voltage d.sub) d.sub.ps_cfg.breaker_operating_voltage
    then update_faults now d
    else if status_value (breaker_status d) == status_value good
    then record d {
      sub = record (d.sub) { actual_power_state = on; phase = 1; phase_start_time = now };
    }
    else set_breaker_output false (record d {
      sub = record (d.sub) { actual_power_state = reset; phase_start_time = now; phase = 1 };
    })

-- case TURNING_ON. The time in the phase is taken before the phase moves.
unfoldable pub process_turning_on : ℕ → Bool → Drive → Drive
process_turning_on now output_is_on d =
    let since = now - d.sub.phase_start_time in
    let d1 = count_telemetry now d in
    let d2 = record d1 { sub = record (d1.sub) { phase = 3; phase_start_time = now } } in
    if ltb 1 d1.sub.phase && not output_is_on
    then set_power_off now d1
    else if d1.sub.phase == 2
    then (if ltb (output_on_max_delay d.sub.ps_cfg) since then finish_turning_on now d2 else d1)
    else if leb 3 d1.sub.phase
    then finish_turning_on now d1
    else d1

-- case RESET.
unfoldable pub process_reset : ℕ → Bool → Drive → Drive
process_reset now output_is_on d =
    let since = now - d.sub.phase_start_time in
    let width = d.sub.ps_cfg.reset_breaker_pulse_width in
    let d1 = set_breaker_output true d in
    let (d2, breaker_fault) = check_for_power_on_breaker_fault now d1 in
    if not output_is_on
    then set_power_off now d1
    else if ltb (get_voltage d.sub) d.sub.ps_cfg.breaker_operating_voltage
    then update_faults now d
    else if ltb width since
    then (if ltb (width * 2) since
        then (if breaker_fault then d2 else record d2 {
          sub = record (d2.sub) { actual_power_state = on; phase_start_time = now };
        })
        else d1)
    else d

-- The switch on the actual state; OFF and TURNING_OFF fall through to TURNING_ON.
unfoldable pub process_actual : ℕ → Bool → PowerState → Drive → Drive
process_actual now output_is_on on d = process_on now output_is_on d
process_actual now output_is_on turning_on d = process_turning_on now output_is_on d
process_actual now output_is_on reset d = process_reset now output_is_on d
process_actual now output_is_on unknown d = set_power_off now d
process_actual now output_is_on _ d = process_turning_on now output_is_on (record d {
  sub = record (d.sub) { actual_power_state = turning_on; phase = 1; phase_start_time = now };
})

-- The tests before the switch.
unfoldable pub process_power_on : ℕ → Drive → Drive
process_power_on now d =
    let (d1, output_is_on) = power_should_be_on d in
    let c = d.sub.ps_cfg in
    let voltage = get_voltage d.sub in
    let d2 = if ltb (max_voltage_warn c) voltage then set_fault c.voltage_warn d1 else d1 in
    if ltb (max_voltage_fault c) voltage
    then set_power_off now (set_fault c.voltage_fault d1)
    else if ltb c.max_current (get_current d.sub)
    then set_power_off now (set_fault c.excessive_current d2)
    else process_actual now output_is_on d.sub.actual_power_state d2
