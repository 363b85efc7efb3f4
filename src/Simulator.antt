-- ===== src/Simulator.antt =====
-- The simulated power supplies, simulator/SimPowerSubsystem.cpp. Times are nanoseconds. A voltage is
-- exact: it counts parts of a millivolt, `parts` of them, so that what the voltage changes in a
-- nanosecond is a whole number. A current counts parts of a milliampere.
pub mod Laws
pub mod Rises
pub mod Falls
pub mod SimCore
use ts_m2cellcpp.Prelude.{
  ℕ, ◌+◌, ◌-◌, ◌*◌, ◌/◌, ◌^◌, Bool, true, false, not, ◌&&◌, ltb, bit_and, ◌==◌, xor, List, [], ◌∷◌,
  if◌then◌else◌,
}
use ts_m2cellcpp.Faultmgr.FaultStatusBits.{write_bit}
use ts_m2cellcpp.Control.Ports.{OutputBit, InputBit, input_pos, get_output, write_output}
use ts_m2cellcpp.Control.PowerSubsystemConfig.{
  PowerSubsystemConfig, output_on_max_delay, output_off_max_delay,
}

-- _setup.
abbrev pub parts : PowerSubsystemConfig → ℕ
parts c = 10 * (output_on_max_delay c * output_off_max_delay c)

abbrev pub voltage_nominal : PowerSubsystemConfig → ℕ
voltage_nominal c = c.nominal_voltage * parts c

-- 1.3 times the nominal voltage, over the delay.
abbrev pub voltage_change_rate_on : PowerSubsystemConfig → ℕ
voltage_change_rate_on c = 13 * c.nominal_voltage * output_off_max_delay c

abbrev pub voltage_change_rate_off : PowerSubsystemConfig → ℕ
voltage_change_rate_off c = 13 * c.nominal_voltage * output_on_max_delay c

-- The parts of a milliampere: the current at the nominal voltage is 0.75 of the greatest one.
abbrev pub current_parts : PowerSubsystemConfig → ℕ
current_parts c = 100 * voltage_nominal c

abbrev pub current_gain : PowerSubsystemConfig → ℕ
current_gain c = 75 * c.max_current

abbrev pub breaker_close_time : PowerSubsystemConfig → ℕ
breaker_close_time c = c.breaker_on_time / 2

pub record SimPowerSubsystem : Type 0 where
  pub psc : PowerSubsystemConfig
  pub breaker_bit_positions : List InputBit
  pub output_port : ℕ
  pub input_port : ℕ
  pub voltage : ℕ
  pub current : ℕ
  pub breaker_closed : Bool
  pub breaker_closed_prev : Bool
  pub breaker_closed_targ : Bool
  pub breaker_closed_targ_ts : ℕ
  pub over_voltage : Bool
  pub over_current : Bool

unfoldable pub sim_power_subsystem :
    PowerSubsystemConfig → List InputBit → ℕ → ℕ → SimPowerSubsystem
sim_power_subsystem c positions output input = record {
  psc = c;
  breaker_bit_positions = positions;
  output_port = output;
  input_port = input;
  voltage = 0;
  current = 0;
  breaker_closed = true;
  breaker_closed_prev = false;
  breaker_closed_targ = true;
  breaker_closed_targ_ts = 0;
  over_voltage = false;
  over_current = false;
}

unfoldable pub get_power_on : SimPowerSubsystem → Bool
get_power_on s = get_output s.output_port s.psc.output_power_on_bit_pos

-- The loop that writes the bits of the breakers.
unfoldable pub write_breakers : List InputBit → Bool → ℕ → ℕ
write_breakers [] closed port = port
write_breakers (b ∷ bs) closed port =
    write_breakers bs closed (write_bit 32 port (input_pos b) closed)

-- The first part of calcBreakers: a new target, with its time.
unfoldable pub target_breakers : ℕ → SimPowerSubsystem → SimPowerSubsystem
target_breakers ts s =
    let new = get_output s.output_port s.psc.output_breaker_bit_pos in
    if xor new s.breaker_closed_targ
    then record s { breaker_closed_targ_ts = ts; breaker_closed_targ = new }
    else s

-- The breaker opens at once, and closes when the time has passed.
unfoldable pub move_breakers : ℕ → SimPowerSubsystem → SimPowerSubsystem
move_breakers ts s =
    let time_diff = ts - s.breaker_closed_targ_ts in
    record s {
      breaker_closed =
          if s.breaker_closed
          then s.breaker_closed_targ
          else s.breaker_closed_targ && ltb (breaker_close_time s.psc) time_diff;
    }

unfoldable pub show_breakers : SimPowerSubsystem → SimPowerSubsystem
show_breakers s =
    if xor s.breaker_closed s.breaker_closed_prev
    then record s {
      breaker_closed_prev = s.breaker_closed;
      input_port = write_breakers s.breaker_bit_positions s.breaker_closed s.input_port;
    }
    else s

unfoldable pub calc_breakers : ℕ → SimPowerSubsystem → SimPowerSubsystem
calc_breakers ts s = show_breakers (move_breakers ts (target_breakers ts s))

-- The voltage while the power is on, towards `nom`, and while it is off.
unfoldable pub rise : ℕ → ℕ → ℕ → ℕ
rise nom change v =
    let raised = if ltb v nom then (if ltb nom (v + change) then nom else v + change) else v in
    if ltb nom raised then nom else raised

unfoldable pub fall : ℕ → ℕ → ℕ
fall change v = if ltb 0 v then v - change else v

abbrev pub volt_nom : SimPowerSubsystem → ℕ
volt_nom s = if s.over_voltage then voltage_nominal s.psc * 10 else voltage_nominal s.psc

unfoldable pub calc_voltage : ℕ → SimPowerSubsystem → ℕ
calc_voltage time_diff s =
    if get_power_on s
    then rise (volt_nom s) (voltage_change_rate_on s.psc * time_diff) s.voltage
    else fall (voltage_change_rate_off s.psc * time_diff) s.voltage

unfoldable pub calc_current : SimPowerSubsystem → ℕ
calc_current s =
    let normal = s.voltage * current_gain s.psc in
    if s.breaker_closed then (if s.over_current then normal * 10 else normal) else 0

unfoldable pub calc_voltage_current : ℕ → SimPowerSubsystem → SimPowerSubsystem
calc_voltage_current time_diff s =
    let changed = record s { voltage = calc_voltage time_diff s } in
    record changed { current = calc_current changed }

unfoldable pub force_over_voltage : Bool → SimPowerSubsystem → SimPowerSubsystem
force_over_voltage over s = record s { over_voltage = over }

unfoldable pub force_over_current : Bool → SimPowerSubsystem → SimPowerSubsystem
force_over_current over s = record s { over_current = over }

-- The readings in thousandths, rounded down.
unfoldable pub get_voltage : SimPowerSubsystem → ℕ
get_voltage s = s.voltage / parts s.psc

unfoldable pub get_current : SimPowerSubsystem → ℕ
get_current s = s.current / current_parts s.psc

-- One turn of SimCore's loop for a subsystem: the outputs that were set, then both calculations.
unfoldable pub sim_turn : ℕ → ℕ → ℕ → SimPowerSubsystem → SimPowerSubsystem
sim_turn ts time_diff output s =
    calc_voltage_current time_diff (calc_breakers ts (record s { output_port = output }))

-- The turns, each with its time since the one before.
unfoldable pub sim_turns : ℕ → List (ℕ × ℕ) → SimPowerSubsystem → SimPowerSubsystem
sim_turns ts [] s = s
sim_turns ts ((time_diff, output) ∷ rest) s =
    sim_turns (ts + time_diff) rest (sim_turn (ts + time_diff) time_diff output s)
