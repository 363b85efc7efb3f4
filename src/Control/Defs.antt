-- ===== src/Control/Defs.antt =====
-- The enumerations of control/control_defs.h and control_defs.cpp, and control/SysInfo.h.
use ts_m2cellcpp.Prelude.{ℕ, Bool, ◌==◌, ℤ, pos}

pub data SysStatus : Type 0 where
  critical fault warn good waiting : SysStatus

-- The value of the enumerator, with 3 added: CRITICAL is -3.
abbrev pub status_value : SysStatus → ℕ
status_value critical = 0
status_value fault = 1
status_value warn = 2
status_value good = 3
status_value waiting = 4

pub data PowerSystemType : Type 0 where
  motor comm unknownpowersystem : PowerSystemType

unfoldable pub int_to_power_system_type : ℤ → PowerSystemType
int_to_power_system_type (pos (ℕ.suc ℕ.zero)) = motor
int_to_power_system_type (pos (ℕ.suc (ℕ.suc ℕ.zero))) = comm
int_to_power_system_type _ = unknownpowersystem

pub data PowerState : Type 0 where
  unknown off turning_on reset on turning_off : PowerState

abbrev pub power_state_value : PowerState → ℕ
power_state_value unknown = 1
power_state_value off = 2
power_state_value turning_on = 3
power_state_value reset = 4
power_state_value on = 5
power_state_value turning_off = 6

-- `==` of the enumeration.
abbrev pub state_eq : PowerState → PowerState → Bool
state_eq a b = power_state_value a == power_state_value b

-- What is read from the FPGA: volts and amperes in thousandths, the time in nanoseconds.
pub record SysInfo : Type 0 where
  pub output_port : ℕ
  pub input_port : ℕ
  pub motor_voltage : ℕ
  pub motor_current : ℕ
  pub motor_breaker_closed : Bool
  pub comm_voltage : ℕ
  pub comm_current : ℕ
  pub comm_breaker_closed : Bool
  pub iterations : ℕ
  pub timestamp : ℕ
