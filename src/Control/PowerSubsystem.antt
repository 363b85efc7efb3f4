-- ===== src/Control/PowerSubsystem.antt =====
-- PowerSubsystem of control/PowerSubsystem.cpp: its state, what it reads of the ports, and the two
-- switches. A member function takes the time where it reads the clock, and works on `Drive`: the
-- subsystem with what it writes elsewhere.
pub mod PowerOn
pub mod PowerOff
pub mod Daq
pub mod Kept
pub mod Switch
pub mod Invariant
pub mod Faults
pub mod Startup
use ts_m2cellcpp.Prelude.{ℕ, Bool, true, false, ◌&&◌, not, if◌then◌else◌}
use ts_m2cellcpp.Faultmgr.FaultBit.{FaultBit, interlock_fault}
use ts_m2cellcpp.Faultmgr.FaultStatusBits.{set_bit_at, unset_bit_at}
use ts_m2cellcpp.Faultmgr.FaultMgr.{FaultMgr, check_for_power_subsystem_faults}
use ts_m2cellcpp.Control.Defs.{
  SysInfo, PowerSystemType, motor, comm, unknownpowersystem, PowerState, unknown, off, on, state_eq,
}
use ts_m2cellcpp.Control.Ports.{
  crio_interlock_enable, get_output, write_output, interlock_power_relay, get_input,
}
use ts_m2cellcpp.Control.PowerSubsystemConfig.{PowerSubsystemConfig}

pub record PowerSubsystem : Type 0 where
  pub ps_cfg : PowerSubsystemConfig
  pub sys_info : SysInfo
  pub power_on_start : ℕ
  pub power_off_start : ℕ
  pub phase : ℕ
  pub phase_start_time : ℕ
  pub telem_counter : ℕ
  pub targ_power_state : PowerState
  pub actual_power_state : PowerState
  pub targ_power_state_prev : PowerState
  pub actual_power_state_prev : PowerState

-- `port` is the output port of FpgaIo, and `faults_set` the word that a caller collects faults in.
pub record Drive : Type 0 where
  pub port : ℕ
  pub faults_set : ℕ
  pub sub : PowerSubsystem

-- getVoltage and getCurrent. A subsystem is of type MOTOR or COMM.
unfoldable pub get_voltage : PowerSubsystem → ℕ
get_voltage p = elim (p.ps_cfg.system_type) [
  | motor ↦ p.sys_info.motor_voltage
  | comm ↦ p.sys_info.comm_voltage
  | unknownpowersystem ↦ 0
]

unfoldable pub get_current : PowerSubsystem → ℕ
get_current p = elim (p.ps_cfg.system_type) [
  | motor ↦ p.sys_info.motor_current
  | comm ↦ p.sys_info.comm_current
  | unknownpowersystem ↦ 0
]

unfoldable pub get_relay_control_output_on : PowerSubsystem → Bool
get_relay_control_output_on p = get_output p.sys_info.output_port p.ps_cfg.output_power_on_bit_pos

unfoldable pub get_crio_ready_output_on : PowerSubsystem → Bool
get_crio_ready_output_on p = elim (p.ps_cfg.system_type) [
  | motor ↦ get_output p.sys_info.output_port crio_interlock_enable
  | _ ↦ true
]

-- The input is active low.
unfoldable pub get_interlock_relay_control_output_on : PowerSubsystem → Bool
get_interlock_relay_control_output_on p = elim (p.ps_cfg.system_type) [
  | motor ↦ not (get_input p.sys_info.input_port interlock_power_relay)
  | _ ↦ true
]

abbrev pub set_fault : FaultBit → Drive → Drive
set_fault b d = record d { faults_set = set_bit_at d.faults_set b }

unfoldable pub power_should_be_on : Drive → Drive × Bool
power_should_be_on d =
    if get_relay_control_output_on d.sub && get_crio_ready_output_on d.sub
    then (if get_interlock_relay_control_output_on d.sub
        then (d, true)
        else (set_fault interlock_fault d, false))
    else (d, false)

unfoldable pub check_for_faults : FaultMgr → PowerSubsystem → Bool
check_for_faults f p =
    check_for_power_subsystem_faults
      (unset_bit_at p.ps_cfg.subsystem_fault_mask p.ps_cfg.breaker_fault) f

unfoldable pub set_power_off : ℕ → Drive → Drive
set_power_off now d =
    let high = write_output d.port d.sub.ps_cfg.output_breaker_bit_pos true in
    let port = write_output high d.sub.ps_cfg.output_power_on_bit_pos false in
    if state_eq d.sub.targ_power_state off then record d { port = port } else record d {
      port = port;
      sub = record (d.sub) {
        targ_power_state = off;
        phase = 1;
        power_off_start = now;
        phase_start_time = now;
      };
    }

unfoldable pub set_power_on : ℕ → FaultMgr → Drive → Drive × Bool
set_power_on now f d =
    let high = write_output d.port d.sub.ps_cfg.output_breaker_bit_pos true in
    if check_for_faults f d.sub
    then (set_power_off now d, false)
    else if not (get_crio_ready_output_on d.sub)
    then (set_power_off now d, false)
    else (
      record d {
        port = write_output high d.sub.ps_cfg.output_power_on_bit_pos true;
        sub = record (d.sub) {
          targ_power_state = on;
          phase = 1;
          power_on_start = now;
          phase_start_time = now;
          telem_counter = 0;
        };
      },
      true,
    )

-- The constructor, on the port as it is; the fields that it leaves unset are given.
unfoldable pub power_subsystem : ℕ → PowerSubsystemConfig → SysInfo → ℕ → Drive
power_subsystem now cfg info port = set_power_off now (record {
  port = port;
  faults_set = 0;
  sub = record {
    ps_cfg = cfg;
    sys_info = info;
    power_on_start = 0;
    power_off_start = 0;
    phase = 1;
    phase_start_time = 0;
    telem_counter = 0;
    targ_power_state = off;
    actual_power_state = unknown;
    targ_power_state_prev = unknown;
    actual_power_state_prev = unknown;
  };
})
