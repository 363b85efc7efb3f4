-- ===== src/System.antt =====
-- The parts together: the fault manager and the model, the reads of the DAQ in
-- control/PowerSystem.cpp, and one function for every event that reaches them. A handler reads the
-- clock once.
pub mod Laws
pub mod Invariants
pub mod Commands
pub mod Built
pub mod Safety
pub mod Connection
pub mod Dark
pub mod Timeout
pub mod Examples
use ts_m2cellcpp.Prelude.{
  ℕ, ◌-◌, Bool, true, false, not, ◌&&◌, ◌==◌, ltb, if◌then◌else◌, List, [], ◌∷◌, ◌≡◌, refl, arith,
}
use ts_m2cellcpp.Faultmgr.FaultBit.{power_system_timeout}
use ts_m2cellcpp.Faultmgr.FaultStatusBits.{set_bit_at}
use ts_m2cellcpp.Faultmgr.BasicFaultMgr.{power_subsystem}
use ts_m2cellcpp.Faultmgr.SafeMode.{SafeMode}
use ts_m2cellcpp.Faultmgr.FaultMgr.{
  FaultMgr, fault_mgr, update_power_faults, report_com_connection_count,
  report_motion_engine_timeout,
}
use ts_m2cellcpp.Control.Defs.{SysInfo, PowerSystemType, off, state_eq}
use ts_m2cellcpp.Control.Ports.{get_output, motor_power_on, ilc_comm_power_on}
use ts_m2cellcpp.Control.PowerSubsystem.{set_power_off}
use ts_m2cellcpp.Control.PowerSubsystem.Daq.{daq_begin, state_changed, daq_end}
use ts_m2cellcpp.Control.PowerSystem.{
  PowerSystem, motor_drive, comm_drive, put_motor, put_comm, motor_power_off, comm_power_off,
  process_daq_health_telemetry, write_crio_interlock_enable,
}
use ts_m2cellcpp.State.StateMap.{StateEnum}
use ts_m2cellcpp.State.Model.{
  Model, model, change_state, go_to_safe_mode, system_shutdown, report_power_system_state_change,
  ctrl_setup, ctrl_start, cmd_power,
}
use ts_m2cellcpp.State.Model.Laws.{go_to_safe_mode_target}

pub record World : Type 0 where
  pub faults : FaultMgr
  pub model : Model

-- Both subsystems are wanted off.
abbrev pub wanted_off : Model → Bool
wanted_off m =
    state_eq m.power_system.motor.targ_power_state off
    && state_eq m.power_system.comm.targ_power_state off

-- The model as the fault manager sees it.
abbrev pub host : SafeMode Model
host = record {
  go_to_safe_mode = λ now m. (go_to_safe_mode now m).0;
  is_off = wanted_off;
  go_to_safe_mode-off = go_to_safe_mode_target;
}

abbrev pub put_power_system : PowerSystem → World → World
put_power_system p w = record w { model = record (w.model) { power_system = p } }

-- FaultMgr::updatePowerFaults for the power subsystem.
unfoldable pub report_faults : ℕ → ℕ → World → World
report_faults now current_faults w =
    let (f, m) = update_power_faults host now current_faults power_subsystem w.faults w.model in
    record { faults = f; model = m }

-- The report of PowerSubsystem::processDaq.
unfoldable pub report_change : ℕ → Bool → Model → Model
report_change now changed m = if changed then report_power_system_state_change now m else m

-- PowerSubsystem::processDaq of the motor and of the comm subsystem, up to the report and from it
-- on; the word is that of the faults.
abbrev pub begin_motor_daq : ℕ → FaultMgr → SysInfo → ℕ → Model → Model × ℕ
begin_motor_daq now f info current_faults m =
    let d = daq_begin now f info (motor_drive current_faults m.power_system) in
    (record m { power_system = put_motor d m.power_system }, d.faults_set)

abbrev pub end_motor_daq : ℕ → ℕ → Model → Model × ℕ
end_motor_daq now current_faults m =
    let d = daq_end now (motor_drive current_faults m.power_system) in
    (record m { power_system = put_motor d m.power_system }, d.faults_set)

abbrev pub begin_comm_daq : ℕ → FaultMgr → SysInfo → ℕ → Model → Model × ℕ
begin_comm_daq now f info current_faults m =
    let d = daq_begin now f info (comm_drive current_faults m.power_system) in
    (record m { power_system = put_comm d m.power_system }, d.faults_set)

abbrev pub end_comm_daq : ℕ → ℕ → Model → Model × ℕ
end_comm_daq now current_faults m =
    let d = daq_end now (comm_drive current_faults m.power_system) in
    (record m { power_system = put_comm d m.power_system }, d.faults_set)

unfoldable pub daq_motor : ℕ → SysInfo → ℕ → World → World × ℕ
daq_motor now info current_faults w =
    let begun = begin_motor_daq now w.faults info current_faults w.model in
    let changed = state_changed begun.0.power_system.motor in
    let ended = end_motor_daq now begun.1 (report_change now changed begun.0) in
    (record w { model = ended.0 }, ended.1)

unfoldable pub daq_comm : ℕ → SysInfo → ℕ → World → World × ℕ
daq_comm now info current_faults w =
    let begun = begin_comm_daq now w.faults info current_faults w.model in
    let changed = state_changed begun.0.power_system.comm in
    let ended = end_comm_daq now begun.1 (report_change now changed begun.0) in
    (record w { model = ended.0 }, ended.1)

-- Motor power without comm power is turned off.
unfoldable pub check_comm_first : ℕ → SysInfo → World → World
check_comm_first now info w =
    if get_output info.output_port motor_power_on
      && not (get_output info.output_port ilc_comm_power_on)
    then put_power_system (motor_power_off now w.model.power_system) w
    else w

-- _processDaq; processDaq always answers FAULT, which is only logged.
unfoldable pub process_daq : ℕ → SysInfo → World → World
process_daq now info w =
    let health =
      process_daq_health_telemetry w.model.power_system.boost_current_fault_enabled info 0 in
    let healthy = if health == 0 then w else report_faults now health w in
    let ordered = check_comm_first now info healthy in
    let (w1, faults1) = daq_motor now info health ordered in
    let (w2, faults2) = daq_comm now info faults1 w1 in report_faults now faults2 w2

-- _sysInfoTimeoutSecs, in nanoseconds.
abbrev pub sys_info_timeout : ℕ
sys_info_timeout = 1500000000

-- _checkTimeout; the result says whether it timed out.
unfoldable pub check_timeout : ℕ → ℕ → World → World × Bool
check_timeout now diff w =
    let motor_off = motor_power_off now w.model.power_system in
    let stopped = put_power_system (comm_power_off now motor_off) w in
    if ltb sys_info_timeout diff
    then (report_faults now (set_bit_at 0 power_system_timeout) stopped, true)
    else (w, false)

-- _daqInfoRead and _daqTimeoutCheck, with what FpgaIo last read.
unfoldable pub daq_info_read : ℕ → SysInfo → World → World
daq_info_read now info w =
    let read = put_power_system (record (w.model.power_system) { daq_read_time = now }) w in
    process_daq now info (check_timeout now (now - info.timestamp) read).0

unfoldable pub daq_timeout_check : ℕ → SysInfo → World → World
daq_timeout_check now info w =
    let (checked, timed_out) = check_timeout now (now - w.model.power_system.daq_read_time) w in
    if timed_out then process_daq now info checked else checked

-- What reaches the system from its threads and its clients.
pub data Event : Type 0 where
  info_read timeout_check : SysInfo → Event
  power_command : PowerSystemType → Bool → Event
  state_request : StateEnum → Event
  connections : ℕ → Event
  motion_engine_timeout : Bool → Event
  crio_interlock : Bool → Event
  setup start shutdown : Event

abbrev put_model : Model → World → World
put_model m w = record w { model = m }

unfoldable pub handle : ℕ → Event → World → World
handle now (info_read info) w = daq_info_read now info w
handle now (timeout_check info) w = daq_timeout_check now info w
handle now (power_command type on_wanted) w =
    put_model (cmd_power now w.faults type on_wanted w.model).0 w
handle now (state_request s) w = put_model (change_state now s w.model).0 w
handle now (connections count) w =
    let (f, m) = report_com_connection_count host now count w.faults w.model in
    record { faults = f; model = m }
handle now (motion_engine_timeout error_lvl) w = record w {
  faults = report_motion_engine_timeout error_lvl w.faults;
}
handle now (crio_interlock set) w =
    put_power_system (write_crio_interlock_enable set w.model.power_system) w
handle now setup w = put_model (ctrl_setup w.model) w
handle now start w = put_model (ctrl_start now w.model).0 w
handle now shutdown w = put_model (system_shutdown now w.model) w

-- The events in their order, each at its time.
unfoldable pub run : List (ℕ × Event) → World → World
run [] w = w
run ((now, e) ∷ rest) w = run rest (handle now e w)

-- The system after its constructors, on the port as it is and with what FpgaIo holds.
unfoldable pub world : ℕ → SysInfo → ℕ → World
world now info port = record { faults = fault_mgr now; model = model now info port }
