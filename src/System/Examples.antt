-- ===== src/System/Examples.antt =====
-- Concrete runs of the system.
use ts_m2cellcpp.Prelude.{ℕ, ◌-◌, ◌<◌, ◌≡◌, ◌⊎◌, refl, true, false, bit, List, [], ◌∷◌, arith}
use ts_m2cellcpp.Faultmgr.BasicFaultMgr.{BasicFaultMgr, power_subsystem}
use ts_m2cellcpp.Faultmgr.Masks.{get_power_subsystem_fault_manager_affected_warning_mask}
use ts_m2cellcpp.Faultmgr.FaultMgr.{FaultMgr, check_for_power_subsystem_faults, update_power_faults}
use ts_m2cellcpp.Faultmgr.FaultMgr.Laws.{update_power_faults_again}
use ts_m2cellcpp.Faultmgr.FaultMgr.Latch.{
  Report, power_faults, motion_engine_timeout, reports, fault_forbids_power,
}
use ts_m2cellcpp.Control.Defs.{SysInfo, motor, comm, on}
use ts_m2cellcpp.Control.Ports.{get_output, motor_power_on, ilc_comm_power_on}
use ts_m2cellcpp.Control.PowerSubsystem.Invariant.{IsOff}
use ts_m2cellcpp.Control.PowerSystem.{power_system}
use ts_m2cellcpp.Control.PowerSystem.Both.{Configured}
use ts_m2cellcpp.State.Model.{Model, model}
use ts_m2cellcpp.State.Model.Laws.{BothIn}
use ts_m2cellcpp.System.{
  host, world, run, Event, info_read, timeout_check, power_command, connections, setup, start,
  daq_info_read, daq_timeout_check,
}
use ts_m2cellcpp.System.Invariants.{at_rest}
use ts_m2cellcpp.System.Built.{world-IsOff}
use ts_m2cellcpp.System.Safety.{run_lem, run-IsOff}
use ts_m2cellcpp.System.Connection.{no_client_no_power}
use ts_m2cellcpp.System.Timeout.{daq_info_read-IsOff, daq_timeout_check-IsOff}

-- Nothing is powered, and every input is high.
abbrev idle_info : SysInfo
idle_info = record {
  output_port = 0;
  input_port = 4294967295;
  motor_voltage = 0;
  motor_current = 0;
  motor_breaker_closed = true;
  comm_voltage = 0;
  comm_current = 0;
  comm_breaker_closed = true;
  iterations = 0;
  timestamp = 0;
}

-- The system starts, a client connects, and comm power is asked for.
abbrev start_up : List (ℕ × Event)
start_up =
    (10, setup)
    ∷ (20, start)
    ∷ (30, connections 1)
    ∷ (40, power_command comm true)
    ∷ (50, info_read idle_info)
    ∷ []

abbrev started : Model
started = (run start_up (world 5 idle_info 0)).model

run_lem_example :
    ((started.power_system.motor.targ_power_state ≡ on)
      ⊎ (get_output started.power_system.port motor_power_on ≡ false))
    × ((started.power_system.comm.targ_power_state ≡ on)
        ⊎ (get_output started.power_system.port ilc_comm_power_on ≡ false))
    × (BothIn IsOff started ⊎ (at_rest started.current_state ≡ false))
run_lem_example = run_lem start_up 5 idle_info 0

abbrev commands_alone : List (ℕ × Event)
commands_alone =
    (10, setup) ∷ (20, start) ∷ (40, power_command comm true) ∷ (50, info_read idle_info) ∷ []

no_client_no_power_example : BothIn IsOff (run commands_alone (world 5 idle_info 0)).model
no_client_no_power_example = no_client_no_power commands_alone 5 idle_info 0 refl

abbrev no_commands : List (ℕ × Event)
no_commands =
    (10, setup)
    ∷ (20, start)
    ∷ (30, connections 1)
    ∷ (40, power_command motor false)
    ∷ (50, info_read idle_info)
    ∷ (60, timeout_check idle_info)
    ∷ []

run-IsOff_example : BothIn IsOff (run no_commands (world 5 idle_info 0)).model
run-IsOff_example = run-IsOff no_commands (world 5 idle_info 0) refl (world-IsOff 5 idle_info 0)

configured : Configured (world 5 idle_info 0).model.power_system
configured = (world-IsOff 5 idle_info 0).configured

daq_info_read-IsOff_example :
    BothIn IsOff (daq_info_read 2000000000 idle_info (world 5 idle_info 0)).model
daq_info_read-IsOff_example =
    daq_info_read-IsOff 2000000000 idle_info (world 5 idle_info 0) configured (omega arith)

read_long_ago : 1500000000 < 2000000000 - (world 5 idle_info 0).model.power_system.daq_read_time
unfolding world model power_system
read_long_ago = omega arith

daq_timeout_check-IsOff_example :
    BothIn IsOff (daq_timeout_check 2000000000 idle_info (world 5 idle_info 0)).model
daq_timeout_check-IsOff_example =
    daq_timeout_check-IsOff 2000000000 idle_info (world 5 idle_info 0) configured read_long_ago

-- The manager of power faults, as it is built, with every fault enabled.
abbrev built : BasicFaultMgr
built = record {
  summary_faults = 0;
  prev_faults = 0;
  current_faults = 0;
  fault_enable_mask = 4294967295;
  default_fault_mask = 4294967295;
  affected_faults_mask = get_power_subsystem_fault_manager_affected_warning_mask;
  affected_warn_info_mask = 0;
  time_stamp = 0;
}

abbrev manager : FaultMgr
manager = record {
  summary_system_faults_status = built;
  power_fault_mgr = built;
  telemetry_fault_mgr = built;
  comm_connection_fault = false;
  health_fault_mask = 65536;
}

abbrev model_now : Model
model_now = (world 5 idle_info 0).model

abbrev later : List Report
later = power_faults 0 power_subsystem ∷ motion_engine_timeout true ∷ []

update_power_faults_again_example :
    let r = update_power_faults host 9 65536 power_subsystem manager model_now in
    update_power_faults host 10 65536 power_subsystem r.0 r.1 ≡ r
update_power_faults_again_example =
    update_power_faults_again host 9 10 65536 power_subsystem power_subsystem manager model_now

fault_forbids_power_example :
    check_for_power_subsystem_faults 65536
      (reports host 10 later (update_power_faults host 9 65536 power_subsystem manager model_now)).0
    ≡ true
unfolding bit
fault_forbids_power_example =
    fault_forbids_power host 9 65536 16 65536 power_subsystem manager model_now later refl refl refl
      refl refl
