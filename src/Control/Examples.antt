-- ===== src/Control/Examples.antt =====
-- Concrete cases of the ports, the breakers and the power subsystems.
use ts_m2cellcpp.Prelude.{complement, ℕ, ◌*◌, ◌≡◌, ◌⊎◌, inl, refl, true, false, arith}
use ts_m2cellcpp.Faultmgr.FaultStatusBits.{unset_bit_at, set_all}
use ts_m2cellcpp.Faultmgr.Masks.{get_mask_comm_faults, get_mask_faults}
use ts_m2cellcpp.Faultmgr.BasicFaultMgr.{power_fault_mgr}
use ts_m2cellcpp.Faultmgr.FaultMgr.{FaultMgr, fault_mgr, check_for_power_subsystem_faults}
use ts_m2cellcpp.Control.Defs.{SysInfo, off, turning_on, on}
use ts_m2cellcpp.Control.Ports.{get_output, get_input, output_bit_at_pos, input_bit_at_pos}
use ts_m2cellcpp.Control.Breakers.{check_breakers, check_feeds, feed_check_breakers}
use ts_m2cellcpp.Control.Breakers.Laws.{group_status, check_breakers-group_status}
use ts_m2cellcpp.Control.PowerSubsystemConfig.{setup_comm, output_on_max_delay}
use ts_m2cellcpp.Control.PowerSubsystem.{
  Drive, get_voltage, get_current, get_relay_control_output_on, get_crio_ready_output_on,
  get_interlock_relay_control_output_on, set_power_on, check_for_faults,
}
use ts_m2cellcpp.Control.PowerSubsystem.Daq.{daq_begin, daq_end, whole_daq}
use ts_m2cellcpp.Control.PowerSubsystem.Invariant.{Inv, IsOff, Wired, daq-Inv}
use ts_m2cellcpp.Control.PowerSubsystem.Switch.{IsOn, may_switch_on, set_power_on_lem}
use ts_m2cellcpp.Control.PowerSubsystem.Faults.{
  Recorded, whole_daq-IsOff, process_power_off-no_fault,
}
use ts_m2cellcpp.Control.PowerSubsystem.PowerOff.{process_power_off}
use ts_m2cellcpp.Control.PowerSubsystem.Startup.{Healthy}
use ts_m2cellcpp.Control.PowerSubsystem.Startup.Reads.{finds, read_at, comes_on}

-- Comm power with every breaker closed, at the given voltage and current.
abbrev info_at : ℕ → ℕ → SysInfo
info_at voltage current = record {
  output_port = 18;
  input_port = 4294967295;
  motor_voltage = 0;
  motor_current = 0;
  motor_breaker_closed = true;
  comm_voltage = voltage;
  comm_current = current;
  comm_breaker_closed = true;
  iterations = 0;
  timestamp = 0;
}

-- The comm subsystem as it starts to turn on.
abbrev drive_at : ℕ → ℕ → Drive
drive_at voltage current = record {
  port = 18;
  faults_set = 0;
  sub = record {
    ps_cfg = setup_comm;
    sys_info = info_at voltage current;
    power_on_start = 0;
    power_off_start = 0;
    phase = 1;
    phase_start_time = 0;
    telem_counter = 0;
    targ_power_state = on;
    actual_power_state = turning_on;
    targ_power_state_prev = on;
    actual_power_state_prev = off;
  };
}

wired : Wired setup_comm
unfolding setup_comm
wired = refl

holds : Inv (drive_at 24000 5000)
holds = ground (arith, wired)

-- The same subsystem while it is OFF.
abbrev drive_off : Drive
drive_off =
    let d = drive_at 24000 5000 in
    record d { sub = record (d.sub) { targ_power_state = off; actual_power_state = off } }

healthy : Healthy (finds (info_at 24000 5000) drive_off)
unfolding setup_comm get_voltage get_current get_relay_control_output_on get_crio_ready_output_on
    get_interlock_relay_control_output_on check_breakers check_feeds feed_check_breakers get_output
    get_input output_bit_at_pos input_bit_at_pos
healthy = record {
  relay = refl;
  crio = refl;
  interlock = refl;
  low = omega arith;
  high = omega arith;
  current = omega arith;
  breakers = refl;
}

abbrev every_second : ℕ → ℕ
every_second n = n * 1000000000

-- A manager without faults, with a client.
abbrev connected : FaultMgr
connected = record (fault_mgr 5) { comm_connection_fault = false }

no_faults : check_for_faults connected drive_off.sub ≡ false
unfolding check_for_faults check_for_power_subsystem_faults fault_mgr setup_comm unset_bit_at
    get_mask_comm_faults set_all complement power_fault_mgr get_mask_faults
no_faults = refl

switches_on : (set_power_on 0 connected drive_off).1 ≡ true
unfolding set_power_on get_crio_ready_output_on setup_comm
switches_on = rw no_faults refl

comes_on_example :
    let d = (set_power_on 0 connected drive_off).0 in
    (read_at every_second (λ n. connected) (λ n. info_at 24000 5000) 11 d).sub.actual_power_state
    ≡ on
unfolding setup_comm output_on_max_delay
comes_on_example =
    comes_on 0 connected every_second (λ n. connected) (λ n. info_at 24000 5000) drive_off refl
      switches_on (λ n. no_faults) (λ n. healthy) (omega arith)

whole_daq-IsOff_example :
    let d = drive_at 24000 5000 in
    let after = whole_daq 9 10 (fault_mgr 5) (info_at 30000 5000) d in
    IsOff after
    × ((d.sub.targ_power_state ≡ off)
        ⊎ (check_for_faults (fault_mgr 5) d.sub ≡ true)
        ⊎ Recorded setup_comm after)
unfolding setup_comm get_voltage
whole_daq-IsOff_example =
    whole_daq-IsOff 9 10 (fault_mgr 5) (info_at 30000 5000) (drive_at 24000 5000) holds
      (inl (omega arith))

process_power_off-no_fault_example : (process_power_off 9 (drive_at 24000 5000)).faults_set ≡ 0
process_power_off-no_fault_example = process_power_off-no_fault 9 (drive_at 24000 5000) holds

set_power_on_lem_example :
    let r = set_power_on 9 (fault_mgr 5) (drive_at 24000 5000) in
    (may_switch_on (fault_mgr 5) (drive_at 24000 5000).sub ≡ true) × (r.1 ≡ true) × IsOn r.0
    ⊎ (may_switch_on (fault_mgr 5) (drive_at 24000 5000).sub ≡ false) × (r.1 ≡ false) × IsOff r.0
set_power_on_lem_example = set_power_on_lem 9 (fault_mgr 5) (drive_at 24000 5000) wired

daq-Inv_example :
    Inv (daq_begin 9 (fault_mgr 5) (info_at 0 0) (drive_at 24000 5000))
    × Inv (daq_end 9 (drive_at 24000 5000))
daq-Inv_example = daq-Inv 9 (fault_mgr 5) (info_at 0 0) (drive_at 24000 5000) holds

check_breakers-group_status_example :
    (check_breakers 4278190080 setup_comm.breaker_feed_group).0
    ≡ group_status 4278190080 setup_comm.breaker_feed_group
check_breakers-group_status_example =
    check_breakers-group_status 4278190080 setup_comm.breaker_feed_group
