-- ===== src/Control/PowerSubsystem/Daq.antt =====
-- processDaq of control/PowerSubsystem.cpp, in two halves: between them the code reports a change
-- of state to the model, which may turn power off.
use ts_m2cellcpp.Prelude.{ℕ, Bool, not, ◌||◌, if◌then◌else◌}
use ts_m2cellcpp.Faultmgr.FaultMgr.{FaultMgr}
use ts_m2cellcpp.Control.Defs.{SysInfo, PowerState, off, on, state_eq}
use ts_m2cellcpp.Control.PowerSubsystem.{PowerSubsystem, Drive, check_for_faults, set_power_off}
use ts_m2cellcpp.Control.PowerSubsystem.PowerOn.{process_power_on}
use ts_m2cellcpp.Control.PowerSubsystem.PowerOff.{process_power_off}

-- Up to the report.
unfoldable pub daq_begin : ℕ → FaultMgr → SysInfo → Drive → Drive
daq_begin now f info d =
    let read = record d { sub = record (d.sub) { sys_info = info } } in
    if check_for_faults f read.sub then set_power_off now read else read

-- Whether the state is reported.
unfoldable pub state_changed : PowerSubsystem → Bool
state_changed p =
    not (state_eq p.targ_power_state_prev p.targ_power_state)
    || not (state_eq p.actual_power_state_prev p.actual_power_state)

-- The switch on the target; OFF is the default, and the others are turned off first.
unfoldable pub process_target : ℕ → PowerState → Drive → Drive
process_target now on d = process_power_on now d
process_target now off d = process_power_off now d
process_target now _ d = process_power_off now (set_power_off now d)

-- From the report on.
unfoldable pub daq_end : ℕ → Drive → Drive
daq_end now d =
    let noted = record d {
      sub = record (d.sub) {
        targ_power_state_prev = d.sub.targ_power_state;
        actual_power_state_prev = d.sub.actual_power_state;
      };
    } in
    process_target now d.sub.targ_power_state noted

-- Both halves, when the report between them changes nothing. Each half reads the clock.
unfoldable pub whole_daq : ℕ → ℕ → FaultMgr → SysInfo → Drive → Drive
whole_daq now later f info d = daq_end later (daq_begin now f info d)
