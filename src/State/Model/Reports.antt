-- ===== src/State/Model/Reports.antt =====
-- What a change of the power of a subsystem does to the state of the system.
use ts_m2cellcpp.Prelude.{
  ℕ, ◌≡◌, ◌≢◌, refl, Bool, true, false, ◌||◌, ◌&&◌, not, if◌then◌else◌, arith,
}
use ts_m2cellcpp.Faultmgr.FaultMgr.{FaultMgr}
use ts_m2cellcpp.Control.Defs.{PowerSystemType, off, state_eq}
use ts_m2cellcpp.Control.PowerSystem.{PowerSystem}
use ts_m2cellcpp.State.StateMap.{
  StateEnum, startupstate, offlinestate, standbystate, idlestate, pausestate, inmotionstate,
  same_state, is_a_safe_state, acceptable,
}
use ts_m2cellcpp.State.Model.{
  Model, turn_off_all, enter_state, change_state, all_on, report_while_off, report_in,
  report_power_system_state_change, cmd_power, cmd_power_in,
}

-- Where a report leads: from standby to idle when both subsystems are wanted ON and ON, and from
-- idle, pause and motion to standby when they are not.
abbrev pub reported_state : Bool → StateEnum → StateEnum
reported_state true standbystate = idlestate
reported_state false idlestate = standbystate
reported_state false pausestate = standbystate
reported_state false inmotionstate = standbystate
reported_state powered s = s

abbrev wanted_off : Model → Bool
wanted_off m =
    state_eq m.power_system.comm.targ_power_state off
    && state_eq m.power_system.motor.targ_power_state off

-- In startup and offline all is turned off unless both subsystems are wanted OFF.
abbrev pub reported_power : ℕ → Model → PowerSystem
reported_power now m =
    if (same_state m.current_state startupstate || same_state m.current_state offlinestate)
      && not (wanted_off m)
    then (turn_off_all now m).power_system
    else m.power_system

report_in_lem :
    (now : ℕ) (s : StateEnum) (m : Model)
    → m.current_state ≡ s
    → (report_in now s m).current_state ≡ reported_state (all_on m.power_system) s
unfolding report_in report_while_off change_state enter_state acceptable is_a_safe_state
    turn_off_all
report_in_lem now startupstate m e = ground arith
report_in_lem now offlinestate m e = ground arith
report_in_lem now _ m e = ground arith

-- A report of a change moves the state as the table says. The power of both subsystems is as
-- before, except in startup and offline, where all is turned off unless both are wanted OFF.
pub report_lem :
    (now : ℕ) (m : Model)
    → let r = report_power_system_state_change now m in
      (r.current_state ≡ reported_state (all_on m.power_system) m.current_state)
      × (r.power_system ≡ reported_power now m)
unfolding report_power_system_state_change report_in report_while_off change_state enter_state
report_lem now m = (report_in_lem now m.current_state m refl, ground arith)

-- A power command does nothing, and is answered with false, in every state but standby and idle.
pub cmd_power-refused :
    (now : ℕ) (f : FaultMgr) (t : PowerSystemType) (x : Bool) (m : Model)
    → m.current_state ≢ standbystate
    → m.current_state ≢ idlestate
    → cmd_power now f t x m ≡ (m, false)
unfolding cmd_power cmd_power_in
cmd_power-refused now f t x m s i = ground arith
