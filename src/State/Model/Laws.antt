-- ===== src/State/Model/Laws.antt =====
-- The behaviour of the model's operations on the state and on the power of both subsystems.
use ts_m2cellcpp.Prelude.{
  ℕ, ◌≡◌, ◌⊎◌, Bool, true, false, not, ◌&&◌, ◌||◌, if◌then◌else◌, if_both, arith,
}
use ts_m2cellcpp.Control.Defs.{off, state_eq}
use ts_m2cellcpp.Control.PowerSubsystem.{Drive, set_power_off}
use ts_m2cellcpp.Control.PowerSubsystem.Invariant.{IsOff}
use ts_m2cellcpp.Control.PowerSystem.{motor_power_off, comm_power_off}
use ts_m2cellcpp.Control.PowerSystem.Both.{
  Local, Both, Configured, motor_power_off-Both, comm_power_off-Both, IsOff-Local,
  comm_power_off-IsOff,
}
use ts_m2cellcpp.State.StateMap.{
  StateEnum, offlinestate, startupstate, standbystate, same_state, is_a_safe_state, acceptable,
}
use ts_m2cellcpp.State.Model.{
  Model, turn_off_all, enter_state, change_state, go_to_a_safe_state, go_to_safe_mode,
  system_shutdown, all_on, report_while_off, report_in, report_power_system_state_change,
}

abbrev pub BothIn : (Drive → Type 0) → Model → Type 0
BothIn P m = Both P m.power_system

module _ {P : Drive → Type 0} (k : Local P) where
  abbrev Answered : Model × Bool → Type 0
  Answered r = BothIn P r.0

  pub turn_off_all-Both : (now : ℕ) (m : Model) → BothIn P m → BothIn P (turn_off_all now m)
  unfolding turn_off_all
  turn_off_all-Both now m b = comm_power_off-Both k now _ (motor_power_off-Both k now _ b)

  enter_state-Both :
      (now : ℕ) (s : StateEnum) (m : Model) → BothIn P m → BothIn P (enter_state now s m)
  unfolding enter_state
  enter_state-Both now startupstate m b = turn_off_all-Both now m b
  enter_state-Both now offlinestate m b = turn_off_all-Both now m b
  enter_state-Both now _ m b = b

  pub change_state-Both :
      (now : ℕ) (s : StateEnum) (m : Model) → BothIn P m → BothIn P (change_state now s m).0
  unfolding change_state
  change_state-Both now s m b =
      if_both Answered (same_state s m.current_state) (enter_state-Both now s m b) (
        if_both Answered (same_state m.current_state startupstate && not m.setup_finished) b
          (if_both Answered (acceptable m.current_state s) (enter_state-Both now s _ b) b))

  go_to_a_safe_state-Both :
      (now : ℕ) (s : StateEnum) (m : Model) → BothIn P m → BothIn P (go_to_a_safe_state now s m).0
  unfolding go_to_a_safe_state
  go_to_a_safe_state-Both now s m b =
      if_both Answered (same_state m.current_state offlinestate || same_state s offlinestate)
        (change_state-Both now _ m b)
        (if_both Answered (is_a_safe_state s) (change_state-Both now _ m b)
          (change_state-Both now _ m b))

  pub go_to_safe_mode-Both : (now : ℕ) (m : Model) → BothIn P m → BothIn P (go_to_safe_mode now m).0
  unfolding go_to_safe_mode
  go_to_safe_mode-Both now m b = go_to_a_safe_state-Both now _ _ (turn_off_all-Both now m b)

  pub system_shutdown-Both : (now : ℕ) (m : Model) → BothIn P m → BothIn P (system_shutdown now m)
  unfolding system_shutdown
  system_shutdown-Both now m b = turn_off_all-Both now _ (change_state-Both now _ m b)

  report_in-Both : (now : ℕ) (s : StateEnum) (m : Model) → BothIn P m → BothIn P (report_in now s m)
  unfolding report_in report_while_off
  report_in-Both now startupstate m b = if_both (BothIn P) _ (turn_off_all-Both now m b) b
  report_in-Both now offlinestate m b = if_both (BothIn P) _ (turn_off_all-Both now m b) b
  report_in-Both now standbystate m b =
      if_both (BothIn P) (all_on m.power_system) (change_state-Both now _ m b) b
  report_in-Both now _ m b =
      if_both (BothIn P) (all_on m.power_system) b (change_state-Both now _ m b)

  pub report-Both :
      (now : ℕ) (m : Model) → BothIn P m → BothIn P (report_power_system_state_change now m)
  unfolding report_power_system_state_change
  report-Both now m b = report_in-Both now m.current_state m b

-- turnOffAll turns both subsystems off, whatever they were doing.
pub turn_off_all-IsOff :
    (now : ℕ) (m : Model) → Configured m.power_system → BothIn IsOff (turn_off_all now m)
unfolding turn_off_all
turn_off_all-IsOff now m c = comm_power_off-IsOff now m.power_system c

-- Whether a state may be entered: the current one again, else one that the tests let through, and
-- none before the setup has finished.
abbrev pub may_change : StateEnum → Model → Bool
may_change new m =
    same_state new m.current_state
    || (not (same_state m.current_state startupstate && not m.setup_finished)
        && acceptable m.current_state new)

-- A request for a state is answered with true exactly when the state may be entered; then it is
-- the current state, and otherwise the model is as it was.
pub change_state_lem :
    (now : ℕ) (new : StateEnum) (m : Model)
    → let r = change_state now new m in
      (may_change new m ≡ true) × (r.1 ≡ true) × (r.0.current_state ≡ new)
      ⊎ (may_change new m ≡ false) × (r ≡ (m, false))
unfolding change_state enter_state turn_off_all
change_state_lem now new m = ground arith

-- Where safe mode leads: offline stays offline, and startup stays startup until the setup has
-- finished.
abbrev pub safe_state : Model → StateEnum
safe_state m =
    if same_state m.current_state offlinestate
    then offlinestate
    else if same_state m.current_state startupstate && not m.setup_finished
    then startupstate
    else standbystate

-- Safe mode turns both subsystems off, with their outputs low, and leads to standby, but from
-- offline to offline, and during the setup nowhere.
pub go_to_safe_mode_lem :
    (now : ℕ) (m : Model)
    → Configured m.power_system
    → BothIn IsOff (go_to_safe_mode now m).0
      × ((go_to_safe_mode now m).0.current_state ≡ safe_state m)
unfolding go_to_safe_mode go_to_a_safe_state change_state enter_state turn_off_all is_a_safe_state
    acceptable
go_to_safe_mode_lem now m c = (
  go_to_a_safe_state-Both IsOff-Local now standbystate (turn_off_all now m)
      (turn_off_all-IsOff now m c),
  ground arith,
)

-- After safe mode neither subsystem wants power, whatever the model was.
pub go_to_safe_mode_target :
    (now : ℕ) (m : Model)
    → (state_eq (go_to_safe_mode now m).0.power_system.motor.targ_power_state off
        && state_eq (go_to_safe_mode now m).0.power_system.comm.targ_power_state off)
      ≡ true
unfolding go_to_safe_mode go_to_a_safe_state change_state enter_state turn_off_all motor_power_off
    comm_power_off set_power_off
go_to_safe_mode_target now m = ground arith
