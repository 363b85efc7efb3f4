-- ===== src/State/Model.antt =====
-- The model of state/Model.cpp, with the effects of StateMap and State that reach the power system.
-- The starts and stops of the threads, the sleeps and the messages to the clients are left out.
pub mod Laws
pub mod Reports
use ts_m2cellcpp.Prelude.{ℕ, Bool, true, false, not, ◌&&◌, ◌||◌, if◌then◌else◌}
use ts_m2cellcpp.Faultmgr.FaultMgr.{FaultMgr}
use ts_m2cellcpp.Control.Defs.{
  SysInfo, PowerSystemType, motor, comm, unknownpowersystem, off, on, state_eq,
}
use ts_m2cellcpp.Control.PowerSystem.{
  PowerSystem, power_system, motor_power_off, comm_power_off, power_motor, power_comm,
}
use ts_m2cellcpp.State.StateMap.{
  StateEnum, offlinestate, startupstate, standbystate, idlestate, pausestate, inmotionstate,
  same_state, is_a_safe_state, acceptable,
}

pub record Model : Type 0 where
  pub power_system : PowerSystem
  pub current_state : StateEnum
  pub setup_finished : Bool

-- The constructors of Model and StateMap.
unfoldable pub model : ℕ → SysInfo → ℕ → Model
model now info port = record {
  power_system = power_system now info port;
  current_state = startupstate;
  setup_finished = false;
}

-- _turnOffAll: motor power, then comm power.
unfoldable pub turn_off_all : ℕ → Model → Model
turn_off_all now m = record m {
  power_system = comm_power_off now (motor_power_off now m.power_system);
}

-- enterState: State's own turns everything off, and four states override it to log only.
unfoldable pub enter_state : ℕ → StateEnum → Model → Model
enter_state now startupstate m = turn_off_all now m
enter_state now offlinestate m = turn_off_all now m
enter_state now _ m = m

-- StateMap::_changeState; every state is in the map, so the lookups before it succeed.
unfoldable pub change_state : ℕ → StateEnum → Model → Model × Bool
change_state now new m =
    if same_state new m.current_state
    then (enter_state now new m, true)
    else if same_state m.current_state startupstate && not m.setup_finished
    then (m, false)
    else if acceptable m.current_state new
    then (enter_state now new (record m { current_state = new }), true)
    else (m, false)

-- StateMap::goToASafeState.
unfoldable pub go_to_a_safe_state : ℕ → StateEnum → Model → Model × Bool
go_to_a_safe_state now desired m =
    if same_state m.current_state offlinestate || same_state desired offlinestate
    then ((change_state now offlinestate m).0, same_state desired offlinestate)
    else if is_a_safe_state desired
    then ((change_state now desired m).0, true)
    else ((change_state now standbystate m).0, false)

unfoldable pub go_to_safe_mode : ℕ → Model → Model × Bool
go_to_safe_mode now m = go_to_a_safe_state now standbystate (turn_off_all now m)

unfoldable pub system_shutdown : ℕ → Model → Model
system_shutdown now m = turn_off_all now (change_state now offlinestate m).0

-- The four tests that reportPowerSystemStateChange makes: both subsystems ON, wanted and actual.
unfoldable pub all_on : PowerSystem → Bool
all_on p =
    state_eq p.comm.targ_power_state on
    && state_eq p.comm.actual_power_state on
    && state_eq p.motor.targ_power_state on
    && state_eq p.motor.actual_power_state on

-- The body of the cases STARTUPSTATE and OFFLINESTATE.
unfoldable pub report_while_off : ℕ → Model → Model
report_while_off now m =
    if not (state_eq m.power_system.comm.targ_power_state off)
      || not (state_eq m.power_system.motor.targ_power_state off)
    then turn_off_all now m
    else m

-- The switch of reportPowerSystemStateChange on the current state.
unfoldable pub report_in : ℕ → StateEnum → Model → Model
report_in now startupstate m = report_while_off now m
report_in now offlinestate m = report_while_off now m
report_in now standbystate m = if all_on m.power_system then (change_state now idlestate m).0 else m
report_in now _ m = if all_on m.power_system then m else (change_state now standbystate m).0

unfoldable pub report_power_system_state_change : ℕ → Model → Model
report_power_system_state_change now m = report_in now m.current_state m

unfoldable pub ctrl_setup : Model → Model
ctrl_setup m = record m { setup_finished = true }

unfoldable pub ctrl_start : ℕ → Model → Model × Bool
ctrl_start now m = change_state now standbystate m

-- State::cmdPowerBase.
unfoldable pub cmd_power_base : ℕ → FaultMgr → PowerSystemType → Bool → Model → Model × Bool
cmd_power_base now f motor on_wanted m =
    let (p, answer) = power_motor now f on_wanted m.power_system in
    (record m { power_system = p }, answer)
cmd_power_base now f comm on_wanted m =
    let (p, answer) = power_comm now f on_wanted m.power_system in
    (record m { power_system = p }, answer)
cmd_power_base now f unknownpowersystem on_wanted m = (m, false)

-- cmdPower of the states: StandbyState and IdleState override it.
unfoldable pub cmd_power_in :
    StateEnum → ℕ → FaultMgr → PowerSystemType → Bool → Model → Model × Bool
cmd_power_in standbystate now f type on_wanted m = cmd_power_base now f type on_wanted m
cmd_power_in idlestate now f type on_wanted m = cmd_power_base now f type on_wanted m
cmd_power_in _ now f type on_wanted m = (m, false)

unfoldable pub cmd_power : ℕ → FaultMgr → PowerSystemType → Bool → Model → Model × Bool
cmd_power now f type on_wanted m = cmd_power_in m.current_state now f type on_wanted m
