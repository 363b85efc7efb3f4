-- ===== src/State/Examples.antt =====
-- Concrete cases of the states and the model.
use ts_m2cellcpp.Prelude.{◌≡◌, ◌↔◌, ◌⊎◌, true, false}
use ts_m2cellcpp.Control.Defs.{SysInfo}
use ts_m2cellcpp.Control.PowerSubsystem.Invariant.{IsOff}
use ts_m2cellcpp.Control.PowerSystem.Both.{Configured}
use ts_m2cellcpp.State.StateMap.{standbystate, idlestate, pausestate, inmotionstate, acceptable}
use ts_m2cellcpp.State.StateMap.Laws.{Allowed, acceptable-Allowed}
use ts_m2cellcpp.State.Model.{Model, change_state, go_to_safe_mode}
use ts_m2cellcpp.State.Model.Laws.{BothIn, may_change, change_state_lem, go_to_safe_mode_lem}
use ts_m2cellcpp.System.{world}
use ts_m2cellcpp.System.Built.{world-IsOff}

abbrev info : SysInfo
info = record {
  output_port = 0;
  input_port = 4294967295;
  motor_voltage = 0;
  motor_current = 0;
  motor_breaker_closed = true;
  comm_voltage = 0;
  comm_current = 0;
  comm_breaker_closed = true;
  iterations = 0;
  timestamp = 0;
}

abbrev built : Model
built = (world 5 info 0).model

-- The model in motion, with the power as it was built.
abbrev moving : Model
moving = record {
  power_system = built.power_system;
  current_state = inmotionstate;
  setup_finished = true;
}

configured : Configured moving.power_system
configured = (world-IsOff 5 info 0).configured

acceptable-Allowed_example : (acceptable idlestate pausestate ≡ true) ↔ Allowed idlestate pausestate
acceptable-Allowed_example = acceptable-Allowed idlestate pausestate

change_state_lem_example :
    (may_change pausestate moving ≡ true)
      × ((change_state 9 pausestate moving).1 ≡ true)
      × ((change_state 9 pausestate moving).0.current_state ≡ pausestate)
    ⊎ (may_change pausestate moving ≡ false) × (change_state 9 pausestate moving ≡ (moving, false))
change_state_lem_example = change_state_lem 9 pausestate moving

go_to_safe_mode_lem_example :
    BothIn IsOff (go_to_safe_mode 9 moving).0
    × ((go_to_safe_mode 9 moving).0.current_state ≡ standbystate)
go_to_safe_mode_lem_example = go_to_safe_mode_lem 9 moving configured
