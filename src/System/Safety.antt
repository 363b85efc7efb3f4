-- ===== src/System/Safety.antt =====
-- What no order of events can break.
use ts_m2cellcpp.Prelude.{
  ℕ, ◌≡◌, ◌⊎◌, inl, inr, Bool-cases, refl, Bool, true, false, not, ◌&&◌, List, [], ◌∷◌, arith,
}
use ts_m2cellcpp.Faultmgr.FaultMgr.{FaultMgr}
use ts_m2cellcpp.Control.Defs.{SysInfo, PowerSystemType, on}
use ts_m2cellcpp.Control.Ports.{get_output, motor_power_on, ilc_comm_power_on}
use ts_m2cellcpp.Control.PowerSubsystem.Invariant.{IsOff, set_power_on-Inv}
use ts_m2cellcpp.Control.PowerSystem.Both.{motor_output, comm_output, Inv-Local, IsOff-Local}
use ts_m2cellcpp.State.StateMap.{StateEnum, offlinestate, standbystate, idlestate}
use ts_m2cellcpp.State.Model.{
  Model, ctrl_setup, ctrl_start, cmd_power, cmd_power_in, cmd_power_base, system_shutdown,
}
use ts_m2cellcpp.State.Model.Laws.{BothIn, turn_off_all-IsOff, system_shutdown-Both}
use ts_m2cellcpp.System.{
  World, handle, run, world, Event, info_read, timeout_check, power_command, state_request,
  connections, motion_engine_timeout, crio_interlock, setup, start, shutdown,
}
use ts_m2cellcpp.System.Laws.{daq_info_read-keeps, daq_timeout_check-keeps, connections-keeps}
use ts_m2cellcpp.System.Invariants.{
  Rest, at_rest, Rest-Upheld, change_state-Rest, crio_interlock-Both,
}
use ts_m2cellcpp.System.Commands.{switches_on, cmd_power_base-Both, handle-Both}
use ts_m2cellcpp.System.Built.{world-Rest}

-- Only standby and idle let a command through, and those are not at rest.
cmd_power_base_state :
    (now : ℕ) (f : FaultMgr) (t : PowerSystemType) (x : Bool) (m : Model)
    → (cmd_power_base now f t x m).0.current_state ≡ m.current_state
unfolding cmd_power_base
cmd_power_base_state now f t x m = ground arith

cmd_power_in-Rest :
    (s : StateEnum) (now : ℕ) (f : FaultMgr) (t : PowerSystemType) (x : Bool) (m : Model)
    → m.current_state ≡ s
    → Rest m
    → Rest (cmd_power_in s now f t x m).0
unfolding cmd_power_in
cmd_power_in-Rest standbystate now f t x m e r = record {
  sound = cmd_power_base-Both Inv-Local now f t x m (λ e. set_power_on-Inv now f) r.sound;
  off = λ h. ground (arith, cmd_power_base_state now f t x m, e, h);
}
cmd_power_in-Rest idlestate now f t x m e r = record {
  sound = cmd_power_base-Both Inv-Local now f t x m (λ e. set_power_on-Inv now f) r.sound;
  off = λ h. ground (arith, cmd_power_base_state now f t x m, e, h);
}
cmd_power_in-Rest _ now f t x m e r = r

-- Every event keeps the invariant of the model.
pub handle-Rest : (now : ℕ) (e : Event) (w : World) → Rest w.model → Rest (handle now e w).model
unfolding handle ctrl_setup ctrl_start cmd_power system_shutdown
handle-Rest now (info_read info) w r = daq_info_read-keeps Rest-Upheld now info w r
handle-Rest now (timeout_check info) w r = daq_timeout_check-keeps Rest-Upheld now info w r
handle-Rest now (power_command t x) w r =
    cmd_power_in-Rest w.model.current_state now w.faults t x w.model refl r
handle-Rest now (state_request s) w r = change_state-Rest now s w.model r
handle-Rest now (connections n) w r = connections-keeps Rest-Upheld now n w.faults w.model r
handle-Rest now (motion_engine_timeout l) w r = r
handle-Rest now (crio_interlock v) w r = record {
  sound = crio_interlock-Both Inv-Local v w.model.power_system r.sound;
  off = λ h. crio_interlock-Both IsOff-Local v w.model.power_system (r.off h);
}
handle-Rest now setup w r = record { sound = r.sound; off = r.off }
handle-Rest now start w r = change_state-Rest now standbystate w.model r
handle-Rest now shutdown w r =
    let offline = change_state-Rest now offlinestate w.model r in
    record {
      sound = system_shutdown-Both Inv-Local now w.model r.sound;
      off = λ h. turn_off_all-IsOff now _ offline.sound.configured;
    }

run-Rest : (es : List (ℕ × Event)) (w : World) → Rest w.model → Rest (run es w).model
unfolding run
run-Rest [] w r = r
run-Rest ((now, e) ∷ es) w r = run-Rest es (handle now e w) (handle-Rest now e w r)

-- Whatever happens to the system after it was built, in whatever order: each of the two
-- subsystems wants power or its power output is low, and both are off in startup and offline.
pub run_lem :
    (es : List (ℕ × Event)) (now : ℕ) (info : SysInfo) (port : ℕ)
    → let m = (run es (world now info port)).model in
      ((m.power_system.motor.targ_power_state ≡ on)
        ⊎ (get_output m.power_system.port motor_power_on ≡ false))
      × ((m.power_system.comm.targ_power_state ≡ on)
          ⊎ (get_output m.power_system.port ilc_comm_power_on ≡ false))
      × (BothIn IsOff m ⊎ (at_rest m.current_state ≡ false))
run_lem es now info port =
    let r = run-Rest es (world now info port) (world-Rest now info port) in
    let m = (run es (world now info port)).model in
    let c = r.sound.configured in
    (
      ground (arith, motor_output m.power_system c, r.sound.motor.powered),
      ground (arith, comm_output m.power_system c, r.sound.comm.powered),
      elim (Bool-cases (at_rest m.current_state)) [
        | inl resting ↦ inl (r.off resting)
        | inr moving ↦ inr moving
      ],
    )

-- No event of the list is a command to switch on.
abbrev pub no_command : List (ℕ × Event) → Bool
no_command [] = true
no_command ((now, e) ∷ es) = not (switches_on e) && no_command es

-- Nothing but a command switches power on: while both subsystems are off, they are off after
-- every sequence of events without a command to switch on.
pub run-IsOff :
    (es : List (ℕ × Event)) (w : World)
    → no_command es ≡ true
    → BothIn IsOff w.model
    → BothIn IsOff (run es w).model
unfolding run
run-IsOff [] w q b = b
run-IsOff ((now, e) ∷ es) w q b =
    run-IsOff es (handle now e w) (ground arith)
      (handle-Both IsOff-Local now e w (λ x. ground (arith, x)) b)
