-- ===== src/System/Commands.antt =====
-- What the power commands and the other events keep of both subsystems.
use ts_m2cellcpp.Prelude.{ℕ, ◌≡◌, refl, Bool, true, false, not, if_both, if◌then◌else◌}
use ts_m2cellcpp.Faultmgr.FaultMgr.{FaultMgr}
use ts_m2cellcpp.Control.Defs.{PowerSystemType, motor, comm, unknownpowersystem, off, on, state_eq}
use ts_m2cellcpp.Control.PowerSubsystem.{Drive, set_power_on}
use ts_m2cellcpp.Control.PowerSubsystem.Invariant.{set_power_on-Apart}
use ts_m2cellcpp.Control.PowerSystem.{PowerSystem, motor_power_off, power_motor, power_comm}
use ts_m2cellcpp.Control.PowerSystem.Both.{
  Local, Both, put_motor-Both, put_comm-Both, motor_power_off-Both, comm_power_off-Both,
  motor-Apart, comm-Apart,
}
use ts_m2cellcpp.State.StateMap.{StateEnum, standbystate, idlestate}
use ts_m2cellcpp.State.Model.{
  Model, ctrl_setup, ctrl_start, cmd_power, cmd_power_in, cmd_power_base,
}
use ts_m2cellcpp.State.Model.Laws.{BothIn, change_state-Both, system_shutdown-Both}
use ts_m2cellcpp.System.{
  World, handle, Event, info_read, timeout_check, power_command, state_request, connections,
  motion_engine_timeout, crio_interlock, setup, start, shutdown,
}
use ts_m2cellcpp.System.Laws.{daq_info_read-keeps, daq_timeout_check-keeps, connections-keeps}
use ts_m2cellcpp.System.Invariants.{Both-Upheld, crio_interlock-Both}

-- A command to switch on.
abbrev pub switches_on : Event → Bool
switches_on (power_command t x) = x
switches_on _ = false

module _ {P : Drive → Type 0} (k : Local P) (now : ℕ) (f : FaultMgr) where
  -- What switching on keeps, if a command asks for it.
  abbrev pub KeptOn : Bool → Type 0
  KeptOn x = x ≡ true → (d : Drive) → P d → P (set_power_on now f d).0

  power_motor-Both :
      (x : Bool) (p : PowerSystem) → KeptOn x → Both P p → Both P (power_motor now f x p).0
  unfolding power_motor
  power_motor-Both false p o b = motor_power_off-Both k now p b
  power_motor-Both true p o b =
      if_both (λ (r : PowerSystem × Bool). Both P r.0) (not (state_eq p.comm.actual_power_state on))
        b
        (put_motor-Both k _ p b (o refl _ b.motor)
          (set_power_on-Apart _ _ _ now f _ (motor-Apart 0 p b.configured)))

  power_comm-Both :
      (x : Bool) (p : PowerSystem) → KeptOn x → Both P p → Both P (power_comm now f x p).0
  unfolding power_comm
  power_comm-Both false p o b =
      let off_first = not (state_eq p.motor.actual_power_state off) in
      comm_power_off-Both k now (if off_first then motor_power_off now p else p)
        (if_both (Both P) off_first (motor_power_off-Both k now p b) b)
  power_comm-Both true p o b =
      put_comm-Both k _ p b (o refl _ b.comm)
        (set_power_on-Apart _ _ _ now f _ (comm-Apart 0 p b.configured))

  pub cmd_power_base-Both :
      (t : PowerSystemType) (x : Bool) (m : Model)
      → KeptOn x
      → BothIn P m
      → BothIn P (cmd_power_base now f t x m).0
  unfolding cmd_power_base
  cmd_power_base-Both motor x m o b = power_motor-Both x m.power_system o b
  cmd_power_base-Both comm x m o b = power_comm-Both x m.power_system o b
  cmd_power_base-Both unknownpowersystem x m o b = b

  cmd_power_in-Both :
      (s : StateEnum) (t : PowerSystemType) (x : Bool) (m : Model)
      → KeptOn x
      → BothIn P m
      → BothIn P (cmd_power_in s now f t x m).0
  unfolding cmd_power_in
  cmd_power_in-Both standbystate t x m o b = cmd_power_base-Both t x m o b
  cmd_power_in-Both idlestate t x m o b = cmd_power_base-Both t x m o b
  cmd_power_in-Both _ t x m o b = b

-- Every event keeps what both subsystems keep, if switching on does where the event asks for it.
pub handle-Both :
    {P : Drive → Type 0} (k : Local P) (now : ℕ) (e : Event) (w : World)
    → KeptOn k now w.faults (switches_on e)
    → BothIn P w.model
    → BothIn P (handle now e w).model
unfolding handle ctrl_setup ctrl_start cmd_power
handle-Both k now (info_read info) w o b = daq_info_read-keeps (Both-Upheld k) now info w b
handle-Both k now (timeout_check info) w o b = daq_timeout_check-keeps (Both-Upheld k) now info w b
handle-Both k now (power_command t x) w o b =
    cmd_power_in-Both k now w.faults w.model.current_state t x w.model o b
handle-Both k now (state_request s) w o b = change_state-Both k now s w.model b
handle-Both k now (connections n) w o b = connections-keeps (Both-Upheld k) now n w.faults w.model b
handle-Both k now (motion_engine_timeout l) w o b = b
handle-Both k now (crio_interlock v) w o b = crio_interlock-Both k v w.model.power_system b
handle-Both k now setup w o b = b
handle-Both k now start w o b = change_state-Both k now standbystate w.model b
handle-Both k now shutdown w o b = system_shutdown-Both k now w.model b
