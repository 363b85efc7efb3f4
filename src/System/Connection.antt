-- ===== src/System/Connection.antt =====
-- Without a client no power comes on.
use ts_m2cellcpp.Prelude.{
  ℕ, ◌≡◌, ◌∙◌, refl, Bool, true, false, not, ◌&&◌, ◌==◌, ◌-◌, ltb, if_both, if◌then◌else◌, List, [],
  ◌∷◌, arith,
}
use ts_m2cellcpp.Faultmgr.FaultMgr.{
  FaultMgr, check_for_power_subsystem_faults, update_power_faults, report_com_connection_count,
  report_motion_engine_timeout, fault_mgr,
}
use ts_m2cellcpp.Control.Defs.{SysInfo}
use ts_m2cellcpp.Control.PowerSubsystem.{Drive, check_for_faults, set_power_on}
use ts_m2cellcpp.Control.PowerSubsystem.Invariant.{IsOff}
use ts_m2cellcpp.Control.PowerSubsystem.Switch.{set_power_on_lem}
use ts_m2cellcpp.Control.PowerSystem.{process_daq_health_telemetry}
use ts_m2cellcpp.Control.PowerSystem.Both.{IsOff-Local}
use ts_m2cellcpp.State.Model.Laws.{BothIn}
use ts_m2cellcpp.System.{
  World, sys_info_timeout, report_faults, daq_motor, daq_comm, check_comm_first, process_daq,
  check_timeout, daq_info_read, daq_timeout_check, handle, run, world, Event, info_read,
  timeout_check, connections,
}
use ts_m2cellcpp.System.Commands.{handle-Both}
use ts_m2cellcpp.System.Built.{world-IsOff}

-- The flag of the lost connection.
abbrev pub flag : World → Bool
flag w = w.faults.comm_connection_fault

flag-report_faults : (now c : ℕ) (w : World) → flag (report_faults now c w) ≡ flag w
unfolding report_faults update_power_faults
flag-report_faults now c w = ground arith

flag-check_comm_first :
    (now : ℕ) (info : SysInfo) (w : World) → flag (check_comm_first now info w) ≡ flag w
unfolding check_comm_first
flag-check_comm_first now info w = if_both (λ x. flag x ≡ flag w) _ refl refl

flag-process_daq : (now : ℕ) (info : SysInfo) (w : World) → flag (process_daq now info w) ≡ flag w
unfolding process_daq daq_motor daq_comm
flag-process_daq now info w =
    let health =
      process_daq_health_telemetry w.model.power_system.boost_current_fault_enabled info 0 in
    let reported = report_faults now health w in
    let healthy = if health == 0 then w else reported in
    let kept : flag healthy ≡ flag w =
      if_both (λ x. flag x ≡ flag w) (health == 0) {x = w} {y = reported} refl
        (flag-report_faults now health w) in
    flag-report_faults now _ _ ∙ flag-check_comm_first now info healthy ∙ kept

flag-check_timeout : (now diff : ℕ) (w : World) → flag (check_timeout now diff w).0 ≡ flag w
unfolding check_timeout
flag-check_timeout now diff w =
    if_both (λ (r : World × Bool). flag r.0 ≡ flag w) (ltb sys_info_timeout diff)
      (flag-report_faults now _ _) refl

flag-daq_timeout_check :
    (now : ℕ) (info : SysInfo) (w : World) → flag (daq_timeout_check now info w) ≡ flag w
unfolding daq_timeout_check
flag-daq_timeout_check now info w =
    let diff = now - w.model.power_system.daq_read_time in
    let checked = flag-check_timeout now diff w in
    if_both (λ x. flag x ≡ flag w) (check_timeout now diff w).1
      (flag-process_daq now info (check_timeout now diff w).0 ∙ checked) checked

-- A connection is reported.
abbrev pub connects : Event → Bool
connects (connections n) = ltb 0 n
connects _ = false

-- The event is a report of the count of connections.
abbrev pub counts : Event → Bool
counts (connections n) = true
counts _ = false

pub flag-handle_other :
    (now : ℕ) (e : Event) (w : World) → counts e ≡ false → flag (handle now e w) ≡ flag w
unfolding handle daq_info_read report_motion_engine_timeout
flag-handle_other now (info_read info) w c =
    flag-process_daq now info _ ∙ flag-check_timeout now (now - info.timestamp) _
flag-handle_other now (timeout_check info) w c = flag-daq_timeout_check now info w
flag-handle_other now (connections n) w c = ground (arith, c)
flag-handle_other now _ w c = refl

flag-handle :
    (now : ℕ) (e : Event) (w : World)
    → connects e ≡ false
    → flag w ≡ true
    → flag (handle now e w) ≡ true
unfolding handle report_com_connection_count
flag-handle now (connections n) w c h = ground arith
flag-handle now e w c h = flag-handle_other now e w c ∙ h

pub built_flag : (now : ℕ) (info : SysInfo) (port : ℕ) → flag (world now info port) ≡ true
unfolding world fault_mgr
built_flag now info port = refl

-- The flag of the lost connection refuses a command to switch on, which turns off.
pub refused-IsOff :
    (now : ℕ) (f : FaultMgr) (d : Drive)
    → f.comm_connection_fault ≡ true
    → IsOff d
    → IsOff (set_power_on now f d).0
unfolding check_for_faults check_for_power_subsystem_faults
refused-IsOff now f d h o = ground (arith, set_power_on_lem now f d o.wired)

-- No event of the list reports a connection.
abbrev pub no_connection : List (ℕ × Event) → Bool
no_connection [] = true
no_connection ((now, e) ∷ es) = not (connects e) && no_connection es

run-dark :
    (es : List (ℕ × Event)) (w : World)
    → no_connection es ≡ true
    → flag w ≡ true
    → BothIn IsOff w.model
    → BothIn IsOff (run es w).model
unfolding run
run-dark [] w q h b = b
run-dark ((now, e) ∷ es) w q h b =
    run-dark es (handle now e w) (ground arith) (flag-handle now e w (ground arith) h)
      (handle-Both IsOff-Local now e w (λ x d. refused-IsOff now w.faults d h) b)

-- Until a first client connects, both subsystems of the system stay off, through every sequence of
-- events and commands.
pub no_client_no_power :
    (es : List (ℕ × Event)) (now : ℕ) (info : SysInfo) (port : ℕ)
    → no_connection es ≡ true
    → BothIn IsOff (run es (world now info port)).model
no_client_no_power es now info port q =
    run-dark es (world now info port) q (built_flag now info port) (world-IsOff now info port)
