-- ===== src/System/Laws.antt =====
-- What both subsystems keep, every handler but a command to switch on keeps.
use ts_m2cellcpp.Prelude.{ℕ, ◌-◌, Bool, ◌==◌, ltb, if_both, bit_and}
use ts_m2cellcpp.Faultmgr.BasicFaultMgr.{CrioSubsystem}
use ts_m2cellcpp.Faultmgr.SafeMode.{SafeMode}
use ts_m2cellcpp.Faultmgr.FaultMgr.{
  FaultMgr, act_on_health, update_power_faults, report_com_connection_count,
}
use ts_m2cellcpp.Control.Defs.{SysInfo}
use ts_m2cellcpp.Control.PowerSystem.{motor_power_off, comm_power_off, process_daq_health_telemetry}
use ts_m2cellcpp.State.Model.{Model, go_to_safe_mode, report_power_system_state_change}
use ts_m2cellcpp.System.{
  World, host, begin_motor_daq, end_motor_daq, begin_comm_daq, end_comm_daq, report_faults,
  report_change, daq_motor, daq_comm, check_comm_first, process_daq, sys_info_timeout,
  check_timeout, daq_info_read, daq_timeout_check,
}

-- What safe mode keeps of the rest of the program, the fault manager keeps.
module _ {S : Type 0} (h : SafeMode S) (Q : S → Type 0)
    (safe : (now : ℕ) (s : S) → Q s → Q (h.go_to_safe_mode now s)) where
  act_on_health-keeps :
      (now health : ℕ) (c : CrioSubsystem) (s : S) → Q s → Q (act_on_health h now health c s)
  unfolding act_on_health
  act_on_health-keeps now health CrioSubsystem.power_subsystem s q =
      if_both Q (health == 0) q (safe now s q)
  act_on_health-keeps now health _ s q = q

  pub update_power_faults-keeps :
      (now current : ℕ) (c : CrioSubsystem) (f : FaultMgr) (s : S)
      → Q s
      → Q (update_power_faults h now current c f s).1
  unfolding update_power_faults
  update_power_faults-keeps now current c f s q =
      if_both (λ (r : FaultMgr × S). Q r.1) _
        (act_on_health-keeps now (bit_and current f.health_fault_mask) c s q) q

  pub report_com_connection_count-keeps :
      (now count : ℕ) (f : FaultMgr) (s : S)
      → Q s
      → Q (report_com_connection_count h now count f s).1
  unfolding report_com_connection_count
  report_com_connection_count-keeps now count f s q =
      if_both (λ (r : FaultMgr × S). Q r.1) (ltb count 1) (safe now s q) q

-- What each write of a read of the DAQ keeps of the model, and what its two calls of the model keep.
pub record Upheld (Q : Model → Type 0) : Type 0 where
  pub motor_off :
      (now : ℕ) (m : Model)
      → Q m
      → Q (record m { power_system = motor_power_off now m.power_system })
  pub comm_off :
      (now : ℕ) (m : Model)
      → Q m
      → Q (record m { power_system = comm_power_off now m.power_system })
  pub begin_motor :
      (now : ℕ) (f : FaultMgr) (info : SysInfo) (c : ℕ) (m : Model)
      → Q m
      → Q (begin_motor_daq now f info c m).0
  pub begin_comm :
      (now : ℕ) (f : FaultMgr) (info : SysInfo) (c : ℕ) (m : Model)
      → Q m
      → Q (begin_comm_daq now f info c m).0
  pub end_motor : (now c : ℕ) (m : Model) → Q m → Q (end_motor_daq now c m).0
  pub end_comm : (now c : ℕ) (m : Model) → Q m → Q (end_comm_daq now c m).0
  pub report : (now : ℕ) (m : Model) → Q m → Q (report_power_system_state_change now m)
  pub safe : (now : ℕ) (m : Model) → Q m → Q (go_to_safe_mode now m).0
  pub read_time :
      (now : ℕ) (m : Model)
      → Q m
      → Q (record m { power_system = record (m.power_system) { daq_read_time = now } })

module _ {Q : Model → Type 0} (u : Upheld Q) where
  abbrev Holds : World → Type 0
  Holds w = Q w.model

  pub report_faults-keeps : (now c : ℕ) (w : World) → Holds w → Holds (report_faults now c w)
  unfolding report_faults
  report_faults-keeps now c w b = update_power_faults-keeps host Q u.safe now c _ w.faults w.model b

  report_change-keeps : (now : ℕ) (x : Bool) (m : Model) → Q m → Q (report_change now x m)
  unfolding report_change
  report_change-keeps now x m b = if_both Q x (u.report now m b) b

  daq_motor-keeps :
      (now : ℕ) (info : SysInfo) (c : ℕ) (w : World) → Holds w → Holds (daq_motor now info c w).0
  unfolding daq_motor
  daq_motor-keeps now info c w b =
      u.end_motor now _ _
        (report_change-keeps now _ _ (u.begin_motor now w.faults info c w.model b))

  daq_comm-keeps :
      (now : ℕ) (info : SysInfo) (c : ℕ) (w : World) → Holds w → Holds (daq_comm now info c w).0
  unfolding daq_comm
  daq_comm-keeps now info c w b =
      u.end_comm now _ _ (report_change-keeps now _ _ (u.begin_comm now w.faults info c w.model b))

  check_comm_first-keeps :
      (now : ℕ) (info : SysInfo) (w : World) → Holds w → Holds (check_comm_first now info w)
  unfolding check_comm_first
  check_comm_first-keeps now info w b = if_both Holds _ (u.motor_off now w.model b) b

  pub process_daq-keeps :
      (now : ℕ) (info : SysInfo) (w : World) → Holds w → Holds (process_daq now info w)
  unfolding process_daq
  process_daq-keeps now info w b =
      let health =
        process_daq_health_telemetry w.model.power_system.boost_current_fault_enabled info 0 in
      let reported = report_faults now health w in
      let kept =
        if_both Holds (health == 0) {x = w} {y = reported} b (report_faults-keeps now health w b) in
      report_faults-keeps now _ _ (
        daq_comm-keeps now info _ _
          (daq_motor-keeps now info _ _ (check_comm_first-keeps now info _ kept)))

  pub check_timeout-keeps :
      (now diff : ℕ) (w : World) → Holds w → Holds (check_timeout now diff w).0
  unfolding check_timeout
  check_timeout-keeps now diff w b =
      if_both (λ (r : World × Bool). Holds r.0) (ltb sys_info_timeout diff)
        (report_faults-keeps now _ _ (u.comm_off now _ (u.motor_off now w.model b))) b

  pub daq_info_read-keeps :
      (now : ℕ) (info : SysInfo) (w : World) → Holds w → Holds (daq_info_read now info w)
  unfolding daq_info_read
  daq_info_read-keeps now info w b =
      process_daq-keeps now info _ (check_timeout-keeps now _ _ (u.read_time now w.model b))

  pub daq_timeout_check-keeps :
      (now : ℕ) (info : SysInfo) (w : World) → Holds w → Holds (daq_timeout_check now info w)
  unfolding daq_timeout_check
  daq_timeout_check-keeps now info w b =
      let checked = check_timeout-keeps now (now - w.model.power_system.daq_read_time) w b in
      if_both Holds _ (process_daq-keeps now info _ checked) checked

  pub connections-keeps :
      (now count : ℕ) (f : FaultMgr) (m : Model)
      → Q m
      → Q (report_com_connection_count host now count f m).1
  connections-keeps now count f m b =
      report_com_connection_count-keeps host Q u.safe now count f m b
