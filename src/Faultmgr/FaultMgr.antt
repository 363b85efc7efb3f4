-- ===== src/Faultmgr/FaultMgr.antt =====
-- The fault manager of the system, faultmgr/FaultMgr.h and FaultMgr.cpp: three fault records and
-- the flag for a lost connection. `S` is the state of the rest of the program, which the manager
-- changes only by going to safe mode.
pub mod Laws
pub mod Latch
use ts_m2cellcpp.Prelude.{
  ℕ, bit_and, bit_or, Bool, true, false, ◌||◌, ◌==◌, not, ltb, if◌then◌else◌,
}
use ts_m2cellcpp.Faultmgr.FaultBit.{crio_comm_fault, stale_data_fault, stale_data_warn}
use ts_m2cellcpp.Faultmgr.FaultStatusBits.{set_bit_at}
use ts_m2cellcpp.Faultmgr.Masks.{get_mask_health_faults}
use ts_m2cellcpp.Faultmgr.BasicFaultMgr
use ts_m2cellcpp.Faultmgr.BasicFaultMgr.{BasicFaultMgr, CrioSubsystem, power_subsystem}
use ts_m2cellcpp.Faultmgr.SafeMode.{SafeMode}

pub record FaultMgr : Type 0 where
  pub summary_system_faults_status : BasicFaultMgr
  pub power_fault_mgr : BasicFaultMgr
  pub telemetry_fault_mgr : BasicFaultMgr
  pub comm_connection_fault : Bool
  pub health_fault_mask : ℕ

-- The constructor.
unfoldable pub fault_mgr : ℕ → FaultMgr
fault_mgr now = record {
  summary_system_faults_status = BasicFaultMgr.basic_fault_mgr now;
  power_fault_mgr = BasicFaultMgr.power_fault_mgr now;
  telemetry_fault_mgr = BasicFaultMgr.basic_fault_mgr now;
  comm_connection_fault = true;
  health_fault_mask = get_mask_health_faults;
}

unfoldable pub reset_faults : ℕ → ℕ → FaultMgr → FaultMgr
reset_faults now reset_mask f = record f {
  power_fault_mgr = BasicFaultMgr.reset_faults now reset_mask f.power_fault_mgr;
  telemetry_fault_mgr = BasicFaultMgr.reset_faults now reset_mask f.telemetry_fault_mgr;
  summary_system_faults_status =
      BasicFaultMgr.reset_faults now reset_mask f.summary_system_faults_status;
}

-- `true` is an error, `false` a warning.
unfoldable pub report_motion_engine_timeout : Bool → FaultMgr → FaultMgr
report_motion_engine_timeout error_lvl f =
    let timeout_mask = set_bit_at 0 (if error_lvl then stale_data_fault else stale_data_warn) in
    record f {
      summary_system_faults_status =
          (BasicFaultMgr.merge_faults timeout_mask f.summary_system_faults_status).0;
    }

unfoldable pub check_for_power_subsystem_faults : ℕ → FaultMgr → Bool
check_for_power_subsystem_faults subsystem_mask f =
    let pfm = f.power_fault_mgr in
    let fault_bitmap =
      bit_and (bit_and subsystem_mask pfm.fault_enable_mask)
        (bit_or pfm.current_faults pfm.summary_faults) in
    f.comm_connection_fault || not (fault_bitmap == 0)

unfoldable pub enable_faults_in_mask : ℕ → FaultMgr → FaultMgr × ℕ
enable_faults_in_mask mask f =
    let (summary, changed) =
      BasicFaultMgr.enable_faults_in_mask mask f.summary_system_faults_status in
    (
      record f {
        summary_system_faults_status = summary;
        power_fault_mgr = (BasicFaultMgr.enable_faults_in_mask mask f.power_fault_mgr).0;
        telemetry_fault_mgr = (BasicFaultMgr.enable_faults_in_mask mask f.telemetry_fault_mgr).0;
      },
      changed,
    )

-- The end of updatePowerFaults: what `bfm` reported goes into the summary of the system.
unfoldable pub update_summary_system_faults : BasicFaultMgr → BasicFaultMgr → BasicFaultMgr
update_summary_system_faults bfm summary =
    let n_summary =
      (BasicFaultMgr.update_fault_status summary.summary_faults bfm.fault_enable_mask
        bfm.current_faults bfm.affected_warn_info_mask bfm.affected_faults_mask).0 in
    if n_summary == summary.summary_faults
    then summary
    else BasicFaultMgr.update_summary n_summary summary

module _ {S : Type 0} (host : SafeMode S) where
  -- The switch of updatePowerFaults: every other subsystem is only logged.
  unfoldable pub act_on_health : ℕ → ℕ → CrioSubsystem → S → S
  act_on_health now current_health_faults power_subsystem s =
      if current_health_faults == 0 then s else host.go_to_safe_mode now s
  act_on_health now current_health_faults _ s = s

  unfoldable pub update_power_faults : ℕ → ℕ → CrioSubsystem → FaultMgr → S → FaultMgr × S
  unfolding act_on_health
  update_power_faults now current_faults subsystem f s =
      let (power, news) =
        BasicFaultMgr.update_faults now
          (record (f.power_fault_mgr) { current_faults = current_faults }) in
      if news
      then (
        record f {
          power_fault_mgr = power;
          summary_system_faults_status =
              update_summary_system_faults power f.summary_system_faults_status;
        },
        act_on_health now (bit_and current_faults f.health_fault_mask) subsystem s,
      )
      else (record f { power_fault_mgr = power }, s)

  unfoldable pub report_com_connection_count : ℕ → ℕ → FaultMgr → S → FaultMgr × S
  report_com_connection_count now count f s =
      let comm_mask = set_bit_at 0 crio_comm_fault in
      if ltb count 1
      then (
        record f {
          comm_connection_fault = true;
          summary_system_faults_status =
              BasicFaultMgr.set_mask_comm now comm_mask f.summary_system_faults_status;
        },
        host.go_to_safe_mode now s,
      )
      else (reset_faults now comm_mask (record f { comm_connection_fault = false }), s)
