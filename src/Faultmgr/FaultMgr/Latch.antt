-- ===== src/Faultmgr/FaultMgr/Latch.antt =====
-- A power fault stays: once reported it forbids power through all that is reported later, until it
-- is reset.
use ts_m2cellcpp.Prelude.{
  ℕ, suc, ◌<◌, ◌≡◌, Bool, true, false, Bool-cases, inl, inr, bit, bit_and, bit_xor, bit_of_zero,
  List, [], ◌∷◌, arith,
}
use ts_m2cellcpp.Faultmgr.BasicFaultMgr.{BasicFaultMgr, CrioSubsystem, update_faults}
use ts_m2cellcpp.Faultmgr.BasicFaultMgr.Laws.{diff-bit, summary-bit, reset_faults-bit}
use ts_m2cellcpp.Faultmgr.SafeMode.{SafeMode}
use ts_m2cellcpp.Faultmgr.FaultMgr.{
  FaultMgr, reset_faults, report_motion_engine_timeout, check_for_power_subsystem_faults,
  update_power_faults, report_com_connection_count,
}
use ts_m2cellcpp.Faultmgr.FaultMgr.Laws.{check_of_fault, check_for_power_subsystem_faults_iff}

-- What can be reported to the manager, other than a connection, which resets a fault.
pub data Report : Type 0 where
  power_faults : ℕ → CrioSubsystem → Report
  motion_engine_timeout : Bool → Report
  no_connection : Report

pub record IsLatched (m : BasicFaultMgr) (i : ℕ) : Type 0 where
  pub enabled : bit m.fault_enable_mask i ≡ true
  pub kept : bit m.default_fault_mask i ≡ true
  pub summed_up : bit m.summary_faults i ≡ true

module _ {S : Type 0} (host : SafeMode S) where
  pub report : ℕ → Report → FaultMgr × S → FaultMgr × S
  report now (power_faults current subsystem) (f, s) =
      update_power_faults host now current subsystem f s
  report now (motion_engine_timeout error_lvl) (f, s) =
      (report_motion_engine_timeout error_lvl f, s)
  report now no_connection (f, s) = report_com_connection_count host now 0 f s

  -- One report after the other, each a tick later.
  pub reports : ℕ → List Report → FaultMgr × S → FaultMgr × S
  unfolding report
  reports now [] fs = fs
  reports now (r ∷ rs) fs = reports (suc now) rs (report now r fs)

  update_power_faults-IsLatched :
      (now current i : ℕ) (subsystem : CrioSubsystem) (f : FaultMgr) (s : S)
      → IsLatched f.power_fault_mgr i
      → IsLatched (update_power_faults host now current subsystem f s).0.power_fault_mgr i
  unfolding update_power_faults update_faults
  update_power_faults-IsLatched now current i subsystem f s h =
      ground (arith, summary-bit (record (f.power_fault_mgr) { current_faults = current }) i)

  report-IsLatched :
      (now i : ℕ) (r : Report) (fs : FaultMgr × S)
      → IsLatched (fs.0).power_fault_mgr i
      → IsLatched (report now r fs).0.power_fault_mgr i
  unfolding report report_motion_engine_timeout report_com_connection_count
  report-IsLatched now i (power_faults current subsystem) (f, s) h =
      update_power_faults-IsLatched now current i subsystem f s h
  report-IsLatched now i (motion_engine_timeout error_lvl) (f, s) h = h
  report-IsLatched now i no_connection (f, s) h = h

  reports-IsLatched :
      (now i : ℕ) (rs : List Report) (fs : FaultMgr × S)
      → IsLatched (fs.0).power_fault_mgr i
      → IsLatched (reports now rs fs).0.power_fault_mgr i
  unfolding reports
  reports-IsLatched now i [] fs h = h
  reports-IsLatched now i (r ∷ rs) fs h =
      reports-IsLatched (suc now) i rs (report now r fs) (report-IsLatched now i r fs h)

  reported-IsLatched :
      (now current i : ℕ) (subsystem : CrioSubsystem) (f : FaultMgr) (s : S)
      → bit f.power_fault_mgr.fault_enable_mask i ≡ true
      → bit f.power_fault_mgr.default_fault_mask i ≡ true
      → bit f.power_fault_mgr.prev_faults i ≡ false
      → bit current i ≡ true
      → IsLatched (update_power_faults host now current subsystem f s).0.power_fault_mgr i
  unfolding update_power_faults update_faults
  reported-IsLatched now current i subsystem f s e k old new =
      let m = record (f.power_fault_mgr) { current_faults = current } in
      ground (
        arith,
        summary-bit m i,
        diff-bit m i,
        bit_of_zero (bit_and (bit_xor m.prev_faults current) m.fault_enable_mask) i,
      )

  -- A newly reported fault that is enabled and in the default mask keeps the power off for every
  -- subsystem that looks for it, whatever power faults, timeouts of the motion engine and losses of the
  -- connection are reported after it, a report without the fault too. A new connection, which resets
  -- the faults, is not among these.
  pub fault_forbids_power :
      (now current i mask : ℕ) (subsystem : CrioSubsystem) (f : FaultMgr) (s : S) (rs : List Report)
      → bit f.power_fault_mgr.fault_enable_mask i ≡ true
      → bit f.power_fault_mgr.default_fault_mask i ≡ true
      → bit f.power_fault_mgr.prev_faults i ≡ false
      → bit current i ≡ true
      → bit mask i ≡ true
      → check_for_power_subsystem_faults mask
          (reports (suc now) rs (update_power_faults host now current subsystem f s)).0
        ≡ true
  fault_forbids_power now current i mask subsystem f s rs e k old new m =
      let first = update_power_faults host now current subsystem f s in
      let start = reported-IsLatched now current i subsystem f s e k old new in
      let last = reports-IsLatched (suc now) i rs first start in
      check_of_fault mask (reports (suc now) rs first).0 i m
        (ground (arith, last.enabled, last.summed_up))

-- With a connection: a reset whose mask holds every fault that a subsystem looks for, all of them
-- below bit 64, allows power again.
pub reset_faults-allows :
    (now reset_mask mask : ℕ) (f : FaultMgr)
    → f.comm_connection_fault ≡ false
    → ((i : ℕ) → bit mask i ≡ true → (i < 64) × (bit reset_mask i ≡ true))
    → check_for_power_subsystem_faults mask (reset_faults now reset_mask f) ≡ false
unfolding reset_faults
reset_faults-allows now reset_mask mask f c covers =
    elim (Bool-cases (check_for_power_subsystem_faults mask (reset_faults now reset_mask f))) [
      | inr clear ↦ clear
      | inl found ↦
          elim ((check_for_power_subsystem_faults_iff mask (reset_faults now reset_mask f)).0
            found) [
              | inl lost ↦ cc
              | inr (i, m, e) ↦
                  ground (arith, covers i m, reset_faults-bit now reset_mask f.power_fault_mgr i)
            ]
    ]
