-- ===== src/Control/MotionEngine/Laws.antt =====
-- What the check of the ILC communication reports.
use ts_m2cellcpp.Prelude.{ℕ, ◌-◌, ◌≤◌, ◌<◌, ◌≡◌, ◌⊎◌, true, false, ◌||◌, bit, err, bug, arith}
use ts_m2cellcpp.Faultmgr.FaultBit.{stale_data_fault, stale_data_warn}
use ts_m2cellcpp.Faultmgr.FaultStatusBits.{set_bit_at}
use ts_m2cellcpp.Faultmgr.FaultStatusBits.Laws.{bit-set_bit_at}
use ts_m2cellcpp.Faultmgr.BasicFaultMgr.Laws.{merge_faults-bit}
use ts_m2cellcpp.Faultmgr.FaultMgr.{FaultMgr, report_motion_engine_timeout}
use ts_m2cellcpp.Control.MotionEngine.{
  MotionEngine, com_timeout_error, com_timeout_warn, engine_start, check_timeout, com_timeout_check,
}

-- The fault or warning of bit `i` has joined the current ones, if it is enabled.
abbrev pub Reported : ℕ → FaultMgr → FaultMgr → Type 0
Reported i before after = bit after.summary_system_faults_status.current_faults i ≡ (
    bit before.summary_system_faults_status.current_faults i
    || bit before.summary_system_faults_status.fault_enable_mask i)

Reported-fault : (f : FaultMgr) → Reported 1 f (report_motion_engine_timeout true f)
unfolding report_motion_engine_timeout
Reported-fault f = ground (
  arith,
  merge_faults-bit (set_bit_at 0 stale_data_fault) f.summary_system_faults_status 1,
  bit-set_bit_at 0 stale_data_fault 1,
)

Reported-warn : (f : FaultMgr) → Reported 0 f (report_motion_engine_timeout false f)
unfolding report_motion_engine_timeout
Reported-warn f = ground (
  arith,
  merge_faults-bit (set_bit_at 0 stale_data_warn) f.summary_system_faults_status 0,
  bit-set_bit_at 0 stale_data_warn 0,
)

-- A check reports by the time since the last read: above 2.5 seconds the fault of stale data, if it
-- is enabled, above 1.5 seconds the warning, and otherwise nothing.
pub com_timeout_check_lem :
    (now : ℕ) (m : MotionEngine) (f : FaultMgr)
    → let diff = now - m.com_read_time in
      (com_timeout_error < diff) × Reported 1 f (com_timeout_check now m f)
      ⊎ (com_timeout_warn < diff)
        × (diff ≤ com_timeout_error)
        × Reported 0 f (com_timeout_check now m f)
      ⊎ (diff ≤ com_timeout_warn) × (com_timeout_check now m f ≡ f)
unfolding com_timeout_check check_timeout
com_timeout_check_lem now m f = ground (arith, Reported-fault f, Reported-warn f)

-- An engine starts once: after a start every other one throws, whatever was stopped or joined since.
pub engine_start_twice :
    (t1 t2 : ℕ) (m : MotionEngine) → (engine_start t2 (engine_start t1 m).0).1 ≡ err bug
unfolding engine_start
engine_start_twice t1 t2 m = ground arith
