-- ===== src/Faultmgr/BasicFaultMgr.antt =====
-- One record of faults, faultmgr/BasicFaultMgr.h and BasicFaultMgr.cpp. Each operation that reads
-- the clock takes the time, and one that returns a value pairs it with the new record.
pub mod Laws
use ts_m2cellcpp.Prelude.{
  ℕ, ◌%◌, ◌^◌, bit_and, bit_or, bit_xor, complement, Bool, true, false, ◌==◌, if◌then◌else◌,
}
use ts_m2cellcpp.Faultmgr.Masks.{
  get_mask_faults, get_power_subsystem_fault_manager_affected_fault_mask,
  get_power_subsystem_fault_manager_affected_warning_mask,
}

pub data CrioSubsystem : Type 0 where
  system_controller fault_manager power_subsystem cell_controller : CrioSubsystem
  telemetry_logger network_interface motion_engine : CrioSubsystem

pub record BasicFaultMgr : Type 0 where
  pub summary_faults : ℕ
  pub prev_faults : ℕ
  pub current_faults : ℕ
  pub fault_enable_mask : ℕ
  pub default_fault_mask : ℕ
  pub affected_faults_mask : ℕ
  pub affected_warn_info_mask : ℕ
  pub time_stamp : ℕ

-- The constructor.
unfoldable pub basic_fault_mgr : ℕ → BasicFaultMgr
basic_fault_mgr now = record {
  summary_faults = 0;
  prev_faults = 0;
  current_faults = 0;
  fault_enable_mask = get_mask_faults;
  default_fault_mask = get_mask_faults;
  affected_faults_mask = 0;
  affected_warn_info_mask = 0;
  time_stamp = now;
}

-- The constructor of PowerFaultMgr: it calls setAffectedFaultsMask twice.
unfoldable pub power_fault_mgr : ℕ → BasicFaultMgr
unfolding basic_fault_mgr
power_fault_mgr now =
    let first = record (basic_fault_mgr now) {
      affected_faults_mask = get_power_subsystem_fault_manager_affected_fault_mask;
    } in
    record first { affected_faults_mask = get_power_subsystem_fault_manager_affected_warning_mask }

unfoldable pub update_faults : ℕ → BasicFaultMgr → BasicFaultMgr × Bool
update_faults now m =
    let diff = bit_and (bit_xor m.prev_faults m.current_faults) m.fault_enable_mask in
    let summary_and_default = bit_and m.summary_faults m.default_fault_mask in
    let combined = bit_or summary_and_default m.current_faults in
    if diff == 0 then (m, false) else (
      record m { prev_faults = m.current_faults; summary_faults = combined; time_stamp = now },
      true,
    )

unfoldable pub reset_faults : ℕ → ℕ → BasicFaultMgr → BasicFaultMgr
reset_faults now mask m =
    let not_mask = complement 64 mask in
    record m {
      summary_faults = bit_and m.summary_faults not_mask;
      current_faults = bit_and m.current_faults not_mask;
      prev_faults = bit_and m.prev_faults not_mask;
      time_stamp = now;
    }

-- The two words are returned as uint16_t.
unfoldable pub update_fault_status : ℕ → ℕ → ℕ → ℕ → ℕ → ℕ × ℕ
update_fault_status summary_fault_status fault_enable_mask new_fault_status affected_warn_info
      affected_fault =
    let affected_all = bit_or affected_fault affected_warn_info in
    let cf = summary_fault_status in
    let cf_prime = bit_and cf (complement 64 affected_warn_info) in
    let new_masked = bit_and new_fault_status affected_all in
    let updated_summary_faults = bit_xor cf (bit_or new_masked cf_prime) in
    let changed_bits = bit_and (bit_and fault_enable_mask affected_all) updated_summary_faults in
    (updated_summary_faults % 2 ^ 16, changed_bits % 2 ^ 16)

unfoldable pub merge_faults : ℕ → BasicFaultMgr → BasicFaultMgr × ℕ
merge_faults bits m =
    let bits_mask = bit_and m.fault_enable_mask bits in
    let summary = bit_or m.summary_faults bits_mask in
    if bits_mask == 0 then (m, bits_mask) else (
      record m {
        summary_faults = summary;
        current_faults = bit_or m.current_faults bits_mask;
        prev_faults = m.summary_faults;
      },
      bit_xor summary m.summary_faults,
    )

unfoldable pub update_summary : ℕ → BasicFaultMgr → BasicFaultMgr
update_summary new_summary m = record m {
  prev_faults = m.current_faults;
  summary_faults = new_summary;
  current_faults = new_summary;
}

unfoldable pub set_mask_comm : ℕ → ℕ → BasicFaultMgr → BasicFaultMgr
set_mask_comm now new_fault_mask m =
    let summary = bit_or (bit_and m.summary_faults m.default_fault_mask) new_fault_mask in
    record m {
      fault_enable_mask = bit_or m.fault_enable_mask new_fault_mask;
      affected_faults_mask = bit_or m.affected_faults_mask new_fault_mask;
      prev_faults = m.current_faults;
      summary_faults = summary;
      current_faults = summary;
      time_stamp = now;
    }

unfoldable pub enable_faults_in_mask : ℕ → BasicFaultMgr → BasicFaultMgr × ℕ
enable_faults_in_mask mask m =
    let enabled = bit_or m.fault_enable_mask mask in
    (record m { fault_enable_mask = enabled }, bit_xor enabled m.fault_enable_mask)
