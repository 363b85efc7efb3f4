-- ===== src/Faultmgr/FaultMgr/Laws.antt =====
-- What the operations of the system's fault manager decide and change.
use ts_m2cellcpp.Prelude.{
  [], ◌∷◌, ℕ, ◌<◌, ◌≡◌, ◌↔◌, ◌⊎◌, inl, inr, true, false, ◌&&◌, ◌||◌, ◌==◌, Bool-cases, bit, bit_and,
  bit_or, bit-bit_and, bit-bit_or, bit-bit_xor, bit-zero, nonzero-bit, bit_of_zero, bit_xor,
  nonzero_of_bit, arith,
}
use ts_m2cellcpp.Faultmgr.FaultBit.{
  crio_comm_fault, motor_voltage_warn, comm_voltage_warn, single_breaker_trip, motor_relay,
  comm_relay, hardware_fault,
}
use ts_m2cellcpp.Faultmgr.FaultStatusBits.{set_bit_at}
use ts_m2cellcpp.Faultmgr.FaultStatusBits.Laws.{bit-set_bit_at, bit-set_all}
use ts_m2cellcpp.Faultmgr.Masks.{get_power_subsystem_fault_manager_affected_warning_mask}
use ts_m2cellcpp.Faultmgr.BasicFaultMgr.{
  BasicFaultMgr, CrioSubsystem, power_subsystem, update_faults, update_summary,
}
use ts_m2cellcpp.Faultmgr.BasicFaultMgr.Laws.{
  update_fault_status-bit, reset_faults-bit, diff-bit, set_mask_comm-bit,
}
use ts_m2cellcpp.Faultmgr.SafeMode.{SafeMode}
use ts_m2cellcpp.Faultmgr.FaultMgr.{
  FaultMgr, reset_faults, check_for_power_subsystem_faults, update_summary_system_faults,
  act_on_health, update_power_faults, report_com_connection_count,
}

-- Bit `i` is a fault that the power manager has, current or latched, and that is enabled.
abbrev pub HasFault : FaultMgr → ℕ → Type 0
HasFault f i =
    (bit f.power_fault_mgr.fault_enable_mask i ≡ true)
    × ((bit f.power_fault_mgr.current_faults i || bit f.power_fault_mgr.summary_faults i) ≡ true)

module _ (mask : ℕ) (f : FaultMgr) where
  abbrev fault_bitmap : ℕ
  fault_bitmap =
      bit_and (bit_and mask f.power_fault_mgr.fault_enable_mask)
        (bit_or f.power_fault_mgr.current_faults f.power_fault_mgr.summary_faults)

  fault_bitmap-bit :
      (i : ℕ)
      → bit fault_bitmap i ≡ (
          (bit mask i && bit f.power_fault_mgr.fault_enable_mask i)
          && (bit f.power_fault_mgr.current_faults i || bit f.power_fault_mgr.summary_faults i))
  fault_bitmap-bit i = ground (
    arith,
    bit-bit_and (bit_and mask f.power_fault_mgr.fault_enable_mask)
        (bit_or f.power_fault_mgr.current_faults f.power_fault_mgr.summary_faults) i,
    bit-bit_and mask f.power_fault_mgr.fault_enable_mask i,
    bit-bit_or f.power_fault_mgr.current_faults f.power_fault_mgr.summary_faults i,
  )

  pub check_of_fault :
      (i : ℕ) → bit mask i ≡ true → HasFault f i → check_for_power_subsystem_faults mask f ≡ true
  unfolding check_for_power_subsystem_faults
  check_of_fault i m h = ground (arith, fault_bitmap-bit i, nonzero_of_bit fault_bitmap i)

  fault_of_check :
      check_for_power_subsystem_faults mask f ≡ true
      → f.comm_connection_fault ≡ false
      → (i : ℕ) × (bit mask i ≡ true) × HasFault f i
  unfolding check_for_power_subsystem_faults
  fault_of_check h c =
      let (i, e) = nonzero-bit fault_bitmap (ground arith) in
      (i, ground (arith, fault_bitmap-bit i), ground (arith, fault_bitmap-bit i))

  -- checkForPowerSubsystemFaults refuses power exactly when there is no connection, or an enabled
  -- fault of the mask is current or latched.
  pub check_for_power_subsystem_faults_iff :
      (check_for_power_subsystem_faults mask f ≡ true)
      ↔ ((f.comm_connection_fault ≡ true) ⊎ ((i : ℕ) × (bit mask i ≡ true) × HasFault f i))
  check_for_power_subsystem_faults_iff = (
    λ h. elim (Bool-cases f.comm_connection_fault) [
      | inl lost ↦ inl lost
      | inr kept ↦ inr (fault_of_check h kept)
    ],
    λ h. elim h [
      | inl lost ↦ unfold check_for_power_subsystem_faults in ground arith
      | inr (i, m, e) ↦ check_of_fault i m e
    ],
  )

-- The affected masks of the power manager as its constructor leaves them.
pub record IsAsBuilt (m : BasicFaultMgr) : Type 0 where
  pub affected : m.affected_faults_mask ≡ get_power_subsystem_fault_manager_affected_warning_mask
  pub no_warn_info : m.affected_warn_info_mask ≡ 0

warn_mask-bit :
    (i : ℕ)
    → bit get_power_subsystem_fault_manager_affected_warning_mask i ≡ true
    → i < 16
    → (i ≡ 10) ⊎ (i ≡ 12)
unfolding get_power_subsystem_fault_manager_affected_warning_mask
warn_mask-bit i h lt = ground (
  arith,
  bit-zero i,
  bit-set_all 0
      (motor_voltage_warn ∷ comm_voltage_warn ∷ single_breaker_trip ∷ motor_relay ∷ comm_relay
        ∷ hardware_fault ∷ [])
      i,
)

update_summary-bit :
    (bfm summary : BasicFaultMgr) (i : ℕ)
    → IsAsBuilt bfm
    → i < 64
    → bit (update_summary_system_faults bfm summary).summary_faults i ≡ true
    → (i ≡ 10) ⊎ (i ≡ 12) ⊎ (update_summary_system_faults bfm summary ≡ summary)
unfolding update_summary_system_faults update_summary
update_summary-bit bfm summary i built lt h = ground (
  arith,
  built.affected,
  built.no_warn_info,
  bit-zero i,
  warn_mask-bit i,
  update_fault_status-bit summary.summary_faults bfm.fault_enable_mask bfm.current_faults
      bfm.affected_warn_info_mask bfm.affected_faults_mask i,
)

same_diff : (a e : ℕ) → (bit_and (bit_xor a a) e == 0) ≡ true
same_diff a e = elim (Bool-cases (bit_and (bit_xor a a) e == 0)) [
  | inl same ↦ same
  | inr differs ↦
      let (i, found) = nonzero-bit (bit_and (bit_xor a a) e) differs in
      ground (arith, bit-bit_and (bit_xor a a) e i, bit-bit_xor a a i)
]

module _ {S : Type 0} (host : SafeMode S) where
  -- What updatePowerFaults leaves in the summary of the system below bit 64: with the affected masks as the
  -- constructor sets them, either the summary is unchanged, or its only faults are bits 10 and 12,
  -- the two voltage warnings.
  pub update_power_faults-summary :
      (now current : ℕ) (subsystem : CrioSubsystem) (f : FaultMgr) (s : S) (i : ℕ)
      → IsAsBuilt f.power_fault_mgr
      → i < 64
      → let f' = (update_power_faults host now current subsystem f s).0 in
        (bit f'.summary_system_faults_status.summary_faults i ≡ false)
        ⊎ (i ≡ 10)
        ⊎ (i ≡ 12)
        ⊎ (f'.summary_system_faults_status ≡ f.summary_system_faults_status)
  unfolding update_power_faults update_faults
  update_power_faults-summary now current subsystem f s i built lt = ground (
    arith,
    update_summary-bit
        (update_faults now (record (f.power_fault_mgr) { current_faults = current })).0
        f.summary_system_faults_status i,
  )

  -- An update for the power subsystem with a health fault that is enabled, and that was not in the
  -- update before, shuts power off.
  pub update_power_faults-off :
      (now current i : ℕ) (f : FaultMgr) (s : S)
      → bit f.health_fault_mask i ≡ true
      → bit f.power_fault_mgr.fault_enable_mask i ≡ true
      → bit f.power_fault_mgr.prev_faults i ≡ false
      → bit current i ≡ true
      → host.is_off (update_power_faults host now current power_subsystem f s).1 ≡ true
  unfolding update_power_faults act_on_health update_faults
  update_power_faults-off now current i f s health enabled old new = ground (
    arith,
    host.go_to_safe_mode-off now s,
    diff-bit (record (f.power_fault_mgr) { current_faults = current }) i,
    bit_of_zero
        (bit_and (bit_xor f.power_fault_mgr.prev_faults current)
          f.power_fault_mgr.fault_enable_mask)
        i,
    bit-bit_and current f.health_fault_mask i,
    bit_of_zero (bit_and current f.health_fault_mask) i,
  )

  -- Only the first report of a word acts: a second one of the same word by any subsystem changes
  -- neither the manager nor the rest of the program, whatever faults the word holds.
  pub update_power_faults_again :
      (now later current : ℕ) (first second : CrioSubsystem) (f : FaultMgr) (s : S)
      → let r = update_power_faults host now current first f s in
        update_power_faults host later current second r.0 r.1 ≡ r
  unfolding update_power_faults update_faults
  update_power_faults_again now later current first second f s =
      ground (arith, same_diff current f.power_fault_mgr.fault_enable_mask)

  -- Losing the last connection sets the flag that forbids power, puts the communication fault into
  -- the summary, enabled, and shuts power off; a connection clears the flag and the fault.
  pub report_com_connection_count_lem :
      (now count : ℕ) (f : FaultMgr) (s : S)
      → let r = report_com_connection_count host now count f s in
        let summary = (r.0).summary_system_faults_status in
        (count ≡ 0)
          × (host.is_off r.1 ≡ true)
          × ((r.0).comm_connection_fault ≡ true)
          × (bit summary.summary_faults 57 ≡ true)
          × (bit summary.fault_enable_mask 57 ≡ true)
        ⊎ (0 < count)
          × (r.1 ≡ s)
          × ((r.0).comm_connection_fault ≡ false)
          × (bit summary.summary_faults 57 ≡ false)
  unfolding report_com_connection_count reset_faults
  report_com_connection_count_lem now count f s = ground (
    arith,
    host.go_to_safe_mode-off now s,
    set_mask_comm-bit now (set_bit_at 0 crio_comm_fault) f.summary_system_faults_status 57,
    reset_faults-bit now (set_bit_at 0 crio_comm_fault) f.summary_system_faults_status 57,
    bit-set_bit_at 0 crio_comm_fault 57,
  )
