-- ===== src/Control/PowerSubsystem/Kept.antt =====
-- What the writes of a power subsystem keep, the reads of the DAQ keep: an interface that the
-- invariants of the subsystem fill, one law for each kind of write in control/PowerSubsystem.cpp.
use ts_m2cellcpp.Prelude.{
  ℕ, ◌+◌, ◌-◌, ◌*◌, ◌≤◌, ◌≢◌, Bool, true, false, not, ◌&&◌, ◌==◌, ltb, leb, if_both, arith,
}
use ts_m2cellcpp.Faultmgr.FaultMgr.{FaultMgr}
use ts_m2cellcpp.Control.Defs.{
  SysInfo, status_value, good, fault, PowerState, unknown, off, turning_on, reset, on, turning_off,
}
use ts_m2cellcpp.Control.PowerSubsystemConfig.{
  min_voltage_warn, min_voltage_fault, max_voltage_warn, max_voltage_fault, output_on_max_delay,
  output_off_max_delay,
}
use ts_m2cellcpp.Control.PowerSubsystem.{
  Drive, get_voltage, get_current, get_relay_control_output_on, get_crio_ready_output_on,
  get_interlock_relay_control_output_on, power_should_be_on, check_for_faults, set_power_off,
}
use ts_m2cellcpp.Control.PowerSubsystem.PowerOn.{
  breaker_status, set_breaker_output, update_faults, check_for_power_on_breaker_fault,
  watch_voltage, process_on_phase, process_on, count_telemetry, finish_turning_on,
  process_turning_on, process_reset, process_actual, process_power_on,
}
use ts_m2cellcpp.Control.PowerSubsystem.PowerOff.{
  process_turning_off, process_not_off, process_power_off,
}
use ts_m2cellcpp.Control.PowerSubsystem.Daq.{daq_begin, daq_end, process_target}

pub record Kept (P : Drive → Type 0) : Type 0 where
  pub switch_off : (now : ℕ) (d : Drive) → P d → P (set_power_off now d)
  pub faults : (w : ℕ) (d : Drive) → P d → P (record d { faults_set = w })
  pub breaker : (v : Bool) (d : Drive) → P d → P (set_breaker_output v d)
  pub phase :
      (n : ℕ) (d : Drive)
      → 1 ≤ n
      → n ≤ 3
      → P d
      → P (record d { sub = record (d.sub) { phase = n } })
  pub start :
      (n : ℕ) (d : Drive) → P d → P (record d { sub = record (d.sub) { phase_start_time = n } })
  pub counter :
      (n : ℕ) (d : Drive) → P d → P (record d { sub = record (d.sub) { telem_counter = n } })
  pub actual :
      (a : PowerState) (d : Drive)
      → a ≢ turning_off
      → P d
      → P (record d { sub = record (d.sub) { actual_power_state = a } })
  pub read :
      (info : SysInfo) (d : Drive) → P d → P (record d { sub = record (d.sub) { sys_info = info } })
  pub prev :
      (t a : PowerState) (d : Drive)
      → P d
      → P (record d {
        sub = record (d.sub) { targ_power_state_prev = t; actual_power_state_prev = a };
      })

module _ {P : Drive → Type 0} (k : Kept P) where
  update_faults-Kept : (now : ℕ) (d : Drive) → P d → P (update_faults now d)
  unfolding update_faults
  update_faults-Kept now d p = k.switch_off now _ (k.faults _ _ p)

  power_should_be_on-Kept : (d : Drive) → P d → P (power_should_be_on d).0
  unfolding power_should_be_on
  power_should_be_on-Kept d p =
      let Q : Drive × Bool → Type 0 = λ r. P r.0 in
      if_both Q (get_relay_control_output_on d.sub && get_crio_ready_output_on d.sub)
        (if_both Q (get_interlock_relay_control_output_on d.sub) p (k.faults _ d p)) p

  check-Kept : (now : ℕ) (d : Drive) → P d → P (check_for_power_on_breaker_fault now d).0
  unfolding check_for_power_on_breaker_fault
  check-Kept now d p =
      let Q : Drive × Bool → Type 0 = λ r. P r.0 in
      let status = status_value (breaker_status d) in
      if_both Q (leb d.sub.ps_cfg.breaker_operating_voltage (get_voltage d.sub))
        (if_both Q (status == status_value good) p (
          if_both Q (leb status (status_value fault)) (k.switch_off now _ (k.faults _ d p))
            (k.faults _ d p)))
        (update_faults-Kept now d p)

  watch_voltage-Kept : (now : ℕ) (d : Drive) → P d → P (watch_voltage now d)
  unfolding watch_voltage
  watch_voltage-Kept now d p =
      let voltage = get_voltage d.sub in
      let warned = if_both P (ltb voltage (min_voltage_warn d.sub.ps_cfg)) (k.faults _ d p) p in
      if_both P (ltb voltage (min_voltage_fault d.sub.ps_cfg))
        (k.switch_off now _ (k.faults _ _ warned)) warned

  process_on_phase-Kept : (now : ℕ) (d : Drive) → P d → P (process_on_phase now d)
  unfolding process_on_phase
  process_on_phase-Kept now d p =
      if_both P (leb d.sub.phase 1)
        (if_both P _ (k.start now _ (k.phase 2 d (omega arith) (omega arith) p)) p)
        (if_both P (d.sub.phase == 2) (watch_voltage-Kept now d p) p)

  process_on-Kept : (now : ℕ) (out : Bool) (d : Drive) → P d → P (process_on now out d)
  unfolding process_on
  process_on-Kept now out d p =
      let checked = check-Kept now d p in
      if_both P (not out) (k.switch_off now d p)
        (if_both P _ (k.switch_off now _ checked) (process_on_phase-Kept now _ checked))

  count_telemetry-Kept : (now : ℕ) (d : Drive) → P d → P (count_telemetry now d)
  unfolding count_telemetry
  count_telemetry-Kept now d p =
      let counted = k.counter (d.sub.telem_counter + 1) d p in
      if_both P (d.sub.phase == 1)
        (if_both P (leb 10 (d.sub.telem_counter + 1))
          (k.start now _ (k.phase 2 _ (omega arith) (omega arith) counted)) counted)
        p

  finish_turning_on-Kept : (now : ℕ) (d : Drive) → P d → P (finish_turning_on now d)
  unfolding finish_turning_on
  finish_turning_on-Kept now d p =
      let restarted = k.start now _ (k.phase 1 d (omega arith) (omega arith) p) in
      if_both P (ltb (get_voltage d.sub) d.sub.ps_cfg.breaker_operating_voltage)
        (update_faults-Kept now d p)
        (if_both P (status_value (breaker_status d) == status_value good)
          (k.actual on _ (ground arith) restarted)
          (k.breaker false _ (k.actual reset _ (ground arith) restarted)))

  process_turning_on-Kept :
      (now : ℕ) (out : Bool) (d : Drive) → P d → P (process_turning_on now out d)
  unfolding process_turning_on
  process_turning_on-Kept now out d p =
      let d1 = count_telemetry now d in
      let counted = count_telemetry-Kept now d p in
      let phase_3 = k.start now _ (k.phase 3 d1 (omega arith) (omega arith) counted) in
      if_both P (ltb 1 d1.sub.phase && not out) (k.switch_off now _ counted) (
        if_both P (d1.sub.phase == 2)
          (if_both P (ltb (output_on_max_delay d.sub.ps_cfg) (now - d.sub.phase_start_time))
            (finish_turning_on-Kept now _ phase_3) counted)
          (if_both P (leb 3 d1.sub.phase) (finish_turning_on-Kept now _ counted) counted))

  process_reset-Kept : (now : ℕ) (out : Bool) (d : Drive) → P d → P (process_reset now out d)
  unfolding process_reset
  process_reset-Kept now out d p =
      let since = now - d.sub.phase_start_time in
      let width = d.sub.ps_cfg.reset_breaker_pulse_width in
      let high = k.breaker true d p in
      let checked = check-Kept now _ high in
      if_both P (not out) (k.switch_off now _ high) (
        if_both P (ltb (get_voltage d.sub) d.sub.ps_cfg.breaker_operating_voltage)
          (update_faults-Kept now d p)
          (if_both P (ltb width since)
            (if_both P (ltb (width * 2) since)
              (if_both P (check_for_power_on_breaker_fault now (set_breaker_output true d)).1
                checked (k.start now _ (k.actual on _ (ground arith) checked)))
              high)
            p))

  process_actual-Kept :
      (now : ℕ) (out : Bool) (a : PowerState) (d : Drive) → P d → P (process_actual now out a d)
  unfolding process_actual
  process_actual-Kept now out on d p = process_on-Kept now out d p
  process_actual-Kept now out turning_on d p = process_turning_on-Kept now out d p
  process_actual-Kept now out reset d p = process_reset-Kept now out d p
  process_actual-Kept now out unknown d p = k.switch_off now d p
  process_actual-Kept now out _ d p = process_turning_on-Kept now out _ (
      k.start now _
        (k.phase 1 _ (omega arith) (omega arith) (k.actual turning_on d (ground arith) p)))

  process_power_on-Kept : (now : ℕ) (d : Drive) → P d → P (process_power_on now d)
  unfolding process_power_on
  process_power_on-Kept now d p =
      let c = d.sub.ps_cfg in
      let seen = power_should_be_on-Kept d p in
      let warned =
        if_both P (ltb (max_voltage_warn c) (get_voltage d.sub)) (k.faults _ _ seen) seen in
      if_both P (ltb (max_voltage_fault c) (get_voltage d.sub))
        (k.switch_off now _ (k.faults _ _ seen))
        (if_both P (ltb c.max_current (get_current d.sub))
          (k.switch_off now _ (k.faults _ _ warned))
          (process_actual-Kept now _ d.sub.actual_power_state _ warned))

  process_turning_off-Kept : (now : ℕ) (d : Drive) → P d → P (process_turning_off now d)
  unfolding process_turning_off
  process_turning_off-Kept now d p =
      if_both P (ltb (get_voltage d.sub) d.sub.ps_cfg.voltage_off_level)
        (k.start now _ (k.actual off d (ground arith) p))
        (if_both P (ltb (output_off_max_delay d.sub.ps_cfg) (now - d.sub.phase_start_time))
          (k.switch_off now _ (k.faults _ d p)) p)

  process_not_off-Kept : (now : ℕ) (a : PowerState) (d : Drive) → P d → P (process_not_off now a d)
  unfolding process_not_off
  process_not_off-Kept now off d p = p
  process_not_off-Kept now turning_off d p = process_turning_off-Kept now d p
  process_not_off-Kept now _ d p =
      process_turning_off-Kept now _ (k.start now _ (k.switch_off now d p))

  process_power_off-Kept : (now : ℕ) (d : Drive) → P d → P (process_power_off now d)
  unfolding process_power_off
  process_power_off-Kept now d p =
      if_both P (get_relay_control_output_on d.sub) (k.switch_off now d p)
        (process_not_off-Kept now d.sub.actual_power_state d p)

  process_target-Kept : (now : ℕ) (t : PowerState) (d : Drive) → P d → P (process_target now t d)
  unfolding process_target
  process_target-Kept now on d p = process_power_on-Kept now d p
  process_target-Kept now off d p = process_power_off-Kept now d p
  process_target-Kept now _ d p = process_power_off-Kept now _ (k.switch_off now d p)

  pub daq_begin-Kept :
      (now : ℕ) (f : FaultMgr) (info : SysInfo) (d : Drive) → P d → P (daq_begin now f info d)
  unfolding daq_begin
  daq_begin-Kept now f info d p =
      let seen = k.read info d p in
      if_both P (check_for_faults f (record (d.sub) { sys_info = info })) (k.switch_off now _ seen)
        seen

  pub daq_end-Kept : (now : ℕ) (d : Drive) → P d → P (daq_end now d)
  unfolding daq_end
  daq_end-Kept now d p = process_target-Kept now d.sub.targ_power_state _ (k.prev _ _ d p)
