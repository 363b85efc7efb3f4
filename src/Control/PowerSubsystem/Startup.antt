-- ===== src/Control/PowerSubsystem/Startup.antt =====
-- How a power subsystem comes on: the phases of TURNING_ON, and RESET.
pub mod Reads
use ts_m2cellcpp.Prelude.{
  ◌⊎◌, ℕ, zero, suc, ◌+◌, ◌-◌, ltb, Bool-cases, inl, inr, ◌<◌, ◌≤◌, ◌≡◌, ◌∙◌, ap, refl, true, false,
  arith,
}
use ts_m2cellcpp.Control.Defs.{SysInfo, good, PowerState, off, turning_on, on}
use ts_m2cellcpp.Control.PowerSubsystemConfig.{max_voltage_warn, output_on_max_delay}
use ts_m2cellcpp.Control.PowerSubsystem.{
  check_for_faults, set_power_on, Drive, get_voltage, get_current, get_relay_control_output_on,
  get_crio_ready_output_on, get_interlock_relay_control_output_on, power_should_be_on,
  set_power_off,
}
use ts_m2cellcpp.Faultmgr.FaultMgr.{FaultMgr}
use ts_m2cellcpp.Control.PowerSubsystem.Daq.{daq_begin, daq_end, whole_daq}
use ts_m2cellcpp.Control.PowerSubsystem.Faults.{noted, daq_end-on}
use ts_m2cellcpp.Control.PowerSubsystem.PowerOn.{
  breaker_status, check_for_power_on_breaker_fault, count_telemetry, finish_turning_on,
  process_turning_on, process_on, process_on_phase, watch_voltage, process_actual, process_power_on,
}

-- What was last read is as it should be: the outputs and the interlock on, the voltage and the
-- current within their limits, and every breaker closed.
pub record Healthy (d : Drive) : Type 0 where
  pub relay : get_relay_control_output_on d.sub ≡ true
  pub crio : get_crio_ready_output_on d.sub ≡ true
  pub interlock : get_interlock_relay_control_output_on d.sub ≡ true
  pub low : d.sub.ps_cfg.breaker_operating_voltage ≤ get_voltage d.sub
  pub high : get_voltage d.sub ≤ max_voltage_warn d.sub.ps_cfg
  pub current : get_current d.sub ≤ d.sub.ps_cfg.max_current
  pub breakers : breaker_status d ≡ good

-- A healthy subsystem passes the tests before the switch.
Healthy-process_actual :
    (now : ℕ) (d : Drive)
    → Healthy d
    → process_power_on now d ≡ process_actual now true d.sub.actual_power_state d
unfolding process_power_on power_should_be_on
Healthy-process_actual now d h = ground arith

Healthy-process_turning_on :
    (now : ℕ) (d : Drive)
    → Healthy d
    → d.sub.actual_power_state ≡ turning_on
    → process_power_on now d ≡ process_turning_on now true d
unfolding process_actual
Healthy-process_turning_on now d h t =
    Healthy-process_actual now d h ∙ ap (λ a. process_actual now true a d) t

-- In phase 1 the reads are counted, and the tenth starts phase 2.
count_read :
    (now : ℕ) (d : Drive)
    → Healthy d
    → d.sub.actual_power_state ≡ turning_on
    → d.sub.phase ≡ 1
    → d.sub.telem_counter < 9
    → process_power_on now d
      ≡ record d { sub = record (d.sub) { telem_counter = d.sub.telem_counter + 1 } }
unfolding process_turning_on count_telemetry
count_read now d h t p c = Healthy-process_turning_on now d h t ∙ ground arith

tenth_count :
    (now : ℕ) (d : Drive)
    → d.sub.phase ≡ 1
    → d.sub.telem_counter ≡ 9
    → count_telemetry now d
      ≡ record d { sub = record (d.sub) { telem_counter = 10; phase = 2; phase_start_time = now } }
unfolding count_telemetry
tenth_count now d p c = ground arith

late_count : (now : ℕ) (d : Drive) → d.sub.phase ≡ 2 → count_telemetry now d ≡ d
unfolding count_telemetry
late_count now d p = ground arith

Healthy-finish_turning_on :
    (now : ℕ) (d : Drive)
    → Healthy d
    → finish_turning_on now d ≡ record d {
      sub = record (d.sub) { actual_power_state = on; phase = 1; phase_start_time = now };
    }
unfolding finish_turning_on
Healthy-finish_turning_on now d h = ground arith

Healthy-moved :
    (a : PowerState) (n m c : ℕ) (d : Drive)
    → Healthy d
    → Healthy (record d {
      sub = record (d.sub) {
        actual_power_state = a;
        phase = n;
        phase_start_time = m;
        telem_counter = c;
      };
    })
unfolding get_relay_control_output_on get_crio_ready_output_on get_interlock_relay_control_output_on
    get_voltage get_current
Healthy-moved a n m c d h = record {
  relay = h.relay;
  crio = h.crio;
  interlock = h.interlock;
  low = h.low;
  high = h.high;
  current = h.current;
  breakers = h.breakers;
}

-- The time since the start of phase 1 decides whether the tenth read is also the last.
tenth_read_soon :
    (now : ℕ) (d : Drive)
    → Healthy d
    → d.sub.actual_power_state ≡ turning_on
    → d.sub.phase ≡ 1
    → d.sub.telem_counter ≡ 9
    → ltb (output_on_max_delay d.sub.ps_cfg) (now - d.sub.phase_start_time) ≡ false
    → process_power_on now d
      ≡ record d { sub = record (d.sub) { telem_counter = 10; phase = 2; phase_start_time = now } }
unfolding process_turning_on
tenth_read_soon now d h t p c soon =
    Healthy-process_turning_on now d h t ∙ ground (arith, tenth_count now d p c)

tenth_read_late :
    (now : ℕ) (d : Drive)
    → Healthy d
    → d.sub.actual_power_state ≡ turning_on
    → d.sub.phase ≡ 1
    → d.sub.telem_counter ≡ 9
    → ltb (output_on_max_delay d.sub.ps_cfg) (now - d.sub.phase_start_time) ≡ true
    → process_power_on now d ≡ record d {
      sub = record (d.sub) {
        telem_counter = 10;
        actual_power_state = on;
        phase = 1;
        phase_start_time = now;
      };
    }
unfolding process_turning_on
tenth_read_late now d h t p c late =
    let e = record d {
      sub = record (d.sub) { telem_counter = 10; phase = 3; phase_start_time = now };
    } in
    Healthy-process_turning_on now d h t
    ∙ ground (
      arith,
      tenth_count now d p c,
      Healthy-finish_turning_on now e (Healthy-moved d.sub.actual_power_state 3 now 10 d h),
    )

-- A read after the delay finds the breakers closed.
last_read :
    (now : ℕ) (d : Drive)
    → Healthy d
    → d.sub.actual_power_state ≡ turning_on
    → d.sub.phase ≡ 2
    → d.sub.phase_start_time + output_on_max_delay d.sub.ps_cfg < now
    → (process_power_on now d).sub.actual_power_state ≡ on
unfolding process_turning_on
last_read now d h t p c =
    let e = record d { sub = record (d.sub) { phase = 3; phase_start_time = now } } in
    ap (λ x. x.sub.actual_power_state) (Healthy-process_turning_on now d h t)
    ∙ ground (
      arith,
      late_count now d p,
      Healthy-finish_turning_on now e
          (Healthy-moved d.sub.actual_power_state 3 now d.sub.telem_counter d h),
    )

-- A healthy subsystem that is ON stays ON.
stays_on :
    (now : ℕ) (d : Drive)
    → Healthy d
    → d.sub.actual_power_state ≡ on
    → (process_power_on now d).sub.actual_power_state ≡ on
unfolding process_actual process_on process_on_phase watch_voltage check_for_power_on_breaker_fault
    set_power_off
stays_on now d h t =
    ap (λ x. x.sub.actual_power_state)
      (Healthy-process_actual now d h ∙ ap (λ a. process_actual now true a d) t)
    ∙ ground arith

-- The first read after the switch-on starts the count.
first_read :
    (now : ℕ) (d : Drive)
    → Healthy d
    → d.sub.actual_power_state ≡ off
    → d.sub.telem_counter ≡ 0
    → process_power_on now d ≡ record d {
      sub = record (d.sub) {
        actual_power_state = turning_on;
        phase = 1;
        phase_start_time = now;
        telem_counter = 1;
      };
    }
unfolding process_actual process_turning_on count_telemetry
first_read now d h t c =
    Healthy-process_actual now d h ∙ ap (λ a. process_actual now true a d) t ∙ ground arith
