-- ===== src/Control/PowerSubsystem/Startup/Reads.antt =====
-- The reads of the DAQ from the switch-on of a power subsystem until it is ON.
use ts_m2cellcpp.Prelude.{
  ◌⊎◌, ℕ, zero, suc, ◌+◌, ◌-◌, ltb, Bool-cases, inl, inr, ◌<◌, ◌≤◌, ◌≡◌, ◌∙◌, ap, refl, true, false,
  arith,
}
use ts_m2cellcpp.Control.Defs.{SysInfo, PowerState, off, turning_on, on}
use ts_m2cellcpp.Control.PowerSubsystemConfig.{output_on_max_delay}
use ts_m2cellcpp.Control.PowerSubsystem.{
  check_for_faults, set_power_on, Drive, get_voltage, get_current, get_relay_control_output_on,
  get_crio_ready_output_on, get_interlock_relay_control_output_on,
}
use ts_m2cellcpp.Faultmgr.FaultMgr.{FaultMgr}
use ts_m2cellcpp.Control.PowerSubsystem.Daq.{daq_begin, daq_end, whole_daq}
use ts_m2cellcpp.Control.PowerSubsystem.Faults.{noted, daq_end-on}
use ts_m2cellcpp.Control.PowerSubsystem.PowerOn.{process_power_on}
use ts_m2cellcpp.Control.PowerSubsystem.Startup.{
  Healthy, first_read, count_read, tenth_read_soon, tenth_read_late, last_read, stays_on,
}

-- What a read finds, for a subsystem of the configuration of `d`.
abbrev pub finds : SysInfo → Drive → Drive
finds info d = record d { sub = record (d.sub) { sys_info = info } }

Healthy-found :
    (info : SysInfo) (d e : Drive)
    → e.sub.ps_cfg ≡ d.sub.ps_cfg
    → Healthy (finds info d)
    → Healthy (noted (finds info e))
unfolding get_relay_control_output_on get_crio_ready_output_on get_interlock_relay_control_output_on
    get_voltage get_current
Healthy-found info d e c h = record {
  relay = rw c h.relay;
  crio = rw c h.crio;
  interlock = rw c h.interlock;
  low = rw c h.low;
  high = rw c h.high;
  current = rw c h.current;
  breakers = rw c h.breakers;
}

-- A subsystem of the configuration of `d` that wants power, in a state, a phase and with a count.
pub record At (d : Drive) (a : PowerState) (n c : ℕ) (e : Drive) : Type 0 where
  pub cfg : e.sub.ps_cfg ≡ d.sub.ps_cfg
  pub target : e.sub.targ_power_state ≡ on
  pub state : e.sub.actual_power_state ≡ a
  pub phase : e.sub.phase ≡ n
  pub counter : e.sub.telem_counter ≡ c

-- Reads at the given times: the n-th finds `info n`, with the faults `f n` of the manager.
abbrev pub read_at : (ℕ → ℕ) → (ℕ → FaultMgr) → (ℕ → SysInfo) → ℕ → Drive → Drive
read_at time f info zero d = d
read_at time f info (suc n) d = whole_daq (time n) (time n) (f n) (info n) (read_at time f info n d)

same_faults :
    (f : FaultMgr) (e d : Drive)
    → e.sub.ps_cfg ≡ d.sub.ps_cfg
    → check_for_faults f d.sub ≡ false
    → check_for_faults f e.sub ≡ false
unfolding check_for_faults
same_faults f e d c h = rw c h

daq_begin-quiet :
    (now : ℕ) (f : FaultMgr) (info : SysInfo) (e : Drive)
    → check_for_faults f e.sub ≡ false
    → daq_begin now f info e ≡ finds info e
unfolding daq_begin check_for_faults
daq_begin-quiet now f info e h = rw h refl

module _ (time : ℕ → ℕ) (f : ℕ → FaultMgr) (info : ℕ → SysInfo) (d : Drive)
    (no_fault : (n : ℕ) → check_for_faults (f n) d.sub ≡ false)
    (healthy : (n : ℕ) → Healthy (finds (info n) d)) where
  -- A read of a subsystem that wants power.
  whole_daq-on :
      (n : ℕ) (e : Drive)
      → e.sub.ps_cfg ≡ d.sub.ps_cfg
      → e.sub.targ_power_state ≡ on
      → whole_daq (time n) (time n) (f n) (info n) e
        ≡ process_power_on (time n) (noted (finds (info n) e))
  unfolding whole_daq
  whole_daq-on n e c t =
      ap (daq_end (time n))
        (daq_begin-quiet (time n) (f n) (info n) e (same_faults (f n) e d c (no_fault n)))
      ∙ daq_end-on (time n) (finds (info n) e) t

  found : (n : ℕ) (e : Drive) → e.sub.ps_cfg ≡ d.sub.ps_cfg → Healthy (noted (finds (info n) e))
  found n e c = Healthy-found (info n) d e c (healthy n)

  starts :
      (e : Drive) (p : ℕ)
      → At d off p 0 e
      → At d turning_on 1 1 (whole_daq (time 0) (time 0) (f 0) (info 0) e)
  starts e p a =
      let x = noted (finds (info 0) e) in
      rw
        (whole_daq-on 0 e a.cfg a.target, first_read (time 0) x (found 0 e a.cfg) a.state a.counter)
        (record { cfg = a.cfg; target = a.target; state = refl; phase = refl; counter = refl })

  counts :
      (n : ℕ) (e : Drive)
      → n < 8
      → At d turning_on 1 (suc n) e
      → At d turning_on 1
          (suc (suc n))
          (whole_daq (time (suc n)) (time (suc n)) (f (suc n)) (info (suc n)) e)
  counts n e le a =
      let x = noted (finds (info (suc n)) e) in
      rw
        (
          whole_daq-on (suc n) e a.cfg a.target,
          count_read (time (suc n)) x (found (suc n) e a.cfg) a.state a.phase
              (omega (arith, a.counter)),
        )
        (record {
          cfg = a.cfg;
          target = a.target;
          state = a.state;
          phase = a.phase;
          counter = omega (arith, a.counter);
        })

  -- Nine reads from the switch-on.
  counted :
      (n : ℕ) (e : Drive) (p : ℕ)
      → n ≤ 8
      → At d off p 0 e
      → At d turning_on 1 (suc n) (read_at time f info (suc n) e)
  counted zero e p le a = starts e p a
  counted (suc n) e p le a =
      counts n (read_at time f info (suc n) e) (omega arith) (counted n e p (omega arith) a)

  -- The tenth read ends the count, and, if it is late, the start.
  tenth :
      (e : Drive)
      → At d turning_on 1 9 e
      → let last = whole_daq (time 9) (time 9) (f 9) (info 9) e in
        (At d turning_on 2 10 last × (last.sub.phase_start_time ≡ time 9)) ⊎ At d on 1 10 last
  tenth e a =
      let x = noted (finds (info 9) e) in
      let h = found 9 e a.cfg in
      elim (Bool-cases (ltb (output_on_max_delay x.sub.ps_cfg) (time 9 - x.sub.phase_start_time))) [
        | inl late ↦ inr (
            rw
              (
                whole_daq-on 9 e a.cfg a.target,
                tenth_read_late (time 9) x h a.state a.phase a.counter late,
              )
              (record {
                cfg = a.cfg;
                target = a.target;
                state = refl;
                phase = refl;
                counter = refl;
              }))
        | inr soon ↦ inl (
            rw
              (
                whole_daq-on 9 e a.cfg a.target,
                tenth_read_soon (time 9) x h a.state a.phase a.counter soon,
              )
              (
                record {
                  cfg = a.cfg;
                  target = a.target;
                  state = a.state;
                  phase = refl;
                  counter = refl;
                },
                refl,
              ))
      ]

  -- The read after it, by what the tenth has left.
  eleventh :
      (e : Drive)
      → time 9 + output_on_max_delay d.sub.ps_cfg < time 10
      → (At d turning_on 2 10 e × (e.sub.phase_start_time ≡ time 9)) ⊎ At d on 1 10 e
      → (whole_daq (time 10) (time 10) (f 10) (info 10) e).sub.actual_power_state ≡ on
  eleventh e w (inl (a, s)) = rw (whole_daq-on 10 e a.cfg a.target) (
      last_read (time 10) (noted (finds (info 10) e)) (found 10 e a.cfg) a.state a.phase
        (rw (s, a.cfg) w))
  eleventh e w (inr a) =
      rw (whole_daq-on 10 e a.cfg a.target)
        (stays_on (time 10) (noted (finds (info 10) e)) (found 10 e a.cfg) a.state)

  reads :
      (e : Drive) (p : ℕ)
      → At d off p 0 e
      → time 9 + output_on_max_delay d.sub.ps_cfg < time 10
      → (read_at time f info 11 e).sub.actual_power_state ≡ on
  reads e p a w =
      eleventh (read_at time f info 10 e) w
        (tenth (read_at time f info 9 e) (counted 8 e p (omega arith) a))

-- A subsystem that was OFF, after a call that switched it on.
switched :
    (now : ℕ) (f : FaultMgr) (d : Drive)
    → d.sub.actual_power_state ≡ off
    → (set_power_on now f d).1 ≡ true
    → At d off 1 0 (set_power_on now f d).0
unfolding set_power_on
switched now f d t s = record {
  cfg = ground (arith, s);
  target = ground (arith, s);
  state = ground (arith, s, t);
  phase = ground (arith, s);
  counter = ground (arith, s);
}

-- Power comes on: when setPowerOn has switched a subsystem on that is OFF, and every read after it
-- is healthy and meets no fault of the manager, then ten reads, and one more that is later than the
-- tenth by more than the delay of the outputs, bring it to ON. Both halves of a read
-- see one time, and the report between them changes nothing.
pub comes_on :
    (now : ℕ) (g : FaultMgr) (time : ℕ → ℕ) (f : ℕ → FaultMgr) (info : ℕ → SysInfo) (d : Drive)
    → d.sub.actual_power_state ≡ off
    → (set_power_on now g d).1 ≡ true
    → ((n : ℕ) → check_for_faults (f n) d.sub ≡ false)
    → ((n : ℕ) → Healthy (finds (info n) d))
    → time 9 + output_on_max_delay d.sub.ps_cfg < time 10
    → (read_at time f info 11 (set_power_on now g d).0).sub.actual_power_state ≡ on
comes_on now g time f info d t s no_fault healthy late =
    reads time f info d no_fault healthy (set_power_on now g d).0 1 (switched now g d t s) late
