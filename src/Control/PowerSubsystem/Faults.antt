-- ===== src/Control/PowerSubsystem/Faults.antt =====
-- The faults that a read of the DAQ finds, and those that it cannot find.
use ts_m2cellcpp.Prelude.{
  ◌⊎◌, inl, inr, Bool-cases, ap, ℕ, ◌≡◌, ◌≢◌, ◌∙◌, if◌then◌else◌, ◌<◌, ◌≤◌, refl, Bool, true, false,
  if_both, if_true, if_false, lt→ltb, bit, ltb, arith,
}
use ts_m2cellcpp.Faultmgr.FaultBit.{FaultBit, position}
use ts_m2cellcpp.Faultmgr.FaultStatusBits.Laws.{bit-set_bit_at, position-lt}
use ts_m2cellcpp.Control.Defs.{on, off, turning_off, PowerState}
use ts_m2cellcpp.Control.PowerSubsystemConfig.{max_voltage_warn, max_voltage_fault}
use ts_m2cellcpp.Control.PowerSubsystem.{
  PowerSubsystem, check_for_faults, Drive, get_voltage, get_current, set_fault, power_should_be_on,
  set_power_off,
}
use ts_m2cellcpp.Control.PowerSubsystem.Invariant.{
  Wired, IsOff, Inv, Inv-Kept, set_power_off-IsOff, daq-IsOff,
}
use ts_m2cellcpp.Faultmgr.FaultMgr.{FaultMgr, fault_mgr}
use ts_m2cellcpp.Control.Defs.{SysInfo}
use ts_m2cellcpp.Control.PowerSubsystemConfig.{PowerSubsystemConfig}
use ts_m2cellcpp.Control.PowerSubsystem.Daq.{daq_begin, process_target, daq_end, whole_daq}
use ts_m2cellcpp.Control.PowerSubsystem.PowerOn.{process_power_on}
use ts_m2cellcpp.Control.PowerSubsystem.PowerOff.{
  process_turning_off, process_not_off, process_power_off,
}

abbrev has_fault : Drive → FaultBit → Bool
has_fault d b = bit d.faults_set (position b)

-- The subsystem is off, and the fault is recorded.
abbrev pub Tripped : FaultBit → Drive → Type 0
Tripped b d = IsOff d × (has_fault d b ≡ true)

power_should_be_on_sub : (d : Drive) → (power_should_be_on d).0.sub ≡ d.sub
unfolding power_should_be_on
power_should_be_on_sub d = ground arith

set_power_off_faults : (now : ℕ) (d : Drive) → (set_power_off now d).faults_set ≡ d.faults_set
unfolding set_power_off
set_power_off_faults now d = ground arith

-- A fault is recorded, and then the subsystem is turned off.
fault_off :
    (now : ℕ) (b : FaultBit) (d : Drive)
    → Wired d.sub.ps_cfg
    → Tripped b (set_power_off now (set_fault b d))
fault_off now b d w = (
  set_power_off-IsOff now (set_fault b d) w,
  ground (
    arith,
    set_power_off_faults now (set_fault b d),
    bit-set_bit_at d.faults_set b (position b),
    position-lt b,
  ),
)

seen-Wired :
    (b : Bool) (w : FaultBit) (d : Drive)
    → Wired d.sub.ps_cfg
    → let seen = (power_should_be_on d).0 in Wired (if b then set_fault w seen else seen).sub.ps_cfg
seen-Wired b w d h =
    let W : Drive → Type 0 = λ e. Wired e.sub.ps_cfg in
    let seen_w : W (power_should_be_on d).0 = ground (arith, power_should_be_on_sub d) in
    if_both W b seen_w seen_w

-- For a subsystem whose two outputs are different bits, with the voltage above its limit: a read
-- of a powered subsystem turns it off and records the voltage fault.
over_voltage :
    (now : ℕ) (d : Drive)
    → Wired d.sub.ps_cfg
    → max_voltage_fault d.sub.ps_cfg < get_voltage d.sub
    → Tripped d.sub.ps_cfg.voltage_fault (process_power_on now d)
unfolding process_power_on
over_voltage now d w h =
    let c = d.sub.ps_cfg in
    if_true (Tripped c.voltage_fault) (ltb (max_voltage_fault c) (get_voltage d.sub)) _ _
      (lt→ltb _ _ h)
      (fault_off now c.voltage_fault (power_should_be_on d).0
        (seen-Wired false c.voltage_fault d w))

-- For a subsystem whose two outputs are different bits, with the voltage within its limit and the
-- current above its own: a read of a powered subsystem turns it off and records the excessive
-- current.
over_current :
    (now : ℕ) (d : Drive)
    → Wired d.sub.ps_cfg
    → get_voltage d.sub ≤ max_voltage_fault d.sub.ps_cfg
    → d.sub.ps_cfg.max_current < get_current d.sub
    → Tripped d.sub.ps_cfg.excessive_current (process_power_on now d)
unfolding process_power_on
over_current now d w h k =
    let c = d.sub.ps_cfg in
    if_false (Tripped c.excessive_current) (ltb (max_voltage_fault c) (get_voltage d.sub)) _ _
      (ground arith)
      (if_true (Tripped c.excessive_current) (ltb c.max_current (get_current d.sub)) _ _
        (lt→ltb _ _ k)
        (fault_off now c.excessive_current _
          (seen-Wired (ltb (max_voltage_warn c) (get_voltage d.sub)) c.voltage_warn d w)))

-- The voltage or the current is above its limit.
abbrev pub IsAbove : PowerSubsystem → Type 0
IsAbove p = (max_voltage_fault p.ps_cfg < get_voltage p) ⊎ (p.ps_cfg.max_current < get_current p)

-- The fault of the voltage or that of the current is recorded.
abbrev pub Recorded : PowerSubsystemConfig → Drive → Type 0
Recorded c d = (has_fault d c.voltage_fault ≡ true) ⊎ (has_fault d c.excessive_current ≡ true)

over_limit :
    (now : ℕ) (d : Drive)
    → Wired d.sub.ps_cfg
    → IsAbove d.sub
    → IsOff (process_power_on now d) × Recorded d.sub.ps_cfg (process_power_on now d)
over_limit now d w (inl h) = let (o, f) = over_voltage now d w h in (o, inl f)
over_limit now d w (inr h) =
    elim (Bool-cases (ltb (max_voltage_fault d.sub.ps_cfg) (get_voltage d.sub))) [
      | inl v ↦ let (o, f) = over_voltage now d w (ground (arith, v)) in (o, inl f)
      | inr v ↦ let (o, f) = over_current now d w (ground (arith, v)) h in (o, inr f)
    ]

Inv-IsOff : (d : Drive) → Inv d → d.sub.targ_power_state ≡ off → IsOff d
Inv-IsOff d v t = record { wired = v.wired; target = t; low = ground (arith, v.powered, t) }

-- The states that the next read compares with.
abbrev pub noted : Drive → Drive
noted d = record d {
  sub = record (d.sub) {
    targ_power_state_prev = d.sub.targ_power_state;
    actual_power_state_prev = d.sub.actual_power_state;
  };
}

pub daq_end-on :
    (now : ℕ) (d : Drive)
    → d.sub.targ_power_state ≡ on
    → daq_end now d ≡ process_power_on now (noted d)
unfolding daq_end process_target
daq_end-on now d t = ap (λ s. process_target now s (noted d)) t

-- The second half, by the target.
over_limit_end :
    (now : ℕ) (d : Drive)
    → Inv d
    → IsAbove d.sub
    → IsOff (daq_end now d)
      × ((d.sub.targ_power_state ≡ off) ⊎ Recorded d.sub.ps_cfg (daq_end now d))
unfolding get_voltage get_current
over_limit_end now d v a = elim v.target [
  | inl t ↦ rw (daq_end-on now d t) (let (o, r) = over_limit now (noted d) v.wired a in (o, inr r))
  | inr t ↦ ((daq-IsOff now (fault_mgr 0) d.sub.sys_info d (Inv-IsOff d v t)).1, inl t)
]

-- A read that finds the voltage or the current above its limit leaves the subsystem off, whatever
-- state it was in, from every state that the invariant allows. It records the fault of the voltage
-- or that of the current, unless the subsystem was to be off already or an earlier fault turns it
-- off first. Between its halves the report changes nothing.
pub whole_daq-IsOff :
    (now later : ℕ) (f : FaultMgr) (info : SysInfo) (d : Drive)
    → Inv d
    → IsAbove (record (d.sub) { sys_info = info })
    → IsOff (whole_daq now later f info d)
      × ((d.sub.targ_power_state ≡ off)
          ⊎ (check_for_faults f d.sub ≡ true)
          ⊎ Recorded d.sub.ps_cfg (whole_daq now later f info d))
unfolding whole_daq daq_begin check_for_faults
whole_daq-IsOff now later f info d v a =
    let read = record d { sub = record (d.sub) { sys_info = info } } in
    elim (Bool-cases (check_for_faults f d.sub)) [
      | inl c ↦ rw c (
        (daq-IsOff later f info (set_power_off now read) (set_power_off-IsOff now read v.wired)).1,
        inr (inl refl),
      )
      | inr c ↦ rw c (
          let (o, r) = over_limit_end later read (Inv-Kept.read info d v) a in
          (o, elim r [ inl t ↦ inl t | inr s ↦ inr (inr s) ]))
    ]

restarted_faults :
    (now : ℕ) (d : Drive)
    → d.sub.phase_start_time ≡ now
    → (process_turning_off now d).faults_set ≡ d.faults_set
unfolding process_turning_off
restarted_faults now d e = ground arith

not_off_faults :
    (now : ℕ) (a : PowerState) (d : Drive)
    → a ≢ turning_off
    → (process_not_off now a d).faults_set ≡ d.faults_set
unfolding process_not_off
not_off_faults now off d ne = refl
not_off_faults now turning_off d ne = ground arith
not_off_faults now _ d ne = restarted_faults now _ refl ∙ set_power_off_faults now d

-- In the states that a subsystem reaches, turning off records no fault: each read restarts the
-- clock that the relay fault waits for.
pub process_power_off-no_fault :
    (now : ℕ) (d : Drive) → Inv d → (process_power_off now d).faults_set ≡ d.faults_set
unfolding process_power_off
process_power_off-no_fault now d v =
    ground (arith, set_power_off_faults now d, not_off_faults now d.sub.actual_power_state d)
