-- ===== src/Control/PowerSubsystem/Invariant.antt =====
-- What holds of a power subsystem between two calls, and what its calls leave alone.
use ts_m2cellcpp.Prelude.{ℕ, ◌≤◌, ◌≡◌, ◌≢◌, ◌⊎◌, Bool, true, false, ◌==◌, arith}
use ts_m2cellcpp.Faultmgr.FaultMgr.{FaultMgr}
use ts_m2cellcpp.Control.Defs.{SysInfo, off, on, turning_off}
use ts_m2cellcpp.Control.Ports.{OutputBit, output_pos, get_output, write_output}
use ts_m2cellcpp.Control.Ports.Laws.{get_output-write_output}
use ts_m2cellcpp.Control.PowerSubsystemConfig.{PowerSubsystemConfig}
use ts_m2cellcpp.Control.PowerSubsystem.{Drive, set_power_off, set_power_on}
use ts_m2cellcpp.Control.PowerSubsystem.Kept.{Kept, daq_begin-Kept, daq_end-Kept}
use ts_m2cellcpp.Control.PowerSubsystem.Daq.{daq_begin, daq_end}

-- The two outputs of a subsystem are different bits.
abbrev pub Wired : PowerSubsystemConfig → Type 0
Wired c = (output_pos c.output_breaker_bit_pos == output_pos c.output_power_on_bit_pos) ≡ false

-- The power output of the subsystem is high only while it wants power, the target is ON or OFF,
-- the actual state is never TURNING_OFF, and the phase is 1, 2 or 3.
pub record Inv (d : Drive) : Type 0 where
  pub wired : Wired d.sub.ps_cfg
  pub target : (d.sub.targ_power_state ≡ on) ⊎ (d.sub.targ_power_state ≡ off)
  pub powered :
      get_output d.port d.sub.ps_cfg.output_power_on_bit_pos ≡ true → d.sub.targ_power_state ≡ on
  pub actual : d.sub.actual_power_state ≢ turning_off
  pub phase_low : 1 ≤ d.sub.phase
  pub phase_high : d.sub.phase ≤ 3

-- The subsystem is off: it does not want power, and its power output is low.
pub record IsOff (d : Drive) : Type 0 where
  pub wired : Wired d.sub.ps_cfg
  pub target : d.sub.targ_power_state ≡ off
  pub low : get_output d.port d.sub.ps_cfg.output_power_on_bit_pos ≡ false

-- The output `b` is not one of the subsystem's, and has the value `v`.
pub record Apart (b : OutputBit) (v : Bool) (c : PowerSubsystemConfig) (d : Drive) : Type 0 where
  pub cfg : d.sub.ps_cfg ≡ c
  pub not_power : (output_pos c.output_power_on_bit_pos == output_pos b) ≡ false
  pub not_breaker : (output_pos c.output_breaker_bit_pos == output_pos b) ≡ false
  pub value : get_output d.port b ≡ v

-- The port after the writes of set_power_off.
low_output :
    (port : ℕ) (c : PowerSubsystemConfig)
    → get_output
        (write_output
          (write_output port c.output_breaker_bit_pos true)
          c.output_power_on_bit_pos
          false)
        c.output_power_on_bit_pos
      ≡ false
low_output port c = ground (
  arith,
  get_output-write_output (write_output port c.output_breaker_bit_pos true)
      c.output_power_on_bit_pos c.output_power_on_bit_pos false,
)

breaker_output :
    (port : ℕ) (c : PowerSubsystemConfig) (v : Bool)
    → Wired c
    → get_output (write_output port c.output_breaker_bit_pos v) c.output_power_on_bit_pos
      ≡ get_output port c.output_power_on_bit_pos
breaker_output port c v e =
    ground
      (arith, get_output-write_output port c.output_breaker_bit_pos c.output_power_on_bit_pos v)

set_power_off-Inv : (now : ℕ) (d : Drive) → Inv d → Inv (set_power_off now d)
unfolding set_power_off
set_power_off-Inv now d v = ground (arith, low_output d.port d.sub.ps_cfg)

pub set_power_off-IsOff : (now : ℕ) (d : Drive) → Wired d.sub.ps_cfg → IsOff (set_power_off now d)
unfolding set_power_off
set_power_off-IsOff now d w = ground (arith, low_output d.port d.sub.ps_cfg)

-- A write at another position.
write-other :
    (port : ℕ) (a b : OutputBit) (x : Bool)
    → (output_pos a == output_pos b) ≡ false
    → get_output (write_output port a x) b ≡ get_output port b
write-other port a b x ne = ground (arith, get_output-write_output port a b x)

set_power_off-Apart :
    (b : OutputBit) (v : Bool) (c : PowerSubsystemConfig) (now : ℕ) (d : Drive)
    → Apart b v c d
    → Apart b v c (set_power_off now d)
unfolding set_power_off
set_power_off-Apart b v c now d p =
    let k = d.sub.ps_cfg in
    ground (
      arith,
      write-other d.port k.output_breaker_bit_pos b true,
      write-other (write_output d.port k.output_breaker_bit_pos true) k.output_power_on_bit_pos b
          false,
    )

pub Inv-Kept : Kept Inv
Inv-Kept = record {
  switch_off = set_power_off-Inv;
  faults = λ w d v. ground arith;
  breaker = λ x d v. ground (arith, breaker_output d.port d.sub.ps_cfg x);
  phase = λ n d lo hi v. ground arith;
  start = λ n d v. ground arith;
  counter = λ n d v. ground arith;
  actual = λ a d ne v. ground arith;
  read = λ info d v. ground arith;
  prev = λ t a d v. ground arith;
}

pub IsOff-Kept : Kept IsOff
IsOff-Kept = record {
  switch_off = λ now d v. set_power_off-IsOff now d v.wired;
  faults = λ w d v. ground arith;
  breaker = λ x d v. ground (arith, breaker_output d.port d.sub.ps_cfg x);
  phase = λ n d lo hi v. ground arith;
  start = λ n d v. ground arith;
  counter = λ n d v. ground arith;
  actual = λ a d ne v. ground arith;
  read = λ info d v. ground arith;
  prev = λ t a d v. ground arith;
}

pub Apart-Kept : (b : OutputBit) (v : Bool) (c : PowerSubsystemConfig) → Kept (Apart b v c)
Apart-Kept b v c = record {
  switch_off = set_power_off-Apart b v c;
  faults = λ w d p. ground arith;
  breaker = λ x d p. ground (arith, write-other d.port d.sub.ps_cfg.output_breaker_bit_pos b x);
  phase = λ n d lo hi p. ground arith;
  start = λ n d p. ground arith;
  counter = λ n d p. ground arith;
  actual = λ a d ne p. ground arith;
  read = λ info d p. ground arith;
  prev = λ t a d p. ground arith;
}

-- Each half of a read keeps the invariant.
pub daq-Inv :
    (now : ℕ) (f : FaultMgr) (info : SysInfo) (d : Drive)
    → Inv d
    → Inv (daq_begin now f info d) × Inv (daq_end now d)
daq-Inv now f info d v = (daq_begin-Kept Inv-Kept now f info d v, daq_end-Kept Inv-Kept now d v)

-- A read never switches a subsystem on: one that is off is off after each half.
pub daq-IsOff :
    (now : ℕ) (f : FaultMgr) (info : SysInfo) (d : Drive)
    → IsOff d
    → IsOff (daq_begin now f info d) × IsOff (daq_end now d)
daq-IsOff now f info d v =
    (daq_begin-Kept IsOff-Kept now f info d v, daq_end-Kept IsOff-Kept now d v)

pub set_power_on-Inv : (now : ℕ) (f : FaultMgr) (d : Drive) → Inv d → Inv (set_power_on now f d).0
unfolding set_power_on
set_power_on-Inv now f d v = ground (arith, set_power_off-Inv now d)

pub set_power_on-Apart :
    (b : OutputBit) (v : Bool) (c : PowerSubsystemConfig) (now : ℕ) (f : FaultMgr) (d : Drive)
    → Apart b v c d
    → Apart b v c (set_power_on now f d).0
unfolding set_power_on
set_power_on-Apart b v c now f d p =
    let k = d.sub.ps_cfg in
    ground (
      arith,
      set_power_off-Apart b v c now d p,
      write-other d.port k.output_breaker_bit_pos b true,
      write-other (write_output d.port k.output_breaker_bit_pos true) k.output_power_on_bit_pos b
          true,
    )
