-- ===== src/Control/PowerSubsystem/Switch.antt =====
-- When a power subsystem switches on, and that it is off whenever it does not.
use ts_m2cellcpp.Prelude.{ℕ, ◌≡◌, ◌⊎◌, Bool, true, false, not, ◌&&◌, arith}
use ts_m2cellcpp.Faultmgr.FaultMgr.{FaultMgr}
use ts_m2cellcpp.Control.Defs.{SysInfo, on}
use ts_m2cellcpp.Control.Ports.{OutputBit, get_output, write_output}
use ts_m2cellcpp.Control.Ports.Laws.{get_output-write_output}
use ts_m2cellcpp.Control.PowerSubsystem.{
  PowerSubsystem, Drive, check_for_faults, get_crio_ready_output_on, set_power_on,
}
use ts_m2cellcpp.Control.PowerSubsystem.Invariant.{Wired, IsOff, set_power_off-IsOff}
use ts_m2cellcpp.Control.PowerSubsystem.Daq.{daq_begin}

-- The subsystem wants power, and its two outputs are high.
pub record IsOn (d : Drive) : Type 0 where
  pub target : d.sub.targ_power_state ≡ on
  pub power_high : get_output d.port d.sub.ps_cfg.output_power_on_bit_pos ≡ true
  pub breaker_high : get_output d.port d.sub.ps_cfg.output_breaker_bit_pos ≡ true

abbrev pub may_switch_on : FaultMgr → PowerSubsystem → Bool
may_switch_on f p = not (check_for_faults f p) && get_crio_ready_output_on p

high_outputs :
    (port : ℕ) (a b : OutputBit)
    → (get_output (write_output (write_output port a true) b true) b ≡ true)
      × (get_output (write_output (write_output port a true) b true) a ≡ true)
high_outputs port a b = ground (
  arith,
  get_output-write_output port a a true,
  get_output-write_output (write_output port a true) b a true,
  get_output-write_output (write_output port a true) b b true,
)

-- For a subsystem whose two outputs are different bits: setPowerOn answers true exactly when none
-- of the faults that the subsystem watches is present and the cRIO interlock is enabled; then the
-- subsystem wants power and its two outputs are high, and otherwise it is off.
pub set_power_on_lem :
    (now : ℕ) (f : FaultMgr) (d : Drive)
    → Wired d.sub.ps_cfg
    → let r = set_power_on now f d in
      (may_switch_on f d.sub ≡ true) × (r.1 ≡ true) × IsOn r.0
      ⊎ (may_switch_on f d.sub ≡ false) × (r.1 ≡ false) × IsOff r.0
unfolding set_power_on
set_power_on_lem now f d w =
    let c = d.sub.ps_cfg in
    let outputs = high_outputs d.port c.output_breaker_bit_pos c.output_power_on_bit_pos in
    ground (arith, outputs, set_power_off-IsOff now d w)

-- A read finds the faults before anything else: when one that the subsystem watches is present,
-- the subsystem is off before the change of its state is reported.
pub daq_begin-fault :
    (now : ℕ) (f : FaultMgr) (info : SysInfo) (d : Drive)
    → Wired d.sub.ps_cfg
    → check_for_faults f d.sub ≡ true
    → IsOff (daq_begin now f info d)
unfolding daq_begin check_for_faults
daq_begin-fault now f info d w h =
    ground
      (arith, set_power_off-IsOff now (record d { sub = record (d.sub) { sys_info = info } }) w)
