-- ===== src/System/Built.antt =====
-- The system as its constructors leave it.
use ts_m2cellcpp.Prelude.{ℕ, ◌≡◌, ◌∙◌, ap, refl, arith}
use ts_m2cellcpp.Control.Defs.{SysInfo, unknown}
use ts_m2cellcpp.Control.Ports.{get_output, motor_power_on}
use ts_m2cellcpp.Control.PowerSubsystemConfig.{PowerSubsystemConfig, setup_motor, setup_comm}
use ts_m2cellcpp.Control.PowerSubsystem.{Drive, power_subsystem, set_power_off}
use ts_m2cellcpp.Control.PowerSubsystem.Invariant.{
  Inv, IsOff, Wired, Apart, Apart-Kept, set_power_off-IsOff,
}
use ts_m2cellcpp.Control.PowerSystem.{power_system}
use ts_m2cellcpp.Control.PowerSystem.Both.{Local, motor_bit, Inv-Local, IsOff-Local}
use ts_m2cellcpp.State.Model.{model}
use ts_m2cellcpp.State.Model.Laws.{BothIn}
use ts_m2cellcpp.System.{world}
use ts_m2cellcpp.System.Invariants.{Rest}

module _ (now : ℕ) (c : PowerSubsystemConfig) (info : SysInfo) (port : ℕ) where
  new-IsOff : Wired c → IsOff (power_subsystem now c info port)
  unfolding power_subsystem
  new-IsOff w = set_power_off-IsOff now _ w

  -- The fields that the constructor sets, which switching off leaves.
  new-fields :
      let d = power_subsystem now c info port in
      (d.sub.ps_cfg ≡ c) × (d.sub.actual_power_state ≡ unknown) × (d.sub.phase ≡ 1)
  unfolding power_subsystem set_power_off
  new-fields = ground arith

  new-Inv : Wired c → Inv (power_subsystem now c info port)
  new-Inv w = ground (arith, new-IsOff w, new-fields)

-- The second constructor leaves the power output of the first subsystem alone.
comm-Apart :
    (now : ℕ) (info : SysInfo) (port : ℕ)
    → Apart motor_power_on
        (get_output port motor_power_on)
        setup_comm
        (power_subsystem now setup_comm info port)
unfolding power_subsystem setup_comm
comm-Apart now info port =
    (Apart-Kept _ _ _).switch_off now _
      (record { cfg = refl; not_power = refl; not_breaker = refl; value = refl })

built-Both :
    {P : Drive → Type 0} (k : Local P) (now : ℕ) (info : SysInfo) (port : ℕ)
    → ((n : ℕ) → P (power_subsystem now setup_motor info n))
    → ((n : ℕ) → P (power_subsystem now setup_comm info n))
    → BothIn P (world now info port).model
unfolding world model power_system
built-Both k now info port q r =
    let d1 = power_subsystem now setup_motor info port in
    let d2 = power_subsystem now setup_comm info d1.port in
    let cfg1 = (new-fields now setup_motor info port).0 in
    let cfg2 = (new-fields now setup_comm info d1.port).0 in
    let output = ap (λ (c : PowerSubsystemConfig). c.output_power_on_bit_pos) cfg1 ∙ motor_bit in
    record {
      configured = record { motor_cfg = cfg1; comm_cfg = cfg2 };
      motor =
          k.port d2.port (record d1 { faults_set = 0 })
            (ground (arith, output, (comm-Apart now info d1.port).value))
            (k.kept.faults 0 d1 (q port));
      comm = k.kept.faults 0 d2 (r d1.port);
    }

motor_config-Wired : Wired setup_motor
unfolding setup_motor
motor_config-Wired = refl

comm_config-Wired : Wired setup_comm
unfolding setup_comm
comm_config-Wired = refl

pub world-IsOff : (now : ℕ) (info : SysInfo) (port : ℕ) → BothIn IsOff (world now info port).model
world-IsOff now info port =
    built-Both IsOff-Local now info port (λ n. new-IsOff now setup_motor info n motor_config-Wired)
      (λ n. new-IsOff now setup_comm info n comm_config-Wired)

pub world-Rest : (now : ℕ) (info : SysInfo) (port : ℕ) → Rest (world now info port).model
world-Rest now info port = record {
  sound =
      built-Both Inv-Local now info port (λ n. new-Inv now setup_motor info n motor_config-Wired)
        (λ n. new-Inv now setup_comm info n comm_config-Wired);
  off = λ h. world-IsOff now info port;
}
