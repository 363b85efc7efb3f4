-- ===== src/Control/PowerSystem/Both.antt =====
-- What holds of both subsystems on their shared port: a predicate that a subsystem keeps is kept
-- for both, since neither writes the power output of the other.
use ts_m2cellcpp.Prelude.{ℕ, ◌≡◌, ◌∙◌, ap, refl, ◌==◌, arith}
use ts_m2cellcpp.Control.Ports.{
  OutputBit, output_pos, get_output, motor_power_on, ilc_comm_power_on,
}
use ts_m2cellcpp.Control.PowerSubsystemConfig.{PowerSubsystemConfig, setup_motor, setup_comm}
use ts_m2cellcpp.Control.PowerSubsystem.{Drive, set_power_off}
use ts_m2cellcpp.Control.PowerSubsystem.Kept.{Kept}
use ts_m2cellcpp.Control.PowerSubsystem.Invariant.{
  Inv, IsOff, Wired, Apart, Inv-Kept, IsOff-Kept, Apart-Kept, set_power_off-IsOff,
}
use ts_m2cellcpp.Control.PowerSystem.{
  PowerSystem, motor_drive, comm_drive, put_motor, put_comm, motor_power_off, comm_power_off,
}

-- `kept`, and the port matters only at the power output of the subsystem.
pub record Local (P : Drive → Type 0) : Type 0 where
  pub kept : Kept P
  pub port :
      (n : ℕ) (d : Drive)
      → get_output n d.sub.ps_cfg.output_power_on_bit_pos
        ≡ get_output d.port d.sub.ps_cfg.output_power_on_bit_pos
      → P d
      → P (record d { port = n })

pub record Configured (p : PowerSystem) : Type 0 where
  pub motor_cfg : p.motor.ps_cfg ≡ setup_motor
  pub comm_cfg : p.comm.ps_cfg ≡ setup_comm

pub record Both (P : Drive → Type 0) (p : PowerSystem) : Type 0 where
  pub configured : Configured p
  pub motor : P (motor_drive 0 p)
  pub comm : P (comm_drive 0 p)

pub Inv-Local : Local Inv
Inv-Local = record { kept = Inv-Kept; port = λ n d e v. ground arith }

pub IsOff-Local : Local IsOff
IsOff-Local = record { kept = IsOff-Kept; port = λ n d e v. ground arith }

-- The motor subsystem leaves the power output of the other alone, and conversely.
pub motor-Apart :
    (w : ℕ) (p : PowerSystem)
    → Configured p
    → Apart ilc_comm_power_on (get_output p.port ilc_comm_power_on) setup_motor (motor_drive w p)
unfolding setup_motor
motor-Apart w p c = record { cfg = c.motor_cfg; not_power = refl; not_breaker = refl; value = refl }

pub comm-Apart :
    (w : ℕ) (p : PowerSystem)
    → Configured p
    → Apart motor_power_on (get_output p.port motor_power_on) setup_comm (comm_drive w p)
unfolding setup_comm
comm-Apart w p c = record { cfg = c.comm_cfg; not_power = refl; not_breaker = refl; value = refl }

pub motor_bit : setup_motor.output_power_on_bit_pos ≡ motor_power_on
unfolding setup_motor
motor_bit = refl

pub comm_bit : setup_comm.output_power_on_bit_pos ≡ ilc_comm_power_on
unfolding setup_comm
comm_bit = refl

module _ {P : Drive → Type 0} (k : Local P) where
  pub put_motor-Both :
      (e : Drive) (p : PowerSystem)
      → Both P p
      → P e
      → Apart ilc_comm_power_on (get_output p.port ilc_comm_power_on) setup_motor e
      → Both P (put_motor e p)
  put_motor-Both e p b q a =
      let bit : PowerSubsystemConfig → OutputBit = λ c. c.output_power_on_bit_pos in
      let at = ap bit b.configured.comm_cfg ∙ comm_bit in
      record {
        configured = record { motor_cfg = a.cfg; comm_cfg = b.configured.comm_cfg };
        motor = k.kept.faults 0 e q;
        comm = k.port e.port (comm_drive 0 p) (ground (arith, at, a.value)) b.comm;
      }

  pub put_comm-Both :
      (e : Drive) (p : PowerSystem)
      → Both P p
      → P e
      → Apart motor_power_on (get_output p.port motor_power_on) setup_comm e
      → Both P (put_comm e p)
  put_comm-Both e p b q a =
      let bit : PowerSubsystemConfig → OutputBit = λ c. c.output_power_on_bit_pos in
      let at = ap bit b.configured.motor_cfg ∙ motor_bit in
      record {
        configured = record { motor_cfg = b.configured.motor_cfg; comm_cfg = a.cfg };
        motor = k.port e.port (motor_drive 0 p) (ground (arith, at, a.value)) b.motor;
        comm = k.kept.faults 0 e q;
      }

  pub motor_power_off-Both : (now : ℕ) (p : PowerSystem) → Both P p → Both P (motor_power_off now p)
  unfolding motor_power_off
  motor_power_off-Both now p b =
      put_motor-Both _ p b (k.kept.switch_off now _ b.motor)
        ((Apart-Kept _ _ _).switch_off now _ (motor-Apart 0 p b.configured))

  pub comm_power_off-Both : (now : ℕ) (p : PowerSystem) → Both P p → Both P (comm_power_off now p)
  unfolding comm_power_off
  comm_power_off-Both now p b =
      put_comm-Both _ p b (k.kept.switch_off now _ b.comm)
        ((Apart-Kept _ _ _).switch_off now _ (comm-Apart 0 p b.configured))

motor-Wired : (p : PowerSystem) → Configured p → Wired p.motor.ps_cfg
unfolding setup_motor
motor-Wired p c =
    ap (λ k. output_pos k.output_breaker_bit_pos == output_pos k.output_power_on_bit_pos)
      c.motor_cfg

comm-Wired : (p : PowerSystem) → Configured p → Wired p.comm.ps_cfg
unfolding setup_comm
comm-Wired p c =
    ap (λ k. output_pos k.output_breaker_bit_pos == output_pos k.output_power_on_bit_pos) c.comm_cfg

-- Switching both off turns both off: the second switch leaves the first subsystem off.
pub comm_power_off-IsOff :
    (now : ℕ) (p : PowerSystem)
    → Configured p
    → Both IsOff (comm_power_off now (motor_power_off now p))
unfolding motor_power_off comm_power_off
comm_power_off-IsOff now p c =
    let d1 = set_power_off now (motor_drive 0 p) in
    let p1 = put_motor d1 p in
    let d2 = set_power_off now (comm_drive 0 p1) in
    let bit : PowerSubsystemConfig → OutputBit = λ k. k.output_power_on_bit_pos in
    let off1 = set_power_off-IsOff now (motor_drive 0 p) (motor-Wired p c) in
    let off2 = set_power_off-IsOff now (comm_drive 0 p1) (comm-Wired p c) in
    let apart1 = (Apart-Kept _ _ _).switch_off now _ (motor-Apart 0 p c) in
    let c1 : Configured p1 = record { motor_cfg = apart1.cfg; comm_cfg = c.comm_cfg } in
    let apart2 = (Apart-Kept _ _ _).switch_off now _ (comm-Apart 0 p1 c1) in
    let at = ap bit apart1.cfg ∙ motor_bit in
    record {
      configured = record { motor_cfg = apart1.cfg; comm_cfg = apart2.cfg };
      motor =
          IsOff-Local.port d2.port (motor_drive 0 p1) (ground (arith, at, apart2.value))
            (IsOff-Kept.faults 0 d1 off1);
      comm = IsOff-Kept.faults 0 d2 off2;
    }

-- The power outputs of the two subsystems.
pub motor_output :
    (p : PowerSystem) → Configured p → p.motor.ps_cfg.output_power_on_bit_pos ≡ motor_power_on
motor_output p c =
    let bit : PowerSubsystemConfig → OutputBit = λ k. k.output_power_on_bit_pos in
    ap bit c.motor_cfg ∙ motor_bit

pub comm_output :
    (p : PowerSystem) → Configured p → p.comm.ps_cfg.output_power_on_bit_pos ≡ ilc_comm_power_on
comm_output p c =
    let bit : PowerSubsystemConfig → OutputBit = λ k. k.output_power_on_bit_pos in
    ap bit c.comm_cfg ∙ comm_bit
