-- ===== src/Simulator/Falls.antt =====
-- The simulated supplies go down in time.
use native.Mathlib.Nat.{mul-add, mul-le-mul_left}
use ts_m2cellcpp.Prelude.{
  ℕ, ◌+◌, ◌*◌, ◌≤◌, ◌<◌, ◌≡◌, sym, ap, subst, ◌∙◌, ◌⊎◌, inr, false, if_false, arith,
}
use ts_m2cellcpp.Control.Ports.{get_output}
use ts_m2cellcpp.Control.PowerSubsystemConfig.{
  PowerSubsystemConfig, setup_motor, setup_comm, output_on_max_delay, output_off_max_delay,
}
use ts_m2cellcpp.Simulator.{
  SimPowerSubsystem, voltage_nominal, voltage_change_rate_off, get_power_on, calc_breakers, fall,
  calc_voltage, calc_voltage_current, sim_turn,
}
use ts_m2cellcpp.Simulator.Laws.{calc_breakers-Like}

-- The voltage is gone, or has fallen with the time from at most the nominal one.
abbrev pub Fallen : PowerSubsystemConfig → ℕ → ℕ → Type 0
Fallen c elapsed v = (v ≡ 0) ⊎ (v + voltage_change_rate_off c * elapsed ≤ voltage_nominal c)

fall-Fallen :
    (c : PowerSubsystemConfig) (elapsed d v : ℕ)
    → Fallen c elapsed v
    → Fallen c (elapsed + d) (fall (voltage_change_rate_off c * d) v)
unfolding fall
fall-Fallen c elapsed d v h =
    let r = voltage_change_rate_off c in
    step (voltage_nominal c) (r * elapsed) (r * d) (r * (elapsed + d)) v (mul-add r elapsed d) h
  where
    step : (n a b s v : ℕ) → s ≡ a + b → (v ≡ 0) ⊎ (v + a ≤ n) → (fall b v ≡ 0) ⊎ (fall b v + s ≤ n)
    step n a b s v e h = ground (arith, e, h)

calc_voltage-Fallen :
    (c : PowerSubsystemConfig) (elapsed d : ℕ) (s : SimPowerSubsystem)
    → s.psc ≡ c
    → get_power_on s ≡ false
    → Fallen c elapsed s.voltage
    → Fallen c (elapsed + d) (calc_voltage d s)
unfolding calc_voltage
calc_voltage-Fallen c elapsed d s p off h =
    if_false (Fallen c (elapsed + d)) (get_power_on s) _ _ off (
      subst (λ k. Fallen c (elapsed + d) (fall (voltage_change_rate_off k * d) s.voltage)) (sym p)
        (fall-Fallen c elapsed d s.voltage h))

pub sim_turn-Fallen :
    (c : PowerSubsystemConfig) (elapsed ts d output : ℕ) (s : SimPowerSubsystem)
    → s.psc ≡ c
    → get_output output c.output_power_on_bit_pos ≡ false
    → Fallen c elapsed s.voltage
    → Fallen c (elapsed + d) (sim_turn ts d output s).voltage
unfolding sim_turn calc_voltage_current get_power_on
sim_turn-Fallen c elapsed ts d output s p low h =
    let t = record s { output_port = output } in
    let l = calc_breakers-Like ts t in
    calc_voltage-Fallen c elapsed d (calc_breakers ts t) (l.psc ∙ p)
      (ap (λ k. get_output (calc_breakers ts t).output_port k.output_power_on_bit_pos) (l.psc ∙ p)
        ∙ ap (λ o. get_output o c.output_power_on_bit_pos) l.output_port
        ∙ low)
      (subst (Fallen c elapsed) (sym l.voltage) h)

pub Fallen-start : (c : PowerSubsystemConfig) (v : ℕ) → v ≤ voltage_nominal c → Fallen c 0 v
Fallen-start c v h = inr (no_time (voltage_change_rate_off c) v (voltage_nominal c) h)
  where
    no_time : (r v n : ℕ) → v ≤ n → v + r * 0 ≤ n
    no_time r v n h = omega arith

-- Less time has the voltage fallen by less.
pub Fallen-sooner :
    (c : PowerSubsystemConfig) (e elapsed v : ℕ) → e ≤ elapsed → Fallen c elapsed v → Fallen c e v
Fallen-sooner c e elapsed v h k =
    less (voltage_change_rate_off c * e) (voltage_change_rate_off c * elapsed) v (voltage_nominal c)
      (mul-le-mul_left (voltage_change_rate_off c) h) k
  where
    less : (a b v n : ℕ) → a ≤ b → (v ≡ 0) ⊎ (v + b ≤ n) → (v ≡ 0) ⊎ (v + a ≤ n)
    less a b v n h k = ground (arith, h, k)

abbrev pub DownInTime : PowerSubsystemConfig → Type 0
DownInTime c = voltage_nominal c < voltage_change_rate_off c * output_off_max_delay c

pub motor-DownInTime : DownInTime setup_motor
unfolding setup_motor output_on_max_delay output_off_max_delay
motor-DownInTime = omega arith

pub comm-DownInTime : DownInTime setup_comm
unfolding setup_comm output_on_max_delay output_off_max_delay
comm-DownInTime = omega arith

pub Fallen-zero :
    (c : PowerSubsystemConfig) (elapsed v : ℕ)
    → DownInTime c
    → output_off_max_delay c ≤ elapsed
    → Fallen c elapsed v
    → v ≡ 0
Fallen-zero c elapsed v t e h =
    gone (voltage_nominal c) (voltage_change_rate_off c * output_off_max_delay c)
      (voltage_change_rate_off c * elapsed) v t (mul-le-mul_left (voltage_change_rate_off c) e) h
  where
    gone : (n a b v : ℕ) → n < a → a ≤ b → (v ≡ 0) ⊎ (v + b ≤ n) → v ≡ 0
    gone n a b v x y h = ground (arith, x, y, h)
