-- ===== src/Simulator/Rises.antt =====
-- The simulated supplies come up in time.
use native.Mathlib.Nat.{mul-add, mul-le-mul_left}
use ts_m2cellcpp.Prelude.{
  ℕ, ◌+◌, ◌*◌, ◌≤◌, ◌≡◌, sym, ap, subst, ◌∙◌, ◌⊎◌, inl, inr, true, false, List, [], ◌∷◌, if_true,
  arith,
}
use ts_m2cellcpp.Control.Ports.{get_output}
use ts_m2cellcpp.Control.PowerSubsystemConfig.{
  PowerSubsystemConfig, setup_motor, setup_comm, output_on_max_delay, output_off_max_delay,
}
use ts_m2cellcpp.Simulator.{
  SimPowerSubsystem, voltage_nominal, voltage_change_rate_on, get_power_on, calc_breakers, rise,
  calc_voltage, calc_voltage_current, sim_turn, sim_turns,
}
use ts_m2cellcpp.Simulator.Laws.{
  Calm, calc_breakers-Like, free-volt_nom, sim_turn-Calm, sim_turns-Calm,
}

-- The power output is high in every turn.
abbrev pub Powered : PowerSubsystemConfig → List (ℕ × ℕ) → Type 0
Powered c [] = Unit
Powered c ((d, output) ∷ rest) =
    (get_output output c.output_power_on_bit_pos ≡ true) × Powered c rest

abbrev pub total : List (ℕ × ℕ) → ℕ
total [] = 0
total ((d, output) ∷ rest) = d + total rest

-- The voltage has reached the nominal one, or risen with the time.
abbrev Risen : PowerSubsystemConfig → ℕ → ℕ → Type 0
Risen c elapsed v = (voltage_nominal c ≤ v) ⊎ (voltage_change_rate_on c * elapsed ≤ v)

rise-Risen :
    (c : PowerSubsystemConfig) (elapsed d v : ℕ)
    → Risen c elapsed v
    → Risen c (elapsed + d) (rise (voltage_nominal c) (voltage_change_rate_on c * d) v)
unfolding rise
rise-Risen c elapsed d v h =
    let n = voltage_nominal c in
    let r = voltage_change_rate_on c in
    step n (r * elapsed) (r * d) (r * (elapsed + d)) v (mul-add r elapsed d) h
  where
    step : (n a b s v : ℕ) → s ≡ a + b → (n ≤ v) ⊎ (a ≤ v) → (n ≤ rise n b v) ⊎ (s ≤ rise n b v)
    step n a b s v e h = ground (arith, e, h)

calc_voltage-Risen :
    (c : PowerSubsystemConfig) (elapsed d : ℕ) (s : SimPowerSubsystem)
    → s.psc ≡ c
    → s.over_voltage ≡ false
    → get_power_on s ≡ true
    → Risen c elapsed s.voltage
    → Risen c (elapsed + d) (calc_voltage d s)
unfolding calc_voltage
calc_voltage-Risen c elapsed d s p v on h =
    if_true (Risen c (elapsed + d)) (get_power_on s) _ _ on (
      subst (λ n. Risen c (elapsed + d) (rise n (voltage_change_rate_on s.psc * d) s.voltage))
        (sym (free-volt_nom s v))
        (subst
          (λ k.
            Risen c (elapsed + d)
              (rise (voltage_nominal k) (voltage_change_rate_on k * d) s.voltage))
          (sym p) (rise-Risen c elapsed d s.voltage h)))

sim_turn-Risen :
    (c : PowerSubsystemConfig) (elapsed ts d output : ℕ) (s : SimPowerSubsystem)
    → Calm c s
    → get_output output c.output_power_on_bit_pos ≡ true
    → Risen c elapsed s.voltage
    → Risen c (elapsed + d) (sim_turn ts d output s).voltage
unfolding sim_turn calc_voltage_current get_power_on
sim_turn-Risen c elapsed ts d output s k on h =
    let t = record s { output_port = output } in
    let l = calc_breakers-Like ts t in
    calc_voltage-Risen c elapsed d (calc_breakers ts t) (l.psc ∙ k.configured)
      (l.over_voltage ∙ k.voltage_free)
      (ap (λ p. get_output (calc_breakers ts t).output_port p.output_power_on_bit_pos)
          (l.psc ∙ k.configured)
        ∙ ap (λ o. get_output o c.output_power_on_bit_pos) l.output_port
        ∙ on)
      (subst (Risen c elapsed) (sym l.voltage) h)

sim_turns-Risen :
    (c : PowerSubsystemConfig) (elapsed ts : ℕ) (turns : List (ℕ × ℕ)) (s : SimPowerSubsystem)
    → Calm c s
    → Powered c turns
    → Risen c elapsed s.voltage
    → Risen c (elapsed + total turns) (sim_turns ts turns s).voltage
unfolding sim_turns
sim_turns-Risen c elapsed ts [] s k on h = subst (λ e. Risen c e s.voltage) (omega arith) h
sim_turns-Risen c elapsed ts ((d, output) ∷ rest) s k (on, ons) h =
    subst (λ e. Risen c e (sim_turns ts ((d, output) ∷ rest) s).voltage) (omega arith)
      (sim_turns-Risen c (elapsed + d) (ts + d) rest (sim_turn (ts + d) d output s)
        (sim_turn-Calm c (ts + d) d output s k) ons
        (sim_turn-Risen c elapsed (ts + d) d output s k on h))

abbrev pub InTime : PowerSubsystemConfig → Type 0
InTime c = voltage_nominal c ≤ voltage_change_rate_on c * output_on_max_delay c

motor-InTime : InTime setup_motor
unfolding setup_motor output_on_max_delay output_off_max_delay
motor-InTime = omega arith

comm-InTime : InTime setup_comm
unfolding setup_comm output_on_max_delay output_off_max_delay
comm-InTime = omega arith

Risen-nominal :
    (c : PowerSubsystemConfig) (elapsed : ℕ) (s : SimPowerSubsystem)
    → Calm c s
    → InTime c
    → output_on_max_delay c ≤ elapsed
    → Risen c elapsed s.voltage
    → s.voltage ≡ voltage_nominal c
Risen-nominal c elapsed s k t e h =
    reach (voltage_nominal c) (voltage_change_rate_on c * output_on_max_delay c)
      (voltage_change_rate_on c * elapsed) s.voltage t
      (mul-le-mul_left (voltage_change_rate_on c) e) k.voltage_low h
  where
    reach : (n a b v : ℕ) → n ≤ a → a ≤ b → v ≤ n → (n ≤ v) ⊎ (b ≤ v) → v ≡ n
    reach n a b v x y z h = ground (arith, x, y, z, h)

no_time : (r v : ℕ) → r * 0 ≤ v
no_time r v = omega arith

-- With the power output high, a motor or comm supply that nothing forces is at its nominal voltage
-- once the turns have taken the longest delay that the power subsystem grants, however the time is
-- split between them.
pub sim_turns-nominal :
    (c : PowerSubsystemConfig) (ts : ℕ) (turns : List (ℕ × ℕ)) (s : SimPowerSubsystem)
    → (c ≡ setup_motor) ⊎ (c ≡ setup_comm)
    → Calm c s
    → Powered c turns
    → output_on_max_delay c ≤ total turns
    → (sim_turns ts turns s).voltage ≡ voltage_nominal c
sim_turns-nominal c ts turns s q k on e =
    Risen-nominal c (total turns) (sim_turns ts turns s) (sim_turns-Calm c ts turns s k)
      (elim q [
        | inl m ↦ subst InTime (sym m) motor-InTime
        | inr m ↦ subst InTime (sym m) comm-InTime
      ])
      e
      (subst (λ t. Risen c t (sim_turns ts turns s).voltage) (omega arith)
        (sim_turns-Risen c 0 ts turns s k on (inr (no_time (voltage_change_rate_on c) s.voltage))))
