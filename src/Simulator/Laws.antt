-- ===== src/Simulator/Laws.antt =====
-- The simulated supplies stay within their limits and come up in time.
use native.Mathlib.Nat.{mul_comm, div-le_of_le-mul}
use ts_m2cellcpp.Prelude.{
  ℕ, ◌+◌, ◌*◌, ◌≤◌, ◌≡◌, refl, subst, ◌∙◌, ◌⊎◌, false, xor, List, [], ◌∷◌, if_both, arith,
}
use ts_m2cellcpp.Control.PowerSubsystemConfig.{PowerSubsystemConfig}
use ts_m2cellcpp.Simulator.{
  SimPowerSubsystem, parts, voltage_nominal, voltage_change_rate_on, voltage_change_rate_off,
  current_gain, get_power_on, target_breakers, move_breakers, show_breakers, calc_breakers, rise,
  fall, volt_nom, calc_voltage, calc_current, calc_voltage_current, get_voltage, sim_turn,
  sim_turns,
}

-- Nothing is forced, and the voltage and the current are within their limits.
pub record Calm (c : PowerSubsystemConfig) (s : SimPowerSubsystem) : Type 0 where
  pub configured : s.psc ≡ c
  pub voltage_free : s.over_voltage ≡ false
  pub current_free : s.over_current ≡ false
  pub voltage_low : s.voltage ≤ voltage_nominal c
  pub current_low : s.current ≤ s.voltage * current_gain c

-- Both calculations keep these.
pub record Like (s t : SimPowerSubsystem) : Type 0 where
  pub psc : t.psc ≡ s.psc
  pub over_voltage : t.over_voltage ≡ s.over_voltage
  pub over_current : t.over_current ≡ s.over_current
  pub voltage : t.voltage ≡ s.voltage
  pub output_port : t.output_port ≡ s.output_port

like : (s : SimPowerSubsystem) → Like s s
like s = record {
  psc = refl;
  over_voltage = refl;
  over_current = refl;
  voltage = refl;
  output_port = refl;
}

target_breakers-Like : (ts : ℕ) (s : SimPowerSubsystem) → Like s (target_breakers ts s)
unfolding target_breakers
target_breakers-Like ts s =
    if_both (Like s) _
      (record {
        psc = refl;
        over_voltage = refl;
        over_current = refl;
        voltage = refl;
        output_port = refl;
      })
      (like s)

show_breakers-Like : (s t : SimPowerSubsystem) → Like s t → Like s (show_breakers t)
unfolding show_breakers
show_breakers-Like s t l =
    if_both (Like s) (xor t.breaker_closed t.breaker_closed_prev)
      (record {
        psc = l.psc;
        over_voltage = l.over_voltage;
        over_current = l.over_current;
        voltage = l.voltage;
        output_port = l.output_port;
      })
      l

pub calc_breakers-Like : (ts : ℕ) (s : SimPowerSubsystem) → Like s (calc_breakers ts s)
unfolding calc_breakers move_breakers
calc_breakers-Like ts s =
    let l = target_breakers-Like ts s in
    show_breakers-Like s (move_breakers ts (target_breakers ts s)) (record {
      psc = l.psc;
      over_voltage = l.over_voltage;
      over_current = l.over_current;
      voltage = l.voltage;
      output_port = l.output_port;
    })

pub rise_le : (nom change v : ℕ) → rise nom change v ≤ nom
unfolding rise
rise_le nom change v = ground arith

fall_le : (change v nom : ℕ) → v ≤ nom → fall change v ≤ nom
unfolding fall
fall_le change v nom h = ground (arith, h)

-- It reaches the nominal voltage, or it rises by the whole change.
pub rise_ge : (nom change v : ℕ) → (rise nom change v ≡ nom) ⊎ (v + change ≤ rise nom change v)
unfolding rise
rise_ge nom change v = ground arith

calc_current-le :
    (s : SimPowerSubsystem)
    → s.over_current ≡ false
    → calc_current s ≤ s.voltage * current_gain s.psc
unfolding calc_current
calc_current-le s e = ground (arith, e)

pub free-volt_nom :
    (s : SimPowerSubsystem) → s.over_voltage ≡ false → volt_nom s ≡ voltage_nominal s.psc
free-volt_nom s e = ground (arith, e)

calc_voltage-le :
    (d : ℕ) (s : SimPowerSubsystem)
    → s.over_voltage ≡ false
    → s.voltage ≤ voltage_nominal s.psc
    → calc_voltage d s ≤ voltage_nominal s.psc
unfolding calc_voltage
calc_voltage-le d s e h =
    if_both (λ v. v ≤ voltage_nominal s.psc) (get_power_on s)
      (subst (λ n. rise (volt_nom s) (voltage_change_rate_on s.psc * d) s.voltage ≤ n)
        (free-volt_nom s e) (rise_le (volt_nom s) (voltage_change_rate_on s.psc * d) s.voltage))
      (fall_le (voltage_change_rate_off s.psc * d) s.voltage (voltage_nominal s.psc) h)

calc_voltage_current-Calm :
    (c : PowerSubsystemConfig) (d : ℕ) (s : SimPowerSubsystem)
    → s.psc ≡ c
    → s.over_voltage ≡ false
    → s.over_current ≡ false
    → s.voltage ≤ voltage_nominal s.psc
    → Calm c (calc_voltage_current d s)
unfolding calc_voltage_current
calc_voltage_current-Calm c d s p v i h = record {
  configured = p;
  voltage_free = v;
  current_free = i;
  voltage_low = subst (λ k. calc_voltage d s ≤ voltage_nominal k) p (calc_voltage-le d s v h);
  current_low =
      subst
        (λ k.
          calc_current (record s { voltage = calc_voltage d s })
          ≤ calc_voltage d s * current_gain k)
        p (calc_current-le (record s { voltage = calc_voltage d s }) i);
}

pub sim_turn-Calm :
    (c : PowerSubsystemConfig) (ts d output : ℕ) (s : SimPowerSubsystem)
    → Calm c s
    → Calm c (sim_turn ts d output s)
unfolding sim_turn
sim_turn-Calm c ts d output s k =
    let t = record s { output_port = output } in
    let l = calc_breakers-Like ts t in
    calc_voltage_current-Calm c d (calc_breakers ts t) (l.psc ∙ k.configured)
      (l.over_voltage ∙ k.voltage_free) (l.over_current ∙ k.current_free)
      (rw (l.voltage, l.psc, k.configured) k.voltage_low)

pub sim_turns-Calm :
    (c : PowerSubsystemConfig) (ts : ℕ) (turns : List (ℕ × ℕ)) (s : SimPowerSubsystem)
    → Calm c s
    → Calm c (sim_turns ts turns s)
unfolding sim_turns
sim_turns-Calm c ts [] s k = k
sim_turns-Calm c ts ((d, output) ∷ rest) s k =
    sim_turns-Calm c (ts + d) rest (sim_turn (ts + d) d output s)
      (sim_turn-Calm c (ts + d) d output s k)

Calm-voltage :
    (c : PowerSubsystemConfig) (s : SimPowerSubsystem)
    → Calm c s
    → get_voltage s ≤ c.nominal_voltage
unfolding get_voltage
Calm-voltage c s k = div-le_of_le-mul (parts s.psc) (
    rw (k.configured)
      (subst (λ n. s.voltage ≤ n) (mul_comm c.nominal_voltage (parts c)) k.voltage_low))

-- Whatever the outputs do and however long each turn takes, a supply that nothing forces shows at
-- most its nominal voltage, and so stays below the limits of the fault and of the warning.
pub sim_turns-voltage :
    (c : PowerSubsystemConfig) (ts : ℕ) (turns : List (ℕ × ℕ)) (s : SimPowerSubsystem)
    → Calm c s
    → get_voltage (sim_turns ts turns s) ≤ c.nominal_voltage
sim_turns-voltage c ts turns s k =
    Calm-voltage c (sim_turns ts turns s) (sim_turns-Calm c ts turns s k)
