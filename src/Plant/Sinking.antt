-- ===== src/Plant/Sinking.antt =====
-- The supplies of a simulator whose power outputs are low.
use ts_m2cellcpp.Prelude.{ℕ, ◌+◌, ◌-◌, ◌≡◌, sym, subst, false, arith}
use ts_m2cellcpp.Control.Ports.{get_output, motor_power_on, ilc_comm_power_on}
use ts_m2cellcpp.Control.PowerSubsystemConfig.{PowerSubsystemConfig, setup_motor, setup_comm}
use ts_m2cellcpp.Control.PowerSystem.Both.{motor_bit, comm_bit}
use ts_m2cellcpp.Simulator.{SimPowerSubsystem, sim_turn}
use ts_m2cellcpp.Simulator.Laws.{Calm, sim_turn-Calm}
use ts_m2cellcpp.Simulator.SimCore.{SimCore, on_input, sim_run}
use ts_m2cellcpp.Simulator.Falls.{Fallen, sim_turn-Fallen, Fallen-start, Fallen-sooner}

-- Both power outputs of a port are low.
pub record Low (port : ℕ) : Type 0 where
  pub motor_low : get_output port motor_power_on ≡ false
  pub comm_low : get_output port ilc_comm_power_on ≡ false

-- A supply that nothing forces, whose voltage has fallen since `t0`.
pub record Sinking (c : PowerSubsystemConfig) (elapsed : ℕ) (s : SimPowerSubsystem) : Type 0 where
  pub calm : Calm c s
  pub fallen : Fallen c elapsed s.voltage

pub record DarkSim (t0 : ℕ) (s : SimCore) : Type 0 where
  pub low : Low s.new_output
  pub motor : Sinking setup_motor (s.prev_time_stamp - t0) s.motor_sub
  pub comm : Sinking setup_comm (s.prev_time_stamp - t0) s.comm_sub

on_input-Calm :
    (c : PowerSubsystemConfig) (port : ℕ) (s : SimPowerSubsystem)
    → Calm c s
    → Calm c (on_input port s)
on_input-Calm c port s k = record {
  configured = k.configured;
  voltage_free = k.voltage_free;
  current_free = k.current_free;
  voltage_low = k.voltage_low;
  current_low = k.current_low;
}

sim_turn-Sinking :
    (c : PowerSubsystemConfig) (t0 prev ts output port : ℕ) (s : SimPowerSubsystem)
    → get_output output c.output_power_on_bit_pos ≡ false
    → Sinking c (prev - t0) s
    → Sinking c (ts - t0) (sim_turn ts (ts - prev) output (on_input port s))
sim_turn-Sinking c t0 prev ts output port s low k = record {
  calm = sim_turn-Calm c ts (ts - prev) output (on_input port s) (on_input-Calm c port s k.calm);
  fallen =
      Fallen-sooner c (ts - t0) ((prev - t0) + (ts - prev))
        (sim_turn ts (ts - prev) output (on_input port s)).voltage (omega arith)
        (sim_turn-Fallen c (prev - t0) ts (ts - prev) output (on_input port s) k.calm.configured low
          k.fallen);
}

pub sim_run-DarkSim : (t0 ts : ℕ) (s : SimCore) → DarkSim t0 s → DarkSim t0 (sim_run ts s)
unfolding sim_run
sim_run-DarkSim t0 ts s d = record {
  low = d.low;
  motor =
      sim_turn-Sinking setup_motor t0 s.prev_time_stamp ts s.new_output s.input_port s.motor_sub
        (subst (λ b. get_output s.new_output b ≡ false) (sym motor_bit) d.low.motor_low) d.motor;
  comm =
      sim_turn-Sinking setup_comm t0 s.prev_time_stamp ts s.new_output _ s.comm_sub
        (subst (λ b. get_output s.new_output b ≡ false) (sym comm_bit) d.low.comm_low) d.comm;
}

-- Where a supply that nothing forces starts to fall.
pub Calm-Sinking :
    (c : PowerSubsystemConfig) (t : ℕ) (s : SimPowerSubsystem) → Calm c s → Sinking c (t - t) s
Calm-Sinking c t s k = record {
  calm = k;
  fallen = subst (λ e. Fallen c e s.voltage) (omega arith) (Fallen-start c s.voltage k.voltage_low);
}
