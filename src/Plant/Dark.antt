-- ===== src/Plant/Dark.antt =====
-- Power that is switched off is gone at the supplies.
use ts_m2cellcpp.Prelude.{
  ℕ, ◌-◌, ◌≤◌, ◌≡◌, Bool, true, not, ◌&&◌, List, [], ◌∷◌, if_both, refl, if◌then◌else◌, arith,
}
use ts_m2cellcpp.Control.Defs.{SysInfo}
use ts_m2cellcpp.Control.Ports.{motor_power_on, ilc_comm_power_on}
use ts_m2cellcpp.Control.PowerSubsystemConfig.{setup_motor, setup_comm, output_off_max_delay}
use ts_m2cellcpp.Control.PowerSubsystem.Invariant.{IsOff}
use ts_m2cellcpp.Control.PowerSystem.{motor_drive, comm_drive, emergency_turn_off_all_power}
use ts_m2cellcpp.Control.PowerSystem.Both.{motor_output, comm_output, IsOff-Local}
use ts_m2cellcpp.Control.PowerSystem.Order.{emergency_lem}
use ts_m2cellcpp.State.Model.Laws.{BothIn}
use ts_m2cellcpp.System.{World, Event, info_read}
use ts_m2cellcpp.System.Commands.{switches_on, handle-Both}
use ts_m2cellcpp.Simulator.Laws.{Calm}
use ts_m2cellcpp.Simulator.SimCore.{set_new_output_port}
use ts_m2cellcpp.Simulator.Falls.{Fallen-zero, motor-DownInTime, comm-DownInTime}
use ts_m2cellcpp.Plant.Sinking.{Low, Sinking, DarkSim, sim_run-DarkSim, Calm-Sinking}
use ts_m2cellcpp.Plant.{
  Plant, PlantEvent, simulated, exchanged, handled, emergency, read_write_fpga, with_info, step,
  steps,
}

pub record DarkPlant (t0 : ℕ) (p : Plant) : Type 0 where
  pub off : BothIn IsOff p.world.model
  pub sim : DarkSim t0 p.sim

emergency-IsOff : (w : World) → BothIn IsOff w.model → BothIn IsOff (emergency w).model
emergency-IsOff w b =
    let p = w.model.power_system in
    let port = emergency_turn_off_all_power p.port in
    record {
      configured = record { motor_cfg = b.configured.motor_cfg; comm_cfg = b.configured.comm_cfg };
      motor =
          IsOff-Local.port port (motor_drive 0 p)
            (ground (arith, motor_output p b.configured, emergency_lem p.port motor_power_on))
            b.motor;
      comm =
          IsOff-Local.port port (comm_drive 0 p)
            (ground (arith, comm_output p b.configured, emergency_lem p.port ilc_comm_power_on))
            b.comm;
    }

IsOff-Low : (w : World) → BothIn IsOff w.model → Low w.model.power_system.port
IsOff-Low w b =
    let p = w.model.power_system in
    record {
      motor_low = ground (arith, motor_output p b.configured, b.motor.low);
      comm_low = ground (arith, comm_output p b.configured, b.comm.low);
    }

read_write_fpga-IsOff :
    (registered : Bool) (p : Plant)
    → BothIn IsOff p.world.model
    → BothIn IsOff (read_write_fpga registered p).world.model
unfolding read_write_fpga
read_write_fpga-IsOff registered p b =
    if_both (λ (w : World). BothIn IsOff w.model) registered b (emergency-IsOff p.world b)

read_write_fpga-DarkSim :
    (t0 : ℕ) (registered : Bool) (p : Plant)
    → BothIn IsOff p.world.model
    → Sinking setup_motor (p.sim.prev_time_stamp - t0) p.sim.motor_sub
    → Sinking setup_comm (p.sim.prev_time_stamp - t0) p.sim.comm_sub
    → DarkSim t0 (read_write_fpga registered p).sim
unfolding read_write_fpga set_new_output_port
read_write_fpga-DarkSim t0 registered p b motor comm = record {
  low =
      let after = read_write_fpga-IsOff registered p b in
      IsOff-Low (if registered then p.world else emergency p.world) after;
  motor = motor;
  comm = comm;
}

with_info-on : (info : SysInfo) (e : Event) → switches_on (with_info info e) ≡ switches_on e
with_info-on info (info_read i) = refl
with_info-on info _ = refl

abbrev pub no_switch_on : List (ℕ × PlantEvent) → Bool
no_switch_on [] = true
no_switch_on ((now, handled e) ∷ es) = not (switches_on e) && no_switch_on es
no_switch_on ((now, e) ∷ es) = no_switch_on es

steps-DarkPlant :
    (t0 : ℕ) (es : List (ℕ × PlantEvent)) (p : Plant)
    → no_switch_on es ≡ true
    → DarkPlant t0 p
    → DarkPlant t0 (steps es p)
unfolding steps step
steps-DarkPlant t0 [] p q d = d
steps-DarkPlant t0 ((now, simulated) ∷ es) p q d =
    steps-DarkPlant t0 es _ q (record { off = d.off; sim = sim_run-DarkSim t0 now p.sim d.sim })
steps-DarkPlant t0 ((now, exchanged registered) ∷ es) p q d = steps-DarkPlant t0 es _ q (record {
  off = read_write_fpga-IsOff registered p d.off;
  sim = read_write_fpga-DarkSim t0 registered p d.off d.sim.motor d.sim.comm;
})
steps-DarkPlant t0 ((now, handled e) ∷ es) p q d = steps-DarkPlant t0 es _ (ground arith) (record {
  off =
      handle-Both IsOff-Local now (with_info p.sys_info e) p.world
        (λ x. ground (arith, x, with_info-on p.sys_info e)) d.off;
  sim = d.sim;
})

-- Once both subsystems are off and the loop of the FPGA has turned, whatever happens but a command to
-- switch on, and in whatever order and however often the loops turn: when the simulator has run for
-- the longest delays that the supplies are granted to go off, the voltages of both supplies are 0. At
-- the start each supply has its configuration and nothing forces it, its voltage is at most the
-- nominal one, and its current is at most what goes with its voltage.
pub voltage_gone :
    (es : List (ℕ × PlantEvent)) (registered : Bool) (p : Plant)
    → no_switch_on es ≡ true
    → BothIn IsOff p.world.model
    → Calm setup_motor p.sim.motor_sub
    → Calm setup_comm p.sim.comm_sub
    → output_off_max_delay setup_motor
      ≤ (steps es (read_write_fpga registered p)).sim.prev_time_stamp - p.sim.prev_time_stamp
    → output_off_max_delay setup_comm
      ≤ (steps es (read_write_fpga registered p)).sim.prev_time_stamp - p.sim.prev_time_stamp
    → ((steps es (read_write_fpga registered p)).sim.motor_sub.voltage ≡ 0)
      × ((steps es (read_write_fpga registered p)).sim.comm_sub.voltage ≡ 0)
voltage_gone es registered p q b motor comm e f =
    let t0 = p.sim.prev_time_stamp in
    let start =
      read_write_fpga-DarkSim t0 registered p b (Calm-Sinking setup_motor t0 p.sim.motor_sub motor)
        (Calm-Sinking setup_comm t0 p.sim.comm_sub comm) in
    let d =
      steps-DarkPlant t0 es (read_write_fpga registered p) q
        (record { off = read_write_fpga-IsOff registered p b; sim = start }) in
    let s = (steps es (read_write_fpga registered p)).sim in
    (
      Fallen-zero setup_motor (s.prev_time_stamp - t0) s.motor_sub.voltage motor-DownInTime e
          d.sim.motor.fallen,
      Fallen-zero setup_comm (s.prev_time_stamp - t0) s.comm_sub.voltage comm-DownInTime f
          d.sim.comm.fallen,
    )
