-- ===== src/Plant/Examples.antt =====
-- A plant whose motor supply is at its nominal voltage when the power is already off.
use ts_m2cellcpp.Prelude.{ℕ, ◌-◌, ◌≤◌, ◌≡◌, refl, true, false, List, [], ◌∷◌, arith}
use ts_m2cellcpp.Control.Defs.{SysInfo, motor}
use ts_m2cellcpp.Control.PowerSubsystemConfig.{setup_motor, setup_comm, output_off_max_delay}
use ts_m2cellcpp.System.{world, power_command, info_read}
use ts_m2cellcpp.System.Built.{world-IsOff}
use ts_m2cellcpp.Simulator.{SimPowerSubsystem, sim_power_subsystem, voltage_nominal}
use ts_m2cellcpp.Simulator.Laws.{Calm}
use ts_m2cellcpp.Simulator.SimCore.{sim_core, sim_run}
use ts_m2cellcpp.Plant.{
  Plant, PlantEvent, simulated, exchanged, handled, read_write_fpga, step, steps,
}
use ts_m2cellcpp.Plant.Dark.{voltage_gone}

abbrev idle_info : SysInfo
idle_info = record {
  output_port = 0;
  input_port = 0;
  motor_voltage = 0;
  motor_current = 0;
  motor_breaker_closed = true;
  comm_voltage = 0;
  comm_current = 0;
  comm_breaker_closed = true;
  iterations = 0;
  timestamp = 0;
}

abbrev hot_motor : SimPowerSubsystem
hot_motor = record (sim_power_subsystem setup_motor [] 1 0) {
  voltage = voltage_nominal setup_motor;
}

abbrev hot : Plant
hot = record {
  world = world 5 idle_info 0;
  sim = record (sim_core 5 idle_info) { motor_sub = hot_motor };
  sys_info = idle_info;
}

hot-Calm : Calm setup_motor hot_motor
unfolding sim_power_subsystem
hot-Calm = record {
  configured = refl;
  voltage_free = refl;
  current_free = refl;
  voltage_low = omega arith;
  current_low = omega arith;
}

comm-Calm : Calm setup_comm hot.sim.comm_sub
unfolding sim_core sim_power_subsystem
comm-Calm = record {
  configured = refl;
  voltage_free = refl;
  current_free = refl;
  voltage_low = omega arith;
  current_low = omega arith;
}

abbrev turns : List (ℕ × PlantEvent)
turns =
    (100000000, simulated)
    ∷ (100000000, exchanged true)
    ∷ (200000000, handled (power_command motor false))
    ∷ (300000000, handled (info_read idle_info))
    ∷ (2000000000, simulated)
    ∷ []

motor_time :
    output_off_max_delay setup_motor
    ≤ (steps turns (read_write_fpga false hot)).sim.prev_time_stamp - hot.sim.prev_time_stamp
unfolding steps step sim_run sim_core setup_motor output_off_max_delay
motor_time = omega arith

comm_time :
    output_off_max_delay setup_comm
    ≤ (steps turns (read_write_fpga false hot)).sim.prev_time_stamp - hot.sim.prev_time_stamp
unfolding steps step sim_run sim_core setup_comm output_off_max_delay
comm_time = omega arith

voltage_gone_example :
    ((steps turns (read_write_fpga false hot)).sim.motor_sub.voltage ≡ 0)
    × ((steps turns (read_write_fpga false hot)).sim.comm_sub.voltage ≡ 0)
voltage_gone_example =
    voltage_gone turns false hot refl (world-IsOff 5 idle_info 0) hot-Calm comm-Calm motor_time
      comm_time
