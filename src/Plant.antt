-- ===== src/Plant.antt =====
-- The system with the simulator behind the FPGA: the loop of control/FpgaIo.cpp takes the output
-- port to simulator/SimCore.cpp and brings back what the supplies show, which the reads of the DAQ
-- are given. The loops run in threads of their own: a run is any sequence of their turns and of the
-- other events.
pub mod Sinking
pub mod Dark
pub mod Examples
use ts_m2cellcpp.Prelude.{ℕ, Bool, List, [], ◌∷◌, if◌then◌else◌}
use ts_m2cellcpp.Control.Defs.{SysInfo}
use ts_m2cellcpp.Control.PowerSystem.{PowerSystem, emergency_turn_off_all_power}
use ts_m2cellcpp.System.{World, world, put_power_system, handle, Event, info_read, timeout_check}
use ts_m2cellcpp.Simulator.SimCore.{SimCore, sim_core, sim_run, set_new_output_port, get_sys_info}

-- `sys_info` is that of FpgaIo; its output port is the port of the power system.
pub record Plant : Type 0 where
  pub world : World
  pub sim : SimCore
  pub sys_info : SysInfo

-- A turn of the simulator, a turn of the loop of FpgaIo with or without a registered power system,
-- and an event of the system.
pub data PlantEvent : Type 0 where
  simulated : PlantEvent
  exchanged : Bool → PlantEvent
  handled : Event → PlantEvent

abbrev pub emergency : World → World
emergency w =
    put_power_system
      (record (w.model.power_system) {
        port = emergency_turn_off_all_power w.model.power_system.port;
      })
      w

-- One turn of _readWriteFpga.
unfoldable pub read_write_fpga : Bool → Plant → Plant
read_write_fpga registered p =
    let w = if registered then p.world else emergency p.world in
    let sim = set_new_output_port w.model.power_system.port p.sim in
    record { world = w; sim = sim; sys_info = get_sys_info sim }

-- A read of the DAQ is given what FpgaIo last read.
abbrev pub with_info : SysInfo → Event → Event
with_info info (info_read i) = info_read info
with_info info (timeout_check i) = timeout_check info
with_info info e = e

unfoldable pub step : ℕ → PlantEvent → Plant → Plant
step now simulated p = record p { sim = sim_run now p.sim }
step now (exchanged registered) p = read_write_fpga registered p
step now (handled e) p = record p { world = handle now (with_info p.sys_info e) p.world }

-- The events in their order, each at its time.
unfoldable pub steps : List (ℕ × PlantEvent) → Plant → Plant
steps [] p = p
steps ((now, e) ∷ es) p = steps es (step now e p)

-- After the constructors.
unfoldable pub plant : ℕ → SysInfo → Plant
plant now info = record { world = world now info 0; sim = sim_core now info; sys_info = info }
