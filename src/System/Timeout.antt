-- ===== src/System/Timeout.antt =====
-- What a read of the DAQ does with old information, and with motor power but no comm power.
use ts_m2cellcpp.Prelude.{ℕ, ◌<◌, ◌-◌, ◌≡◌, refl, Bool, true, ltb, lt→ltb, if_true}
use ts_m2cellcpp.Faultmgr.FaultBit.{power_system_timeout}
use ts_m2cellcpp.Faultmgr.FaultStatusBits.{set_bit_at}
use ts_m2cellcpp.Control.Defs.{SysInfo}
use ts_m2cellcpp.Control.PowerSubsystem.Invariant.{IsOff}
use ts_m2cellcpp.Control.PowerSystem.{motor_power_off, comm_power_off}
use ts_m2cellcpp.Control.PowerSystem.Both.{Configured, comm_power_off-IsOff, IsOff-Local}
use ts_m2cellcpp.State.Model.Laws.{BothIn}
use ts_m2cellcpp.System.{
  World, put_power_system, sys_info_timeout, check_timeout, daq_info_read, daq_timeout_check,
}
use ts_m2cellcpp.System.Laws.{report_faults-keeps, process_daq-keeps}
use ts_m2cellcpp.System.Invariants.{Both-Upheld}

check_timeout-IsOff :
    (now diff : ℕ) (w : World)
    → Configured w.model.power_system
    → sys_info_timeout < diff
    → BothIn IsOff (check_timeout now diff w).0.model × ((check_timeout now diff w).1 ≡ true)
unfolding check_timeout
check_timeout-IsOff now diff w c late =
    if_true (λ (r : World × Bool). BothIn IsOff r.0.model × (r.1 ≡ true))
      (ltb sys_info_timeout diff) _ _ (lt→ltb _ _ late)
      (
        report_faults-keeps (Both-Upheld IsOff-Local) now (set_bit_at 0 power_system_timeout)
            (put_power_system (comm_power_off now (motor_power_off now w.model.power_system)) w)
            (comm_power_off-IsOff now w.model.power_system c),
        refl,
      )

-- Old information: when what the FPGA last read is older than 1.5 seconds, a read of the DAQ, on
-- a power system with the configurations of the two subsystems, ends with both of them off.
pub daq_info_read-IsOff :
    (now : ℕ) (info : SysInfo) (w : World)
    → Configured w.model.power_system
    → sys_info_timeout < now - info.timestamp
    → BothIn IsOff (daq_info_read now info w).model
unfolding daq_info_read
daq_info_read-IsOff now info w c late =
    let read = put_power_system (record (w.model.power_system) { daq_read_time = now }) w in
    let read_c : Configured read.model.power_system = record {
      motor_cfg = c.motor_cfg;
      comm_cfg = c.comm_cfg;
    } in
    process_daq-keeps (Both-Upheld IsOff-Local) now info _
      (check_timeout-IsOff now (now - info.timestamp) read read_c late).0

-- No reads: when the last read of the DAQ is older than 1.5 seconds, the check for the timeout, on
-- a power system with the configurations of the two subsystems, ends with both of them off.
pub daq_timeout_check-IsOff :
    (now : ℕ) (info : SysInfo) (w : World)
    → Configured w.model.power_system
    → sys_info_timeout < now - w.model.power_system.daq_read_time
    → BothIn IsOff (daq_timeout_check now info w).model
unfolding daq_timeout_check
daq_timeout_check-IsOff now info w c late =
    let diff = now - w.model.power_system.daq_read_time in
    let r = check_timeout-IsOff now diff w c late in
    if_true (λ (x : World). BothIn IsOff x.model) (check_timeout now diff w).1 _ _ r.1
      (process_daq-keeps (Both-Upheld IsOff-Local) now info (check_timeout now diff w).0 r.0)
