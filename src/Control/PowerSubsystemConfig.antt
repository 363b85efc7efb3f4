-- ===== src/Control/PowerSubsystemConfig.antt =====
-- PowerSubsystemConfig of control/PowerSubsystem.cpp. Times are in nanoseconds, the ticks of the
-- clock; volts and amperes are in thousandths. A factor such as 0.95 is an exact fraction.
use ts_m2cellcpp.Prelude.{ℕ, ◌+◌, ◌*◌, ◌/◌, Result, ok, err, bug}
use ts_m2cellcpp.Faultmgr.FaultBit.{
  FaultBit, motor_voltage_fault, motor_voltage_warn, motor_over_current, power_relay_open_fault,
  motor_multi_breaker_fault, single_breaker_trip, motor_relay, comm_voltage_fault,
  comm_voltage_warn, comm_over_current, comm_multi_breaker_fault, comm_relay,
}
use ts_m2cellcpp.Faultmgr.Masks.{get_mask_comm_faults, get_mask_motor_faults}
use ts_m2cellcpp.Control.Defs.{PowerSystemType, motor, comm, unknownpowersystem}
use ts_m2cellcpp.Control.Ports.{
  OutputBit, motor_power_on, ilc_comm_power_on, reset_motor_breakers, reset_comm_breakers,
  j1_w9_1_mtr_pwr_brkr_ok, j1_w9_2_mtr_pwr_brkr_ok, j1_w9_3_mtr_pwr_brkr_ok,
  j2_w10_1_mtr_pwr_brkr_ok, j2_w10_2_mtr_pwr_brkr_ok, j2_w10_3_mtr_pwr_brkr_ok,
  j3_w11_1_mtr_pwr_brkr_ok, j3_w11_2_mtr_pwr_brkr_ok, j3_w11_3_mtr_pwr_brkr_ok,
  j1_w12_1_comm_pwr_brkr_ok, j1_w12_2_comm_pwr_brkr_ok, j2_w13_1_comm_pwr_brkr_ok,
  j2_w13_2_comm_pwr_brkr_ok, j3_w14_1_comm_pwr_brkr_ok, j3_w14_2_comm_pwr_brkr_ok, always_high,
}
use ts_m2cellcpp.Control.Breakers.{BreakerFeedGroup}

pub record PowerSubsystemConfig : Type 0 where
  pub system_type : PowerSystemType
  pub relay_close_delay : ℕ
  pub breaker_on_time : ℕ
  pub interlock_output_on_delay : ℕ
  pub relay_open_delay : ℕ
  pub interlock_output_off_delay : ℕ
  pub reset_breaker_pulse_width : ℕ
  pub breaker_operating_voltage : ℕ
  pub nominal_voltage : ℕ
  pub breaker_operating_voltage_rise_time : ℕ
  pub voltage_settling_time : ℕ
  pub voltage_fall_time : ℕ
  pub voltage_off_level : ℕ
  pub max_current : ℕ
  pub breaker_feed_group : BreakerFeedGroup
  pub output_power_on_bit_pos : OutputBit
  pub output_breaker_bit_pos : OutputBit
  pub subsystem_fault_mask : ℕ
  pub voltage_fault : FaultBit
  pub voltage_warn : FaultBit
  pub excessive_current : FaultBit
  pub relay_fault : FaultBit
  pub breaker_fault : FaultBit
  pub breaker_warn : FaultBit
  pub relay_in_use : FaultBit

abbrev pub milliseconds : ℕ → ℕ
milliseconds n = n * 1000000

-- The constructor on MOTOR: its mask and _setupMotor.
unfoldable pub setup_motor : PowerSubsystemConfig
setup_motor = record {
  system_type = motor;
  relay_close_delay = milliseconds 50;
  breaker_on_time = milliseconds 500;
  interlock_output_on_delay = milliseconds 50;
  relay_open_delay = milliseconds 30;
  interlock_output_off_delay = milliseconds 50;
  reset_breaker_pulse_width = milliseconds 400;
  breaker_operating_voltage = 19000;
  nominal_voltage = 24000;
  breaker_operating_voltage_rise_time = milliseconds 85;
  voltage_settling_time = milliseconds 20;
  voltage_fall_time = milliseconds 300;
  voltage_off_level = 12000;
  max_current = 20000;
  breaker_feed_group = record {
    feed1 = record {
      bit0_pos = j1_w9_1_mtr_pwr_brkr_ok;
      bit1_pos = j1_w9_2_mtr_pwr_brkr_ok;
      bit2_pos = j1_w9_3_mtr_pwr_brkr_ok;
    };
    feed2 = record {
      bit0_pos = j2_w10_1_mtr_pwr_brkr_ok;
      bit1_pos = j2_w10_2_mtr_pwr_brkr_ok;
      bit2_pos = j2_w10_3_mtr_pwr_brkr_ok;
    };
    feed3 = record {
      bit0_pos = j3_w11_1_mtr_pwr_brkr_ok;
      bit1_pos = j3_w11_2_mtr_pwr_brkr_ok;
      bit2_pos = j3_w11_3_mtr_pwr_brkr_ok;
    };
  };
  output_power_on_bit_pos = motor_power_on;
  output_breaker_bit_pos = reset_motor_breakers;
  subsystem_fault_mask = get_mask_motor_faults;
  voltage_fault = motor_voltage_fault;
  voltage_warn = motor_voltage_warn;
  excessive_current = motor_over_current;
  relay_fault = power_relay_open_fault;
  breaker_fault = motor_multi_breaker_fault;
  breaker_warn = single_breaker_trip;
  relay_in_use = motor_relay;
}

-- The constructor on COMM: its mask and _setupComm.
unfoldable pub setup_comm : PowerSubsystemConfig
setup_comm = record {
  system_type = comm;
  relay_close_delay = milliseconds 50;
  breaker_on_time = milliseconds 500;
  interlock_output_on_delay = 0;
  relay_open_delay = milliseconds 30;
  interlock_output_off_delay = 0;
  reset_breaker_pulse_width = milliseconds 400;
  breaker_operating_voltage = 19000;
  nominal_voltage = 24000;
  breaker_operating_voltage_rise_time = milliseconds 30;
  voltage_settling_time = milliseconds 20;
  voltage_fall_time = milliseconds 50;
  voltage_off_level = 12000;
  max_current = 10000;
  breaker_feed_group = record {
    feed1 = record {
      bit0_pos = j1_w12_1_comm_pwr_brkr_ok;
      bit1_pos = j1_w12_2_comm_pwr_brkr_ok;
      bit2_pos = always_high;
    };
    feed2 = record {
      bit0_pos = j2_w13_1_comm_pwr_brkr_ok;
      bit1_pos = j2_w13_2_comm_pwr_brkr_ok;
      bit2_pos = always_high;
    };
    feed3 = record {
      bit0_pos = j3_w14_1_comm_pwr_brkr_ok;
      bit1_pos = j3_w14_2_comm_pwr_brkr_ok;
      bit2_pos = always_high;
    };
  };
  output_power_on_bit_pos = ilc_comm_power_on;
  output_breaker_bit_pos = reset_comm_breakers;
  subsystem_fault_mask = get_mask_comm_faults;
  voltage_fault = comm_voltage_fault;
  voltage_warn = comm_voltage_warn;
  excessive_current = comm_over_current;
  relay_fault = power_relay_open_fault;
  breaker_fault = comm_multi_breaker_fault;
  breaker_warn = single_breaker_trip;
  relay_in_use = comm_relay;
}

-- The constructor: any other type throws, so that no subsystem of another type exists.
unfoldable pub power_subsystem_config : PowerSystemType → Result PowerSubsystemConfig
power_subsystem_config motor = ok setup_motor
power_subsystem_config comm = ok setup_comm
power_subsystem_config unknownpowersystem = err bug

-- _setupCalculated.
abbrev pub min_voltage_warn : PowerSubsystemConfig → ℕ
min_voltage_warn c = c.nominal_voltage * 95 / 100

abbrev pub max_voltage_warn : PowerSubsystemConfig → ℕ
max_voltage_warn c = c.nominal_voltage * 105 / 100

abbrev pub min_voltage_fault : PowerSubsystemConfig → ℕ
min_voltage_fault c = c.nominal_voltage * 90 / 100

abbrev pub max_voltage_fault : PowerSubsystemConfig → ℕ
max_voltage_fault c = c.nominal_voltage * 110 / 100

-- outputOnMaxDelay and outputOffMaxDelay, which test the type of a configuration as built.
unfoldable pub output_on_max_delay : PowerSubsystemConfig → ℕ
output_on_max_delay c = elim (c.system_type) [
  | motor ↦ c.relay_close_delay + c.breaker_on_time + c.interlock_output_on_delay
  | _ ↦ c.relay_close_delay + c.breaker_on_time
]

unfoldable pub output_off_max_delay : PowerSubsystemConfig → ℕ
output_off_max_delay c = elim (c.system_type) [
  | motor ↦ c.relay_open_delay + c.interlock_output_off_delay
  | _ ↦ c.relay_open_delay
]
