-- ===== src/Faultmgr/FaultBit.antt =====
-- The enumerators of FaultStatusBits (faultmgr/FaultStatusBits.h) and their bit positions.
use ts_m2cellcpp.Prelude.{ℕ}

pub data FaultBit : Type 0 where
  stale_data_warn stale_data_fault broadcast_err actuator_fault excessive_force : FaultBit
  actuator_limit_ol actuator_limit_cl inclinometer_w_lut inclinometer_wo_lut : FaultBit
  motor_voltage_fault motor_voltage_warn comm_voltage_fault comm_voltage_warn : FaultBit
  motor_over_current comm_over_current power_relay_open_fault power_health_fault : FaultBit
  comm_multi_breaker_fault motor_multi_breaker_fault single_breaker_trip : FaultBit
  power_supply_load_share_err displacement_sensor_range_err inclinometer_range_err : FaultBit
  mirror_temp_sensor_fault mirror_temp_sensor_warn cell_temp_warn : FaultBit
  axial_actuator_encoder_range_fault tangent_actuator_encoder_range_fault motor_relay : FaultBit
  comm_relay hardware_fault interlock_fault tangent_load_cell_fault elevation_angle_diff_fault :
      FaultBit
  monitor_ilc_read_warn power_system_timeout parameter_file_read_fault : FaultBit
  ilc_state_transition_fault crio_comm_fault loss_of_tma_warn loss_of_tma_comm_on_enable_fault :
      FaultBit
  temp_diff_warn crio_timing_fault crio_timing_warn user_generated_fault : FaultBit

-- The value of the enumerator.
abbrev pub position : FaultBit → ℕ
position stale_data_warn = 0
position stale_data_fault = 1
position broadcast_err = 2
position actuator_fault = 3
position excessive_force = 4
position actuator_limit_ol = 5
position actuator_limit_cl = 6
position inclinometer_w_lut = 7
position inclinometer_wo_lut = 8
position motor_voltage_fault = 9
position motor_voltage_warn = 10
position comm_voltage_fault = 11
position comm_voltage_warn = 12
position motor_over_current = 13
position comm_over_current = 14
position power_relay_open_fault = 15
position power_health_fault = 16
position comm_multi_breaker_fault = 17
position motor_multi_breaker_fault = 18
position single_breaker_trip = 19
position power_supply_load_share_err = 20
position displacement_sensor_range_err = 21
position inclinometer_range_err = 22
position mirror_temp_sensor_fault = 23
position mirror_temp_sensor_warn = 24
position cell_temp_warn = 25
position axial_actuator_encoder_range_fault = 26
position tangent_actuator_encoder_range_fault = 27
position motor_relay = 28
position comm_relay = 29
position hardware_fault = 30
position interlock_fault = 31
position tangent_load_cell_fault = 32
position elevation_angle_diff_fault = 33
position monitor_ilc_read_warn = 34
position power_system_timeout = 35
position parameter_file_read_fault = 55
position ilc_state_transition_fault = 56
position crio_comm_fault = 57
position loss_of_tma_warn = 58
position loss_of_tma_comm_on_enable_fault = 59
position temp_diff_warn = 60
position crio_timing_fault = 61
position crio_timing_warn = 62
position user_generated_fault = 63
