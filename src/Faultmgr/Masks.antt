-- ===== src/Faultmgr/Masks.antt =====
-- The masks of faultmgr/FaultStatusBits.cpp. The code builds a mask on its first use and returns
-- the stored word later; here a mask is that word.
pub mod Laws
use ts_m2cellcpp.Prelude.{ℕ, List, [], ◌∷◌}
use ts_m2cellcpp.Faultmgr.FaultBit.{
  stale_data_warn, stale_data_fault, broadcast_err, actuator_fault, excessive_force,
  actuator_limit_ol, actuator_limit_cl, inclinometer_w_lut, inclinometer_wo_lut,
  motor_voltage_fault, motor_voltage_warn, comm_voltage_fault, comm_voltage_warn,
  motor_over_current, comm_over_current, power_relay_open_fault, power_health_fault,
  comm_multi_breaker_fault, motor_multi_breaker_fault, single_breaker_trip,
  power_supply_load_share_err, displacement_sensor_range_err, inclinometer_range_err,
  mirror_temp_sensor_fault, mirror_temp_sensor_warn, cell_temp_warn,
  axial_actuator_encoder_range_fault, tangent_actuator_encoder_range_fault, motor_relay, comm_relay,
  hardware_fault, interlock_fault, tangent_load_cell_fault, elevation_angle_diff_fault,
  monitor_ilc_read_warn, power_system_timeout, parameter_file_read_fault,
  ilc_state_transition_fault, crio_comm_fault, loss_of_tma_warn, loss_of_tma_comm_on_enable_fault,
  temp_diff_warn, crio_timing_fault, crio_timing_warn, user_generated_fault,
}
use ts_m2cellcpp.Faultmgr.FaultStatusBits.{set_all}

unfoldable pub get_mask_closed_loop_control : ℕ
get_mask_closed_loop_control = 0

unfoldable pub get_mask_open_loop_control : ℕ
unfolding get_mask_closed_loop_control
get_mask_open_loop_control = set_all get_mask_closed_loop_control (
    actuator_limit_cl ∷ inclinometer_w_lut ∷ crio_timing_fault ∷ inclinometer_range_err
    ∷ mirror_temp_sensor_fault ∷ elevation_angle_diff_fault ∷ [])

unfoldable pub get_mask_telemetry_only_control : ℕ
unfolding get_mask_open_loop_control
get_mask_telemetry_only_control = set_all get_mask_open_loop_control (
    actuator_fault ∷ excessive_force ∷ motor_voltage_fault ∷ motor_over_current
    ∷ motor_multi_breaker_fault ∷ axial_actuator_encoder_range_fault
    ∷ tangent_actuator_encoder_range_fault ∷ ilc_state_transition_fault ∷ [])

unfoldable pub get_mask_faults : ℕ
unfolding get_mask_telemetry_only_control
get_mask_faults = set_all get_mask_telemetry_only_control (
    comm_voltage_fault ∷ comm_over_current ∷ power_relay_open_fault ∷ power_health_fault
    ∷ comm_multi_breaker_fault ∷ power_supply_load_share_err ∷ interlock_fault
    ∷ tangent_load_cell_fault ∷ loss_of_tma_comm_on_enable_fault ∷ crio_comm_fault
    ∷ user_generated_fault ∷ parameter_file_read_fault ∷ power_system_timeout ∷ [])

unfoldable pub get_mask_warn : ℕ
get_mask_warn = set_all 0 (
    actuator_limit_ol ∷ inclinometer_wo_lut ∷ motor_voltage_warn ∷ comm_voltage_warn
    ∷ single_breaker_trip ∷ crio_timing_warn ∷ displacement_sensor_range_err
    ∷ mirror_temp_sensor_warn ∷ cell_temp_warn ∷ temp_diff_warn ∷ loss_of_tma_warn
    ∷ monitor_ilc_read_warn ∷ [])

unfoldable pub get_mask_info : ℕ
get_mask_info = set_all 0 (
    broadcast_err ∷ motor_relay ∷ comm_relay ∷ hardware_fault ∷ stale_data_warn ∷ stale_data_fault
    ∷ [])

unfoldable pub get_telemetry_fault_manager_affected_fault_mask : ℕ
get_telemetry_fault_manager_affected_fault_mask = set_all 0 (
    actuator_limit_cl ∷ inclinometer_w_lut ∷ inclinometer_range_err ∷ mirror_temp_sensor_fault
    ∷ elevation_angle_diff_fault ∷ actuator_fault ∷ excessive_force
    ∷ axial_actuator_encoder_range_fault ∷ tangent_actuator_encoder_range_fault
    ∷ tangent_load_cell_fault ∷ [])

unfoldable pub get_telemetry_fault_manager_affected_warning_mask : ℕ
get_telemetry_fault_manager_affected_warning_mask = set_all 0 (
    monitor_ilc_read_warn ∷ actuator_limit_ol ∷ inclinometer_wo_lut ∷ displacement_sensor_range_err
    ∷ mirror_temp_sensor_warn ∷ cell_temp_warn ∷ broadcast_err ∷ stale_data_warn ∷ stale_data_fault
    ∷ [])

unfoldable pub get_power_subsystem_fault_manager_affected_fault_mask : ℕ
get_power_subsystem_fault_manager_affected_fault_mask = set_all 0 (
    motor_voltage_fault ∷ motor_over_current ∷ motor_multi_breaker_fault ∷ comm_voltage_fault
    ∷ comm_over_current ∷ power_relay_open_fault ∷ power_health_fault ∷ comm_multi_breaker_fault
    ∷ power_supply_load_share_err ∷ interlock_fault ∷ power_system_timeout ∷ [])

unfoldable pub get_power_subsystem_fault_manager_affected_warning_mask : ℕ
get_power_subsystem_fault_manager_affected_warning_mask = set_all 0 (
    motor_voltage_warn ∷ comm_voltage_warn ∷ single_breaker_trip ∷ motor_relay ∷ comm_relay
    ∷ hardware_fault ∷ [])

unfoldable pub get_mask_health_faults : ℕ
get_mask_health_faults = set_all 0 (power_health_fault ∷ power_supply_load_share_err ∷ [])

-- getMaskPowerSubsystemFaults on COMM.
unfoldable pub get_mask_comm_faults : ℕ
get_mask_comm_faults = set_all 0 (
    comm_voltage_fault ∷ comm_over_current ∷ power_relay_open_fault ∷ comm_multi_breaker_fault ∷ [])

-- getMaskPowerSubsystemFaults on MOTOR.
unfoldable pub get_mask_motor_faults : ℕ
get_mask_motor_faults = set_all 0 (
    motor_voltage_fault ∷ motor_over_current ∷ power_relay_open_fault ∷ motor_multi_breaker_fault
    ∷ [])
