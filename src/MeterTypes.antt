-- ===== src/MeterTypes.antt =====
-- include/meter_types.h: the values and the device data that the master hands to the slave.
use smartmeter_gateway.Prelude.{ℕ, Bytes}

pub record Phase (R : Type 0) : Type 0 where
  pub ph_voltage : R
  pub pp_voltage : R
  pub current : R
  pub active_power : R
  pub reactive_power : R
  pub apparent_power : R
  pub power_factor : R

pub record Values (R : Type 0) : Type 0 where
  pub time : ℕ
  pub active_sensor_time : ℕ
  pub active_energy_import : R
  pub active_energy_export : R
  pub reactive_energy_import : R
  pub reactive_energy_export : R
  pub apparent_energy_import : R
  pub apparent_energy_export : R
  pub ph_voltage : R
  pub pp_voltage : R
  pub current : R
  pub active_power : R
  pub reactive_power : R
  pub apparent_power : R
  pub power_factor : R
  pub frequency : R
  pub phase1 : Phase R
  pub phase2 : Phase R
  pub phase3 : Phase R

pub record Device : Type 0 where
  pub manufacturer : Bytes
  pub model : Bytes
  pub options : Bytes
  pub serial_number : Bytes
  pub fw_version : Bytes
  pub status : Bytes
  pub phases : ℕ
