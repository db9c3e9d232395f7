-- ===== src/Config.antt =====
-- include/config_yaml.h: the configuration as the parsers of src/config_yaml.cpp return it.
pub mod Yaml
pub mod Parse
pub mod Load
pub mod Valid
pub mod Accepted
pub mod Serial
pub mod Transport
pub mod Tests
use smartmeter_gateway.Prelude.{ℕ, Bool, Option, Bytes, List}
use smartmeter_gateway.Prelude.Int.{ℤ}

pub data Parity : Type 0 where
  no_parity even odd : Parity

pub record ModbusTcpClientConfig : Type 0 where
  pub host : Bytes
  pub port : ℤ

pub record ModbusTcpServerConfig : Type 0 where
  pub address : Bytes
  pub port : ℤ

pub record ModbusRtuConfig : Type 0 where
  pub device : Bytes
  pub baud : ℤ
  pub data_bits : ℤ
  pub stop_bits : ℤ
  pub parity : Parity

pub record ReconnectDelayConfig : Type 0 where
  pub shortest : ℤ
  pub longest : ℤ
  pub exponential : Bool

pub record GridConfig (R : Type 0) : Type 0 where
  pub power_factor : R
  pub frequency : R
  pub is_leading : Bool

pub record MeterMasterConfig (R : Type 0) : Type 0 where
  pub tcp : Option ModbusTcpClientConfig
  pub rtu : Option ModbusRtuConfig
  pub slave_id : ℤ
  pub grid : GridConfig R

pub record MeterSlaveConfig : Type 0 where
  pub tcp : Option ModbusTcpServerConfig
  pub rtu : Option ModbusRtuConfig
  pub slave_id : ℤ
  pub request_timeout : ℤ
  pub idle_timeout : ℤ
  pub use_float_model : Bool

pub record MeterConfig (R : Type 0) : Type 0 where
  pub master : MeterMasterConfig R
  pub slave : Option MeterSlaveConfig

pub record MqttConfig : Type 0 where
  pub broker : Bytes
  pub port : ℤ
  pub topic : Bytes
  pub user : Option Bytes
  pub password : Option Bytes
  pub queue_size : ℕ
  pub reconnect_delay : ReconnectDelayConfig

-- `spdlog::level::level_enum`, as far as the source uses it.
pub data Level : Type 0 where
  off error warn info debug trace : Level

pub record LoggerConfig : Type 0 where
  pub global_level : Level
  pub module_levels : List (Bytes × Level)

pub record AppConfig (R : Type 0) : Type 0 where
  pub meter : MeterConfig R
  pub mqtt : MqttConfig
  pub logger : LoggerConfig
