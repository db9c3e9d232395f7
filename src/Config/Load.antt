-- ===== src/Config/Load.antt =====
-- src/config_yaml.cpp: the logger section, the check across sections, and `loadConfig` behind the
-- call that reads the file.
use smartmeter_gateway.Prelude.{
  Bool, false, not, List, [], ◌∷◌, ◌++◌, Option, none, some, ◌>>=◌, if◌then◌else◌, Bytes, bytes_eq,
  codes,
}
use smartmeter_gateway.SortedMap.{insert}
use smartmeter_gateway.Real.{RealOps}
use smartmeter_gateway.Config.{
  ModbusRtuConfig, MeterSlaveConfig, MeterMasterConfig, Level, info, LoggerConfig, AppConfig,
}
use smartmeter_gateway.Config.Yaml.{YamlOps}
use smartmeter_gateway.Config.Parse.{parse_log_level, parse_meter, parse_mqtt}

-- Master and slave name the same serial device.
unfoldable pub share_device : Option ModbusRtuConfig → Option ModbusRtuConfig → Bool
share_device (some a) (some b) = bytes_eq a.device b.device
share_device _ _ = false

module _ (ops : RealOps) (yaml : YamlOps ops.Real) where
  open ops use {Real}
  open yaml use {Node, get, defined, is_map, entries, as_string}

  abbrev Levels : Type 0
  Levels = List (Bytes × Level)

  abbrev level_of : Node → Option Level
  level_of node = as_string node >>= parse_log_level

  -- The loop over the map below a module.
  unfoldable pub add_submodules : Bytes → List (Node × Node) → Levels → Option Levels
  add_submodules key [] m = some m
  add_submodules key ((k, v) ∷ rest) m = as_string k >>= (λ subkey.
      level_of v >>= (λ level. add_submodules key rest (insert (key ++ b'.' ∷ subkey) level m)))

  unfoldable pub add_module : Bytes → Node → Levels → Option Levels
  add_module key v m =
      if is_map v
      then entries v >>= (λ subs. add_submodules key subs m)
      else level_of v >>= (λ level. some (insert key level m))

  -- The loop over the modules.
  unfoldable pub add_modules : List (Node × Node) → Levels → Option Levels
  add_modules [] m = some m
  add_modules ((k, v) ∷ rest) m =
      as_string k >>= (λ key. add_module key v m >>= (λ m'. add_modules rest m'))

  abbrev global_level : Node → Option Level
  global_level n = if defined n then level_of n else some info

  abbrev module_levels_of : Node → Option Levels
  module_levels_of n = if defined n then entries n >>= (λ es. add_modules es []) else some []

  unfoldable pub parse_logger : Node → Option LoggerConfig
  parse_logger node =
      if not (defined node)
      then some (record { global_level = info; module_levels = [] })
      else get node (codes "level") >>= global_level >>= (λ level.
        get node (codes "modules")
        >>= module_levels_of
        >>= (λ levels. some (record { global_level = level; module_levels = levels })))

  unfoldable pub is_conflict : MeterMasterConfig Real → Option MeterSlaveConfig → Bool
  is_conflict master none = false
  is_conflict master (some slave) = share_device master.rtu slave.rtu

  unfoldable pub load_config : Node → Option (AppConfig Real)
  load_config root = get root (codes "meter") >>= parse_meter ops yaml >>= (λ meter.
      get root (codes "mqtt") >>= parse_mqtt ops yaml >>= (λ mqtt.
        get root (codes "logger") >>= parse_logger >>= (λ logger.
          if is_conflict meter.master meter.slave
          then none
          else some (record { meter = meter; mqtt = mqtt; logger = logger }))))
