-- ===== src/Config/Accepted.antt =====
-- What holds of every configuration that `loadConfig` returns, over all sections.
use smartmeter_gateway.Prelude.{
  false, Option, none, some, ◌>>=◌, ◌≡◌, ◌≢◌, arith, codes, bytes_eq_iff,
}
use smartmeter_gateway.Prelude.Int.{pos}
use smartmeter_gateway.Real.{RealOps}
use smartmeter_gateway.Config.{
  ModbusTcpClientConfig, ModbusRtuConfig, GridConfig, MeterMasterConfig, MeterSlaveConfig,
  MeterConfig, MqttConfig, AppConfig,
}
use smartmeter_gateway.Config.Yaml.{YamlOps}
use smartmeter_gateway.Config.Parse.{
  parse_tcp_client, parse_grid, parse_modbus_master, parse_meter_slave, parse_meter, parse_mqtt,
  bad_power_factor,
}
use smartmeter_gateway.Config.Valid.{
  InRange, IfThere, IsRtu, OneOf, IsSlave, IsMqtt, rtu_at, parse_meter_slave-IsSlave,
  parse_mqtt-IsMqtt,
}
use smartmeter_gateway.Config.Load.{load_config, is_conflict, share_device}

pub record IsMaster {R : Type 0} (IsGrid : GridConfig R → Type 0) (c : MeterMasterConfig R)
    : Type 0 where
  pub one : OneOf c.tcp c.rtu
  pub port : IfThere (λ t. InRange (pos 1) (pos 65535) t.port) c.tcp
  pub rtu : IfThere IsRtu c.rtu
  pub slave_id : InRange (pos 1) (pos 247) c.slave_id
  pub grid : IsGrid c.grid

-- Two serial sections name different devices.
abbrev pub Distinct : Option ModbusRtuConfig → Option ModbusRtuConfig → Type 0
Distinct (some a) (some b) = a.device ≢ b.device
Distinct _ _ = Unit

share_device-Distinct : (a b : Option ModbusRtuConfig) → share_device a b ≡ false → Distinct a b
unfolding share_device
share_device-Distinct none b h = tt
share_device-Distinct (some a) none h = tt
share_device-Distinct (some a) (some b) h = λ e. ground (arith, bytes_eq_iff a.device b.device)

module _ (ops : RealOps) (yaml : YamlOps ops.Real) where
  open ops use {Real, literal, less_eq}

  pub record IsGrid (c : GridConfig Real) : Type 0 where
    pub power_factor : bad_power_factor ops yaml c.power_factor ≡ false
    pub frequency : less_eq c.frequency (literal 0 0) ≡ false

  abbrev pub default_grid : GridConfig Real
  default_grid = record {
    power_factor = literal 95 2;
    frequency = literal 50 0;
    is_leading = false;
  }

  pub record IsConfig (c : AppConfig Real) : Type 0 where
    pub master : IsMaster IsGrid c.meter.master
    pub slave : IfThere IsSlave c.meter.slave
    pub distinct : IfThere (λ s. Distinct c.meter.master.rtu s.rtu) c.meter.slave
    pub mqtt : IsMqtt c.mqtt

  -- The defaults pass the tests of the grid section.
  module _ (defaults : IsGrid default_grid) where
    grid-IsGrid : (n : yaml.Node) (c : GridConfig Real) → parse_grid ops yaml n ≡ some c → IsGrid c
    unfolding parse_grid
    grid-IsGrid n c h = record {
      power_factor = ground (arith, defaults.power_factor);
      frequency = ground (arith, defaults.frequency);
    }

    grid_at :
        (o : Option yaml.Node) (c : GridConfig Real)
        → (o >>= parse_grid ops yaml) ≡ some c
        → IsGrid c
    grid_at none c h = absurd cc
    grid_at (some n) c h = grid-IsGrid n c h

    tcp_client-port :
        (n : yaml.Node) (t : ModbusTcpClientConfig)
        → parse_tcp_client ops yaml n ≡ some (some t)
        → InRange (pos 1) (pos 65535) t.port
    unfolding parse_tcp_client
    tcp_client-port n t h = ground arith

    tcp_client_at :
        (o : Option yaml.Node) (t : Option ModbusTcpClientConfig)
        → (o >>= parse_tcp_client ops yaml) ≡ some t
        → IfThere (λ t. InRange (pos 1) (pos 65535) t.port) t
    tcp_client_at none t h = absurd cc
    tcp_client_at (some n) none h = tt
    tcp_client_at (some n) (some t) h = tcp_client-port n t h

    parse_modbus_master-IsMaster :
        (n : yaml.Node) (c : MeterMasterConfig Real)
        → parse_modbus_master ops yaml n ≡ some c
        → IsMaster IsGrid c
    unfolding parse_modbus_master
    parse_modbus_master-IsMaster n c h = record {
      one = ground arith;
      port = tcp_client_at (yaml.get n (codes "tcp")) c.tcp (ground arith);
      rtu = rtu_at ops yaml (yaml.get n (codes "rtu")) c.rtu (ground arith);
      slave_id = ground arith;
      grid = grid_at (yaml.get n (codes "grid")) c.grid (ground arith);
    }

    bind-IsMaster :
        (o : Option yaml.Node) (c : MeterMasterConfig Real)
        → (o >>= parse_modbus_master ops yaml) ≡ some c
        → IsMaster IsGrid c
    bind-IsMaster none c h = absurd cc
    bind-IsMaster (some n) c h = parse_modbus_master-IsMaster n c h

    bind-IsSlave :
        (o : Option yaml.Node) (c : Option MeterSlaveConfig)
        → (o >>= parse_meter_slave ops yaml) ≡ some c
        → IfThere IsSlave c
    bind-IsSlave none c h = absurd cc
    bind-IsSlave (some n) none h = tt
    bind-IsSlave (some n) (some c) h = parse_meter_slave-IsSlave ops yaml n c h

    bind-IsMqtt :
        (o : Option yaml.Node) (c : MqttConfig) → (o >>= parse_mqtt ops yaml) ≡ some c → IsMqtt c
    bind-IsMqtt none c h = absurd cc
    bind-IsMqtt (some n) c h = parse_mqtt-IsMqtt ops yaml n c h

    meter_at :
        (o : Option yaml.Node) (c : MeterConfig Real)
        → (o >>= parse_meter ops yaml) ≡ some c
        → IsMaster IsGrid c.master × IfThere IsSlave c.slave
    unfolding parse_meter
    meter_at none c h = absurd cc
    meter_at (some n) c h = (
      bind-IsMaster (yaml.get n (codes "master")) c.master (ground arith),
      bind-IsSlave (yaml.get n (codes "slave")) c.slave (ground arith),
    )

    conflict-Distinct :
        (m : MeterMasterConfig Real) (s : Option MeterSlaveConfig)
        → is_conflict ops yaml m s ≡ false
        → IfThere (λ x. Distinct m.rtu x.rtu) s
    unfolding is_conflict
    conflict-Distinct m none h = tt
    conflict-Distinct m (some s) h = share_device-Distinct m.rtu s.rtu h

    -- If the built-in grid values pass the own tests of the parser, every configuration that is
    -- accepted is valid: each Modbus side has exactly one transport, ports, unit ids, serial
    -- settings, timeouts, the queue size and the reconnect delays are in their ranges, and master
    -- and slave do not share a serial device.
    pub load_config-IsConfig :
        (root : yaml.Node) (c : AppConfig Real) → load_config ops yaml root ≡ some c → IsConfig c
    unfolding load_config
    load_config-IsConfig root c h =
        let meter = meter_at (yaml.get root (codes "meter")) c.meter (ground arith) in
        record {
          master = meter.0;
          slave = meter.1;
          distinct = conflict-Distinct c.meter.master c.meter.slave (ground arith);
          mqtt = bind-IsMqtt (yaml.get root (codes "mqtt")) c.mqtt (ground arith);
        }
