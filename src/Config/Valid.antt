-- ===== src/Config/Valid.antt =====
-- What holds of every configuration that `loadConfig` returns.
use smartmeter_gateway.Prelude.{◌<◌, false, Option, none, some, ◌>>=◌, ◌≡◌, arith, codes}
use smartmeter_gateway.Prelude.Int.{ℤ, pos, ◌≤ℤ◌}
use smartmeter_gateway.Real.{RealOps}
use smartmeter_gateway.Config.{
  ModbusTcpServerConfig, ModbusRtuConfig, ReconnectDelayConfig, MeterSlaveConfig, MqttConfig,
}
use smartmeter_gateway.Config.Yaml.{YamlOps}
use smartmeter_gateway.Config.Parse.{
  parse_tcp_server, parse_rtu, parse_reconnect_delay, parse_meter_slave, parse_mqtt, has_value,
  same,
}

abbrev pub InRange : ℤ → ℤ → ℤ → Type 0
InRange low high x = (low ≤ℤ x) × (x ≤ℤ high)

-- What holds of a section that is there.
abbrev pub IfThere : {A : Type 0} → (A → Type 0) → Option A → Type 0
IfThere P none = Unit
IfThere P (some a) = P a

pub record IsRtu (c : ModbusRtuConfig) : Type 0 where
  pub baud : pos 1 ≤ℤ c.baud
  pub data_bits : InRange (pos 5) (pos 8) c.data_bits
  pub stop_bits : InRange (pos 1) (pos 2) c.stop_bits

pub record IsDelay (c : ReconnectDelayConfig) : Type 0 where
  pub positive : pos 1 ≤ℤ c.shortest
  pub ordered : (c.longest ≤ℤ c.shortest) → ⊥

-- Exactly one transport.
abbrev pub OneOf : {A B : Type 0} → Option A → Option B → Type 0
OneOf tcp rtu = same (has_value tcp) (has_value rtu) ≡ false

pub record IsSlave (c : MeterSlaveConfig) : Type 0 where
  pub one : OneOf c.tcp c.rtu
  pub port : IfThere (λ t. InRange (pos 1) (pos 65535) t.port) c.tcp
  pub rtu : IfThere IsRtu c.rtu
  pub slave_id : InRange (pos 1) (pos 247) c.slave_id
  pub request_timeout : pos 1 ≤ℤ c.request_timeout
  pub idle_timeout : c.request_timeout ≤ℤ c.idle_timeout

pub record IsMqtt (c : MqttConfig) : Type 0 where
  pub port : InRange (pos 1) (pos 65535) c.port
  pub queue_size : 0 < c.queue_size
  pub delay : IsDelay c.reconnect_delay

module _ (ops : RealOps) (yaml : YamlOps ops.Real) where
  open ops use {Real, literal, less, less_eq}

  tcp_server-port :
      (n : yaml.Node) (t : ModbusTcpServerConfig)
      → parse_tcp_server ops yaml n ≡ some (some t)
      → InRange (pos 1) (pos 65535) t.port
  unfolding parse_tcp_server
  tcp_server-port n t h = ground arith

  pub rtu-IsRtu :
      (n : yaml.Node) (c : ModbusRtuConfig) → parse_rtu ops yaml n ≡ some (some c) → IsRtu c
  unfolding parse_rtu
  rtu-IsRtu n c h = record {
    baud = ground arith;
    data_bits = ground arith;
    stop_bits = ground arith;
  }

  -- A transport section, where the key is looked up.
  tcp_server_at :
      (o : Option yaml.Node) (t : Option ModbusTcpServerConfig)
      → (o >>= parse_tcp_server ops yaml) ≡ some t
      → IfThere (λ t. InRange (pos 1) (pos 65535) t.port) t
  tcp_server_at none t h = absurd cc
  tcp_server_at (some n) none h = tt
  tcp_server_at (some n) (some t) h = tcp_server-port n t h

  pub rtu_at :
      (o : Option yaml.Node) (c : Option ModbusRtuConfig)
      → (o >>= parse_rtu ops yaml) ≡ some c
      → IfThere IsRtu c
  rtu_at none c h = absurd cc
  rtu_at (some n) none h = tt
  rtu_at (some n) (some c) h = rtu-IsRtu n c h

  pub parse_meter_slave-IsSlave :
      (n : yaml.Node) (c : MeterSlaveConfig)
      → parse_meter_slave ops yaml n ≡ some (some c)
      → IsSlave c
  unfolding parse_meter_slave
  parse_meter_slave-IsSlave n c h = record {
    one = ground arith;
    port = tcp_server_at (yaml.get n (codes "tcp")) c.tcp (ground arith);
    rtu = rtu_at (yaml.get n (codes "rtu")) c.rtu (ground arith);
    slave_id = ground arith;
    request_timeout = ground arith;
    idle_timeout = ground arith;
  }

  parse_reconnect_delay-IsDelay :
      (n : yaml.Node) (c : ReconnectDelayConfig)
      → parse_reconnect_delay ops yaml n ≡ some c
      → IsDelay c
  unfolding parse_reconnect_delay
  parse_reconnect_delay-IsDelay n c h = record { positive = ground arith; ordered = ground arith }

  bind-IsDelay :
      (o : Option yaml.Node) (c : ReconnectDelayConfig)
      → (o >>= parse_reconnect_delay ops yaml) ≡ some c
      → IsDelay c
  bind-IsDelay none c h = absurd cc
  bind-IsDelay (some n) c h = parse_reconnect_delay-IsDelay n c h

  pub parse_mqtt-IsMqtt :
      (n : yaml.Node) (c : MqttConfig) → parse_mqtt ops yaml n ≡ some c → IsMqtt c
  unfolding parse_mqtt
  parse_mqtt-IsMqtt n c h = record {
    port = ground arith;
    queue_size = ground arith;
    delay = bind-IsDelay (yaml.get n (codes "reconnect_delay")) c.reconnect_delay (ground arith);
  }
