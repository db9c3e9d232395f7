-- ===== src/Config/Parse.antt =====
-- src/config_yaml.cpp: the section parsers, from a loaded document. An exception is none, without
-- its message.
use smartmeter_gateway.Prelude.{
  Bool, true, false, not, ◌&&◌, ◌||◌, Option, none, some, ◌>>=◌, ◌==◌, if◌then◌else◌, Bytes,
  bytes_eq, codes,
}
use smartmeter_gateway.Prelude.Int.{ℤ, pos, ltb_ℤ, leb_ℤ, eqb_ℤ}
use smartmeter_gateway.Real.{RealOps}
use smartmeter_gateway.Config.{
  Parity, no_parity, even, odd, ModbusTcpClientConfig, ModbusTcpServerConfig, ModbusRtuConfig,
  ReconnectDelayConfig, GridConfig, MeterMasterConfig, MeterSlaveConfig, MeterConfig, MqttConfig,
  Level, off, error, warn, info, debug, trace,
}
use smartmeter_gateway.Config.Yaml.{YamlOps}

unfoldable pub parse_parity : Bytes → Option Parity
parse_parity s =
    if bytes_eq s (codes "none")
    then some no_parity
    else if bytes_eq s (codes "even")
    then some even
    else if bytes_eq s (codes "odd")
    then some odd
    else none

unfoldable pub parse_log_level : Bytes → Option Level
parse_log_level s =
    if bytes_eq s (codes "off")
    then some off
    else if bytes_eq s (codes "error")
    then some error
    else if bytes_eq s (codes "warn")
    then some warn
    else if bytes_eq s (codes "info")
    then some info
    else if bytes_eq s (codes "debug")
    then some debug
    else if bytes_eq s (codes "trace")
    then some trace
    else none

-- The tests of the parsers.
abbrev pub bad_port : ℤ → Bool
bad_port p = leb_ℤ p (pos 0) || ltb_ℤ (pos 65535) p

abbrev pub bad_slave_id : ℤ → Bool
bad_slave_id i = ltb_ℤ i (pos 1) || ltb_ℤ (pos 247) i

abbrev pub has_value {ℓ} : {A : Type ℓ} → Option A → Bool
has_value none = false
has_value (some a) = true

abbrev pub same : Bool → Bool → Bool
same true b = b
same false b = not b

module _ (ops : RealOps) (yaml : YamlOps ops.Real) where
  open ops use {Real, literal, less, less_eq}
  open yaml use {
    Node, get, defined, is_map, entries, as_string, as_string_or, as_int_or, as_size_or, as_bool_or,
    as_double_or,
  }

  -- `node[key].as<T>(fallback)` and `node[key].as<std::string>()`.
  abbrev int_at : Node → Bytes → ℤ → Option ℤ
  int_at node key d = get node key >>= (λ n. some (as_int_or n d))

  abbrev bool_at : Node → Bytes → Bool → Option Bool
  bool_at node key d = get node key >>= (λ n. some (as_bool_or n d))

  abbrev double_at : Node → Bytes → Real → Option Real
  double_at node key d = get node key >>= (λ n. some (as_double_or n d))

  abbrev text_at : Node → Bytes → Bytes → Option Bytes
  text_at node key d = get node key >>= (λ n. some (as_string_or n d))

  -- A section that must be there.
  abbrev required : Node → Bytes → Option Bytes
  required node key = get node key >>= (λ n. if not (defined n) then none else as_string n)

  -- A key that may be missing.
  abbrev optional : Node → Bytes → Option (Option Bytes)
  optional node key =
      get node key >>= (λ n. if defined n then as_string n >>= (λ s. some (some s)) else some none)

  unfoldable pub parse_tcp_client : Node → Option (Option ModbusTcpClientConfig)
  parse_tcp_client node =
      if not (defined node)
      then some none
      else required node (codes "host") >>= (λ host.
        int_at node (codes "port") (pos 502) >>= (λ port.
          if bad_port port then none else some (some (record { host = host; port = port }))))

  unfoldable pub parse_tcp_server : Node → Option (Option ModbusTcpServerConfig)
  parse_tcp_server node =
      if not (defined node)
      then some none
      else text_at node (codes "listen") (codes "0.0.0.0") >>= (λ address.
        int_at node (codes "port") (pos 502) >>= (λ port.
          if bad_port port then none else some (some (record { address = address; port = port }))))

  unfoldable pub parity_of : Option Bytes → Option Parity
  parity_of none = some no_parity
  parity_of (some s) = parse_parity s

  unfoldable pub parse_rtu : Node → Option (Option ModbusRtuConfig)
  parse_rtu node =
      if not (defined node)
      then some none
      else required node (codes "device") >>= (λ device.
        int_at node (codes "baud") (pos 9600) >>= (λ baud.
          int_at node (codes "data_bits") (pos 8) >>= (λ data_bits.
            int_at node (codes "stop_bits") (pos 1) >>= (λ stop_bits.
              optional node (codes "parity") >>= parity_of >>= (λ parity.
                if leb_ℤ baud (pos 0)
                then none
                else if ltb_ℤ data_bits (pos 5) || ltb_ℤ (pos 8) data_bits
                then none
                else if not (eqb_ℤ stop_bits (pos 1)) && not (eqb_ℤ stop_bits (pos 2))
                then none
                else some (
                    some (record {
                      device = device;
                      baud = baud;
                      data_bits = data_bits;
                      stop_bits = stop_bits;
                      parity = parity;
                    })))))))

  unfoldable pub parse_reconnect_delay : Node → Option ReconnectDelayConfig
  parse_reconnect_delay node =
      if not (defined node)
      then some (record { shortest = pos 5; longest = pos 320; exponential = true })
      else int_at node (codes "min") (pos 5) >>= (λ shortest.
        int_at node (codes "max") (pos 320) >>= (λ longest.
          bool_at node (codes "exponential") true >>= (λ exponential.
            if leb_ℤ shortest (pos 0)
            then none
            else if leb_ℤ longest (pos 0)
            then none
            else if leb_ℤ longest shortest
            then none
            else some
                (record { shortest = shortest; longest = longest; exponential = exponential }))))

  abbrev pub bad_power_factor : Real → Bool
  bad_power_factor x = less_eq x (literal 0 0) || less (literal 1 0) x

  unfoldable pub parse_grid : Node → Option (GridConfig Real)
  parse_grid node =
      if not (defined node)
      then some
          (record { power_factor = literal 95 2; frequency = literal 50 0; is_leading = false })
      else double_at node (codes "power_factor") (literal 95 2) >>= (λ power_factor.
        double_at node (codes "frequency") (literal 50 0) >>= (λ frequency.
          bool_at node (codes "leading") false >>= (λ is_leading.
            if bad_power_factor power_factor
            then none
            else if less_eq frequency (literal 0 0)
            then none
            else some (record {
              power_factor = power_factor;
              frequency = frequency;
              is_leading = is_leading;
            }))))

  unfoldable pub parse_modbus_master : Node → Option (MeterMasterConfig Real)
  parse_modbus_master node = get node (codes "tcp") >>= parse_tcp_client >>= (λ tcp.
      get node (codes "rtu") >>= parse_rtu >>= (λ rtu.
        if same (has_value tcp) (has_value rtu)
        then none
        else int_at node (codes "unit_id") (pos 1) >>= (λ slave_id.
          get node (codes "grid") >>= parse_grid >>= (λ grid.
            if bad_slave_id slave_id
            then none
            else some (record { tcp = tcp; rtu = rtu; slave_id = slave_id; grid = grid })))))

  unfoldable pub parse_meter_slave : Node → Option (Option MeterSlaveConfig)
  parse_meter_slave node =
      if not (defined node)
      then some none
      else get node (codes "tcp") >>= parse_tcp_server >>= (λ tcp.
        get node (codes "rtu") >>= parse_rtu >>= (λ rtu.
          if same (has_value tcp) (has_value rtu)
          then none
          else int_at node (codes "unit_id") (pos 1) >>= (λ slave_id.
            int_at node (codes "request_timeout") (pos 5) >>= (λ request_timeout.
              int_at node (codes "idle_timeout") (pos 60) >>= (λ idle_timeout.
                bool_at node (codes "use_float_model") false >>= (λ use_float_model.
                  if bad_slave_id slave_id
                  then none
                  else if leb_ℤ request_timeout (pos 0)
                  then none
                  else if ltb_ℤ idle_timeout request_timeout
                  then none
                  else some (
                      some (record {
                        tcp = tcp;
                        rtu = rtu;
                        slave_id = slave_id;
                        request_timeout = request_timeout;
                        idle_timeout = idle_timeout;
                        use_float_model = use_float_model;
                      }))))))))

  unfoldable pub parse_meter : Node → Option (MeterConfig Real)
  parse_meter node = get node (codes "master") >>= parse_modbus_master >>= (λ master.
      get node (codes "slave")
      >>= parse_meter_slave
      >>= (λ slave. some (record { master = master; slave = slave })))

  unfoldable pub parse_mqtt : Node → Option MqttConfig
  parse_mqtt node =
      if not (defined node)
      then none
      else text_at node (codes "broker") (codes "localhost") >>= (λ broker.
        int_at node (codes "port") (pos 1883) >>= (λ port.
          text_at node (codes "topic") (codes "smartmeter-gateway") >>= (λ topic.
            get node (codes "queue_size") >>= (λ size. optional node (codes "user") >>= (λ user.
              optional node (codes "password") >>= (λ password.
                get node (codes "reconnect_delay") >>= parse_reconnect_delay >>= (λ reconnect_delay.
                  if bad_port port
                  then none
                  else if as_size_or size 100 == 0
                  then none
                  else some (record {
                    broker = broker;
                    port = port;
                    topic = topic;
                    user = user;
                    password = password;
                    queue_size = as_size_or size 100;
                    reconnect_delay = reconnect_delay;
                  }))))))))
