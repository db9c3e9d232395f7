-- ===== src/Config/Tests.antt =====
-- A configuration on concrete data, and the theorems at inputs that meet their hypotheses.
use smartmeter_gateway.Prelude.{
  ℕ, ◌*◌, ◌/◌, ◌^◌, Bool, true, false, List, [], ◌∷◌, ◌++◌, none, some, ◌≡◌, refl, Bytes, bytes_eq,
  codes, if◌then◌else◌,
}
use smartmeter_gateway.Prelude.Int.{pos}
use smartmeter_gateway.SortedMap.{lookup}
use smartmeter_gateway.Real.{RealOps}
use smartmeter_gateway.Real.Whole.{whole}
use smartmeter_gateway.SignalHandler.{is_running, init}
use smartmeter_gateway.ModbusError.{ok}
use smartmeter_gateway.Config.Serial.{b9600, b115200, baud_to_speed, data_bits_to_flag}
use smartmeter_gateway.Master.Port.Settings.{IsLine, IsLibc}
use smartmeter_gateway.Master.Port.Line.{
  Termios, Libc, ready, line_settings, with_speed, with_speeds, with_size, set_line, base_flags,
  or_size, set_parity, set_stop_bits,
}
use smartmeter_gateway.Master.Port.Line
use smartmeter_gateway.Master.Port.{
  Meter, descriptor, succeeds, returned, thrown, undefined, try_connect, is_speed,
}
use smartmeter_gateway.Master.Loop.{start}
use smartmeter_gateway.Config.{AppConfig, MeterMasterConfig, ModbusRtuConfig, no_parity, info}
use smartmeter_gateway.Config.Transport.{try_connect_tcp, try_connect_speed}
use smartmeter_gateway.Config.Yaml.{YamlOps}
use smartmeter_gateway.Config.Parse.{
  parse_tcp_client, parse_tcp_server, parse_rtu, parse_reconnect_delay, parse_grid,
  parse_modbus_master, parse_meter_slave, parse_meter, parse_mqtt, parity_of,
}
use smartmeter_gateway.Config.Load.{load_config, is_conflict, share_device, parse_logger}
use smartmeter_gateway.Config.Accepted.{IsConfig, IsGrid, default_grid, load_config-IsConfig}

-- Hundredths in place of doubles.
abbrev hundredths : RealOps
hundredths = record whole { literal = λ n d. n * 100 / 10 ^ d }

-- A node is its path; the document has these texts and no other scalars.
abbrev texts : List (Bytes × Bytes)
texts = (codes ".meter.master.rtu.device", codes "/dev/ttyUSB0") ∷ []

abbrev sections : List Bytes
sections =
    codes ".meter.master.rtu"
    ∷ codes ".meter.master.rtu.device"
    ∷ codes ".meter.slave"
    ∷ codes ".meter.slave.tcp"
    ∷ codes ".mqtt"
    ∷ []

abbrev pub is_in : Bytes → List Bytes → Bool
is_in p [] = false
is_in p (x ∷ xs) = let rest = is_in p xs in if bytes_eq p x then true else rest

abbrev yaml : YamlOps ℕ
yaml = record {
  Node = Bytes;
  get = λ p key. some (p ++ b'.' ∷ key);
  defined = λ p. is_in p sections;
  is_map = λ p. false;
  entries = λ p. none;
  as_string = λ p. lookup p texts;
  as_string_or = λ p d. d;
  as_int_or = λ p d. d;
  as_size_or = λ p d. d;
  as_bool_or = λ p d. d;
  as_double_or = λ p d. d;
}

abbrev pub config : AppConfig ℕ
config = record {
  meter = record {
    master = record {
      tcp = none;
      rtu = some (record {
        device = codes "/dev/ttyUSB0";
        baud = pos 9600;
        data_bits = pos 8;
        stop_bits = pos 1;
        parity = no_parity;
      });
      slave_id = pos 1;
      grid = record { power_factor = 95; frequency = 5000; is_leading = false };
    };
    slave = some (record {
      tcp = some (record { address = codes "0.0.0.0"; port = pos 502 });
      rtu = none;
      slave_id = pos 1;
      request_timeout = pos 5;
      idle_timeout = pos 60;
      use_float_model = false;
    });
  };
  mqtt = record {
    broker = codes "localhost";
    port = pos 1883;
    topic = codes "smartmeter-gateway";
    user = none;
    password = none;
    queue_size = 100;
    reconnect_delay = record { shortest = pos 5; longest = pos 320; exponential = true };
  };
  logger = record { global_level = info; module_levels = [] };
}

loaded : load_config hundredths yaml [] ≡ some config
unfolding load_config parse_meter parse_modbus_master parse_tcp_client parse_tcp_server parse_rtu
    parity_of parse_grid parse_meter_slave parse_mqtt parse_reconnect_delay parse_logger is_conflict
    share_device bytes_eq lookup
loaded = refl

grid-IsGrid : IsGrid hundredths yaml (default_grid hundredths yaml)
grid-IsGrid = record { power_factor = refl; frequency = refl }

load_config-IsConfig_example : IsConfig hundredths yaml config
load_config-IsConfig_example = load_config-IsConfig hundredths yaml grid-IsGrid [] config loaded

-- The same document with a tcp section for the master.
abbrev tcp_yaml : YamlOps ℕ
tcp_yaml = record yaml {
  defined = λ p. is_in p (codes ".master.tcp" ∷ codes ".master.tcp.host" ∷ []);
  as_string = λ p. some (codes "meter");
}

abbrev tcp_master : MeterMasterConfig ℕ
tcp_master = record {
  tcp = some (record { host = codes "meter"; port = pos 502 });
  rtu = none;
  slave_id = pos 1;
  grid = record { power_factor = 95; frequency = 5000; is_leading = false };
}

tcp_parsed : parse_modbus_master hundredths tcp_yaml (codes ".master") ≡ some tcp_master
unfolding parse_modbus_master parse_tcp_client parse_rtu parse_grid bytes_eq
tcp_parsed = refl

abbrev idle : Meter ℕ
idle = start.meter

try_connect_tcp_example : try_connect tcp_master.rtu (descriptor 3 succeeds) idle ≡ undefined
unfolding is_running init
try_connect_tcp_example =
    try_connect_tcp hundredths tcp_yaml (codes ".master") tcp_master _ (descriptor 3 succeeds) idle
      tcp_parsed refl refl refl

abbrev rtu : ModbusRtuConfig
rtu = record {
  device = codes "/dev/ttyUSB0";
  baud = pos 9600;
  data_bits = pos 8;
  stop_bits = pos 1;
  parity = no_parity;
}

rtu_parsed : parse_rtu hundredths yaml (codes ".meter.master.rtu") ≡ some (some rtu)
unfolding parse_rtu parity_of bytes_eq lookup
rtu_parsed = refl

-- A libc that stores both speeds and clears nothing but the parity.
abbrev libc : Libc
libc = record {
  cfmakeraw = λ t. record t { c_cflag = record t.c_cflag { parenb = false } };
  cfsetispeed = λ s t. some (record t { input_speed = s });
  cfsetospeed = λ s t. some (record t { output_speed = s });
}

libc-IsLibc : IsLibc libc
libc-IsLibc = record {
  input = λ b s t h. (record t { input_speed = s }, refl, refl);
  output = λ b s t h. (record t { output_speed = s }, refl, refl, λ e. e);
}

-- A port at 115200 baud with 7 bits, odd parity, two stop bits and flow control.
abbrev before : Termios
before = record {
  c_cflag = record {
    size_low = false;
    size_high = true;
    parenb = true;
    parodd = true;
    cstopb = true;
    crtscts = true;
    clocal = false;
    cread = false;
  };
  input_speed = b115200;
  output_speed = b115200;
  vmin = 1;
  vtime = 0;
}

try_connect_speed_example :
    (is_speed rtu.baud ≡ true
      → ((m : Meter ℕ) × (try_connect (some rtu) (descriptor 3 succeeds) idle ≡ returned (ok tt) m))
        × ((u : Termios) × (line_settings libc rtu before ≡ ready u) × IsLine rtu u))
    × (is_speed rtu.baud ≡ false
        → ((m : Meter ℕ) × (try_connect (some rtu) (descriptor 3 succeeds) idle ≡ thrown m))
          × (line_settings libc rtu before ≡ Line.thrown))
unfolding is_running init
try_connect_speed_example =
    try_connect_speed hundredths yaml libc (codes ".meter.master.rtu") rtu 3 idle before libc-IsLibc
      rtu_parsed refl refl

-- 9600 baud, 8N1.
line_set :
    line_settings libc rtu before
    ≡ ready (record {
      c_cflag = record {
        size_low = true;
        size_high = true;
        parenb = false;
        parodd = false;
        cstopb = false;
        crtscts = false;
        clocal = true;
        cread = true;
      };
      input_speed = b9600;
      output_speed = b9600;
      vmin = 64;
      vtime = 5;
    })
unfolding line_settings with_speed with_speeds with_size set_line base_flags or_size set_parity
    set_stop_bits baud_to_speed data_bits_to_flag
line_set = refl
