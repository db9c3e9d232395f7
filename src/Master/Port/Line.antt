-- ===== src/Master/Port/Line.antt =====
-- src/meter_master.cpp, `tryConnect`: the settings of the serial line. What libc does to them is a
-- parameter; the calls before and behind are in the parent.
use smartmeter_gateway.Prelude.{ℕ, true, false, Option, none, some, ◌>>=◌, if◌then◌else◌}
use smartmeter_gateway.Prelude.Int.{ℤ, pos, eqb_ℤ}
use smartmeter_gateway.Config.{Parity, no_parity, even, odd, ModbusRtuConfig}
use smartmeter_gateway.Config.Serial.{
  Speed, SizeFlag, cs5, cs6, cs7, cs8, ControlFlags, baud_to_speed, data_bits_to_flag,
}

pub record Termios : Type 0 where
  pub c_cflag : ControlFlags
  pub input_speed : Speed
  pub output_speed : Speed
  pub vmin : ℕ
  pub vtime : ℕ

-- `cfmakeraw`, `cfsetispeed` and `cfsetospeed`; none is -1.
pub record Libc : Type 0 where
  pub cfmakeraw : Termios → Termios
  pub cfsetispeed : Speed → Termios → Option Termios
  pub cfsetospeed : Speed → Termios → Option Termios

-- The settings are ready for `tcsetattr`, a call has failed, or an exception is thrown.
pub data Settings : Type 0 where
  ready : Termios → Settings
  refused thrown : Settings

-- `|= CLOCAL | CREAD` and `&= ~(CSIZE | PARENB | PARODD | CSTOPB | CRTSCTS)`.
unfoldable pub base_flags : ControlFlags → ControlFlags
base_flags f = record f {
  clocal = true;
  cread = true;
  size_low = false;
  size_high = false;
  parenb = false;
  parodd = false;
  cstopb = false;
  crtscts = false;
}

-- `|=` with one of the CS flags.
unfoldable pub or_size : SizeFlag → ControlFlags → ControlFlags
or_size cs5 f = f
or_size cs6 f = record f { size_low = true }
or_size cs7 f = record f { size_high = true }
or_size cs8 f = record f { size_low = true; size_high = true }

unfoldable pub set_parity : Parity → ControlFlags → ControlFlags
set_parity even f = record f { parenb = true; parodd = false }
set_parity odd f = record f { parenb = true; parodd = true }
set_parity no_parity f = f

unfoldable pub set_stop_bits : ℤ → ControlFlags → ControlFlags
set_stop_bits bits f = if eqb_ℤ bits (pos 2) then record f { cstopb = true } else f

-- Behind the speeds; 64 is `BUFFER_SIZE`.
unfoldable pub set_line : ModbusRtuConfig → SizeFlag → Termios → Termios
set_line rtu size t = record t {
  c_cflag =
      set_stop_bits rtu.stop_bits (set_parity rtu.parity (or_size size (base_flags t.c_cflag)));
  vmin = 64;
  vtime = 5;
}

unfoldable pub with_size : Option SizeFlag → ModbusRtuConfig → Termios → Settings
with_size none rtu t = thrown
with_size (some size) rtu t = ready (set_line rtu size t)

unfoldable pub with_speeds : Option Termios → ModbusRtuConfig → Settings
with_speeds none rtu = refused
with_speeds (some t) rtu = with_size (data_bits_to_flag rtu.data_bits) rtu t

unfoldable pub with_speed : Libc → Option Speed → ModbusRtuConfig → Termios → Settings
with_speed libc none rtu t = thrown
with_speed libc (some speed) rtu t =
    with_speeds (libc.cfsetispeed speed t >>= libc.cfsetospeed speed) rtu

-- From what `tcgetattr` has given.
unfoldable pub line_settings : Libc → ModbusRtuConfig → Termios → Settings
line_settings libc rtu t = with_speed libc (baud_to_speed rtu.baud) rtu (libc.cfmakeraw t)
