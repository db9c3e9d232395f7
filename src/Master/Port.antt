-- ===== src/Master/Port.antt =====
-- src/meter_master.cpp: the object's fields and what `tryConnect`, `handleResult` and `disconnect`
-- do to them. What the system answers is an argument; the log and the waits are left out.
pub mod Descriptor
pub mod Line
pub mod Settings
use smartmeter_gateway.Prelude.{
  ℕ, Bool, true, false, not, ◌&&◌, ◌||◌, List, [], ◌∷◌, ◌++◌, Option, none, some, if◌then◌else◌,
  Bytes,
}
use smartmeter_gateway.Prelude.Int.{ℤ, pos, eqb_ℤ}
use smartmeter_gateway.ModbusError.{
  Errno, eintr, eproto, Result, ok, err, custom, from_errno, Severity, fatal, transient,
  ModbusError, ErrorAction, none_action, reconnect, stop,
}
use smartmeter_gateway.ModbusError
use smartmeter_gateway.SignalHandler.{SignalHandler, is_running}
use smartmeter_gateway.SignalHandler
use smartmeter_gateway.Real.{RealOps}
use smartmeter_gateway.Config.{MeterMasterConfig, ModbusRtuConfig}
use smartmeter_gateway.Config.Serial.{baud_to_speed, data_bits_to_flag}
use smartmeter_gateway.Config.Parse.{has_value}
use smartmeter_gateway.MeterTypes.{Values, Device}
use smartmeter_gateway.Master.Telegram.{Poll, Outcome, finished, blocked, read_telegram}
use smartmeter_gateway.Master.Readings.{values_of}
use smartmeter_gateway.Master.Identity.{device_of}

-- What the master does that the rest of the program or the system sees.
pub data Effect (R : Type 0) : Type 0 where
  opened closed : ℕ → Effect R
  availability : Bool → Effect R
  device_sent : Option Device → Effect R
  values_sent : Option (Values R) → Effect R

-- The object's fields. `serial_port` is none for -1; `device` and `values` are none until they are
-- first assigned. `effects` lists what has happened, the latest first.
pub record Meter (R : Type 0) : Type 0 where
  pub serial_port : Option ℕ
  pub telegram : Bytes
  pub device : Option Device
  pub values : Option (Values R)
  pub device_callback : Bool
  pub update_callback : Bool
  pub availability_callback : Bool
  pub handler : SignalHandler
  pub effects : List (Effect R)

-- `open` gives a descriptor or fails; the calls on it that follow fail before the speed is looked
-- up or behind that, or all succeed.
pub data Setup : Type 0 where
  fails_early fails_late : Errno → Setup
  succeeds : Setup

pub data OpenResult : Type 0 where
  open_failed : Errno → OpenResult
  descriptor : ℕ → Setup → OpenResult

-- `baudToSpeed` and `dataBitsToFlag` return, rather than throw.
unfoldable pub is_speed : ℤ → Bool
is_speed b = has_value (baud_to_speed b)

unfoldable pub is_data_bits : ℤ → Bool
is_data_bits b = has_value (data_bits_to_flag b)

-- How a call ends: it returns, an exception leaves it, or it has dereferenced an empty optional.
pub data Attempt (R : Type 0) : Type 0 where
  returned : Result (Unit {0}) → Meter R → Attempt R
  thrown : Meter R → Attempt R
  undefined : Attempt R

abbrev pub is_connected : Option ℕ → Bool
is_connected none = false
is_connected (some fd) = true

module _ {R : Type 0} where
  abbrev pub emit : Effect R → Meter R → Meter R
  emit e m = record m { effects = e ∷ m.effects }

  abbrev pub notify : Bool → Meter R → Meter R
  notify b m = if m.availability_callback then emit (availability b) m else m

  unfoldable pub close_port : Option ℕ → Meter R → Meter R
  close_port none m = m
  close_port (some fd) m = notify false (record (emit (closed fd) m) { serial_port = none })

  unfoldable pub disconnect : Meter R → Meter R
  disconnect m = close_port m.serial_port m

  unfoldable pub handle_error : Severity → Meter R → ErrorAction × Meter R
  handle_error fatal m = (stop, record m { handler = SignalHandler.shutdown m.handler })
  handle_error transient m = (reconnect, disconnect m)
  handle_error ModbusError.shutdown m = (stop, m)

  unfoldable pub handle_result : Result (Unit {0}) → Meter R → ErrorAction × Meter R
  handle_result (ok _) m = (none_action, m)
  handle_result (err e) m = handle_error e.severity m

  -- The settings of an open port. A failing call closes it and leaves `serialPort_` as it is.
  unfoldable pub set_up : ModbusRtuConfig → ℕ → Setup → Meter R → Attempt R
  set_up rtu fd (fails_early errno) m = returned (err (from_errno errno)) (emit (closed fd) m)
  set_up rtu fd (fails_late errno) m =
      if is_speed rtu.baud && is_data_bits rtu.data_bits
      then returned (err (from_errno errno)) (emit (closed fd) m)
      else thrown m
  set_up rtu fd succeeds m =
      if is_speed rtu.baud && is_data_bits rtu.data_bits
      then returned (ok tt) (notify true m)
      else thrown m

  unfoldable pub open_port : ModbusRtuConfig → OpenResult → Meter R → Attempt R
  open_port rtu (open_failed errno) m =
      returned (err (from_errno errno)) (record m { serial_port = none })
  open_port rtu (descriptor fd setup) m =
      set_up rtu fd setup (record (emit (opened fd) m) { serial_port = some fd })

  -- An empty optional is dereferenced.
  unfoldable pub open_configured : Option ModbusRtuConfig → OpenResult → Meter R → Attempt R
  open_configured none answer m = undefined
  open_configured (some rtu) answer m = open_port rtu answer m

  unfoldable pub connect_port : Option ℕ → Option ModbusRtuConfig → OpenResult → Meter R → Attempt R
  connect_port (some fd) rtu answer m = returned (ok tt) m
  connect_port none rtu answer m = open_configured rtu answer m

  unfoldable pub try_connect : Option ModbusRtuConfig → OpenResult → Meter R → Attempt R
  try_connect rtu answer m =
      if not (is_running m.handler)
      then returned (err (custom eintr)) m
      else connect_port m.serial_port rtu answer m
