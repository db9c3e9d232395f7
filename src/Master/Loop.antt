-- ===== src/Master/Loop.antt =====
-- src/meter_master.cpp: the worker thread `runLoop`, in steps between which signals and other
-- threads may act. The JSON texts are left out.
pub mod Kept
pub mod Reports
pub mod Shutdown
pub mod Pass
pub mod Flag
pub mod Tests
use smartmeter_gateway.Prelude.{
  ℕ, Bool, true, false, not, ◌&&◌, ◌||◌, List, [], ◌∷◌, ◌++◌, Option, none, some, if◌then◌else◌,
  Bytes,
}
use smartmeter_gateway.Prelude.Int.{ℤ, pos, eqb_ℤ}
use smartmeter_gateway.ModbusError.{
  Errno, eintr, eproto, Result, ok, err, custom, from_errno, Severity, fatal, transient,
  ModbusError, ErrorAction, none_action, reconnect, stop,
}
use smartmeter_gateway.ModbusError
use smartmeter_gateway.SignalHandler.{SignalHandler, is_running}
use smartmeter_gateway.SignalHandler
use smartmeter_gateway.Real.{RealOps}
use smartmeter_gateway.Config.{MeterMasterConfig, ModbusRtuConfig}
use smartmeter_gateway.MeterTypes.{Values, Device}
use smartmeter_gateway.Master.Telegram.{
  Reader, Poll, Outcome, finished, blocked, read_telegram, read_on,
}
use smartmeter_gateway.Master.Readings.{values_of}
use smartmeter_gateway.Master.Identity.{device_of}
use smartmeter_gateway.Master.Port.{
  Effect, opened, closed, availability, device_sent, values_sent, Meter, Setup, fails_early,
  fails_late, succeeds, OpenResult, open_failed, descriptor, is_speed, is_data_bits, Attempt,
  returned, thrown, undefined, emit, notify, close_port, disconnect, handle_error, handle_result,
  set_up, open_port, open_configured, connect_port, try_connect, is_connected,
}

-- Where the worker thread is in `runLoop`; `in_read` is a `::read` that has not returned.
pub data Stage : Type 0 where
  loop_head connecting reading parsing_device sending_device parsing_values sending_values : Stage
  in_read : Reader → Stage
  ended terminated broken : Stage

-- What the system answers in one stretch of the thread; the rounds of a read say for themselves
-- whether the program still runs then. `dump` of the device's JSON throws, rather than returns,
-- if one of its texts is not UTF-8.
pub record Answer (R : Type 0) : Type 0 where
  pub open_result : OpenResult
  pub polls : List Poll
  pub now : ℕ
  pub indeterminate : R
  pub json_dumped : Bool

pub data Event (R : Type 0) : Type 0 where
  worked : Answer R → Event R
  signalled : ℕ → Event R
  shut_down set_device_callback set_update_callback set_availability_callback : Event R

pub record System (R : Type 0) : Type 0 where
  pub stage : Stage
  pub meter : Meter R

-- The constructor starts the thread.
abbrev pub start : {R : Type 0} → System R
start = record {
  stage = loop_head;
  meter = record {
    serial_port = none;
    telegram = [];
    device = none;
    values = none;
    device_callback = false;
    update_callback = false;
    availability_callback = false;
    handler = SignalHandler.init;
    effects = [];
  };
}

module _ {R : Type 0} where
  -- What an `ErrorAction` does to the loop.
  unfoldable pub go_on : Stage → ErrorAction × Meter R → System R
  go_on next (none_action, m) = record { stage = next; meter = m }
  go_on next (reconnect, m) = record { stage = loop_head; meter = m }
  go_on next (stop, m) = record { stage = ended; meter = m }

  -- No exception is caught in `runLoop`.
  unfoldable pub after_attempt : Stage → Attempt R → Meter R → System R
  after_attempt next (returned r m') m = go_on next (handle_result r m')
  after_attempt next (thrown m') m = record { stage = terminated; meter = m' }
  after_attempt next undefined m = record { stage = broken; meter = m }

  -- A telegram that was read is stored; a read that blocks keeps the thread.
  unfoldable pub after_read : Outcome Bytes → Meter R → System R
  after_read (blocked r) m = record { stage = in_read r; meter = m }
  after_read (finished (ok t)) m =
      go_on parsing_device (handle_result (ok tt) (record m { telegram = t }))
  after_read (finished (err e)) m = go_on parsing_device (handle_result (err e) m)

  -- A callback is called if it is set and the program still runs.
  unfoldable pub call_back : Bool → Effect R → Meter R → Meter R
  call_back is_set e m = if is_running m.handler && is_set then emit e m else m

module _ (ops : RealOps) (cfg : MeterMasterConfig ops.Real)
    (project_version commit_hash : Bytes) where
  -- The text of the JSON is made for the log, before the data are stored.
  unfoldable pub store_device : Bool → Option Device → Meter ops.Real → Attempt ops.Real
  store_device dumped none m = returned (err (custom eproto)) m
  store_device dumped (some d) m =
      if dumped then returned (ok tt) (record m { device = some d }) else thrown m

  -- Without a telegram there is nothing to do.
  unfoldable pub parse_device : Bool → Bytes → Meter ops.Real → Attempt ops.Real
  parse_device dumped [] m = returned (ok tt) m
  parse_device dumped (c ∷ s) m =
      store_device dumped (device_of project_version commit_hash (c ∷ s)) m

  unfoldable pub update_device_and_json : Bool → Meter ops.Real → Attempt ops.Real
  update_device_and_json dumped m =
      if not (is_running m.handler)
      then returned (err (custom eintr)) m
      else parse_device dumped m.telegram m

  unfoldable pub store_values :
      Option (Values ops.Real) → Meter ops.Real → Result (Unit {0}) × Meter ops.Real
  store_values none m = (err (custom eproto), m)
  store_values (some v) m = (ok tt, record m { values = some v })

  unfoldable pub parse_values :
      ops.Real → ℕ → Bytes → Meter ops.Real → Result (Unit {0}) × Meter ops.Real
  parse_values indeterminate now [] m = (ok tt, m)
  parse_values indeterminate now (c ∷ s) m =
      store_values (values_of ops cfg.grid indeterminate now (c ∷ s)) m

  unfoldable pub update_values_and_json :
      ops.Real → ℕ → Meter ops.Real → Result (Unit {0}) × Meter ops.Real
  update_values_and_json indeterminate now m =
      if not (is_running m.handler)
      then (err (custom eintr), m)
      else parse_values indeterminate now m.telegram m

  unfoldable pub work_at : Stage → Answer ops.Real → Meter ops.Real → System ops.Real
  work_at loop_head a m =
      if is_running m.handler
      then record { stage = connecting; meter = m }
      else record { stage = ended; meter = m }
  work_at connecting a m = after_attempt reading (try_connect cfg.rtu a.open_result m) m
  work_at reading a m =
      after_read (read_telegram (is_running m.handler) (is_connected m.serial_port) a.polls) m
  work_at (in_read r) a m = after_read (read_on (is_running m.handler) r a.polls) m
  work_at parsing_device a m =
      after_attempt sending_device (update_device_and_json a.json_dumped m) m
  work_at sending_device a m = record {
    stage = parsing_values;
    meter = call_back m.device_callback (device_sent m.device) m;
  }
  work_at parsing_values a m =
      let (r, m') = update_values_and_json a.indeterminate a.now m in
      go_on sending_values (handle_result r m')
  work_at sending_values a m = record {
    stage = loop_head;
    meter = call_back m.update_callback (values_sent m.values) m;
  }
  work_at s a m = record { stage = s; meter = m }

  unfoldable pub step : System ops.Real → Event ops.Real → System ops.Real
  step s (worked a) = work_at s.stage a s.meter
  step s (signalled sig) = record s {
    meter = record s.meter { handler = SignalHandler.on_signal sig s.meter.handler };
  }
  step s shut_down = record s {
    meter = record s.meter { handler = SignalHandler.shutdown s.meter.handler };
  }
  step s set_device_callback = record s { meter = record s.meter { device_callback = true } }
  step s set_update_callback = record s { meter = record s.meter { update_callback = true } }
  step s set_availability_callback = record s {
    meter = record s.meter { availability_callback = true };
  }

  unfoldable pub run : System ops.Real → List (Event ops.Real) → System ops.Real
  run s [] = s
  run s (e ∷ es) = run (step s e) es
