-- ===== src/Master/Loop/Tests.antt =====
-- The worker thread on concrete data, and the theorems at inputs that meet their hypotheses.
use smartmeter_gateway.Prelude.{
  ℕ, true, false, List, [], ◌∷◌, ◌≡◌, refl, some, none, Bytes, All, codes,
}
use smartmeter_gateway.Prelude.Int.{pos}
use smartmeter_gateway.Real.Whole.{whole}
use smartmeter_gateway.Config.{MeterMasterConfig, ModbusRtuConfig, no_parity}
use smartmeter_gateway.SignalHandler
use smartmeter_gateway.ModbusError.{enotty, err, from_errno}
use smartmeter_gateway.Master.Telegram.{chunk, initial}
use smartmeter_gateway.Config.Serial.{baud_to_speed, data_bits_to_flag}
use smartmeter_gateway.Master.Port.{
  Meter, opened, closed, descriptor, fails_early, succeeds, disconnect, handle_result, try_connect,
  connect_port, open_configured, open_port, set_up, emit, is_speed, is_data_bits,
}
use smartmeter_gateway.Master.Loop.{
  start, Answer, Event, worked, set_device_callback, set_update_callback, run, in_read, ended,
}
use smartmeter_gateway.Master.Loop.Kept.{IsReported}
use smartmeter_gateway.Master.Loop.Reports.{run-IsReported}
use smartmeter_gateway.Master.Loop.Shutdown.{run-shutdown}
use smartmeter_gateway.Master.Port.Descriptor.{closed_twice, disconnect-try_connect}

abbrev rtu : ModbusRtuConfig
rtu = record {
  device = codes "/dev/ttyUSB0";
  baud = pos 9600;
  data_bits = pos 8;
  stop_bits = pos 1;
  parity = no_parity;
}

abbrev pub cfg : MeterMasterConfig ℕ
cfg = record {
  tcp = none;
  rtu = some rtu;
  slave_id = pos 1;
  grid = record { power_factor = 1; frequency = 50; is_leading = false };
}

abbrev pub version : Bytes
version = codes "1.0.0"

abbrev pub commit : Bytes
commit = codes "abc"

-- The port opens as descriptor 3, and one read gives a whole telegram.
abbrev pub answer : Answer ℕ
answer = record {
  open_result = descriptor 3 succeeds;
  polls =
      record { running = true; result = chunk (codes "/EBZ_107\r\n1-0:1.8.0*255(1*kWh)\r\n!\r\n") }
      ∷ [];
  now = 1;
  indeterminate = 7;
  json_dumped = true;
}

abbrev pub work : Event ℕ
work = worked answer

abbrev events : List (Event ℕ)
events =
    set_device_callback ∷ set_update_callback ∷ work ∷ work ∷ work ∷ work ∷ work ∷ work ∷ work ∷ []

run-IsReported_example :
    All
      (IsReported whole cfg version commit)
      (run whole cfg version commit start events).meter.effects
run-IsReported_example = run-IsReported whole cfg version commit events

abbrev idle : Meter ℕ
idle = start.meter

abbrev after_failure : Meter ℕ
after_failure = emit (closed 3) (record (emit (opened 3) idle) { serial_port = some 3 })

closed_twice_example :
    (disconnect (handle_result (err (from_errno enotty)) after_failure).1).effects
    ≡ closed 3 ∷ closed 3 ∷ opened 3 ∷ []
unfolding try_connect connect_port open_configured open_port set_up SignalHandler.is_running
    SignalHandler.init
closed_twice_example =
    closed_twice rtu 3 (fails_early enotty) idle after_failure (from_errno enotty) refl refl refl

abbrev after_success : Meter ℕ
after_success = record (emit (opened 3) idle) { serial_port = some 3 }

disconnect-try_connect_example :
    ((disconnect after_success).effects ≡ closed 3 ∷ opened 3 ∷ [])
    × ((disconnect after_success).serial_port ≡ none)
unfolding try_connect connect_port open_configured open_port set_up is_speed is_data_bits
    baud_to_speed data_bits_to_flag SignalHandler.is_running SignalHandler.init
disconnect-try_connect_example =
    disconnect-try_connect rtu 3 succeeds idle after_success refl refl refl

-- The thread stands in a read while the program is shut down, and the read returns.
abbrev down : Meter ℕ
down = record start.meter { handler = SignalHandler.shutdown SignalHandler.init }

run-shutdown_example :
    (run whole cfg version commit
      (record { stage = in_read initial; meter = down })
      (worked answer ∷ worked answer ∷ [])).stage
    ≡ ended
unfolding SignalHandler.is_running SignalHandler.shutdown SignalHandler.init
run-shutdown_example =
    run-shutdown whole cfg version commit (in_read initial) down answer answer refl (λ e. cc)
