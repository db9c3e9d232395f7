-- ===== src/Gateway/DeliveryTests.antt =====
-- A pass of the master on concrete data, and the theorem at an input that meets its hypotheses.
use smartmeter_gateway.Prelude.{
  ℕ, true, [], ◌∷◌, ◌≡◌, refl, inr, arith, some, Bytes, bytes_eq, codes,
}
use mathlib.Core.List.{flatten}
use smartmeter_gateway.Real.Whole.{whole}
use smartmeter_gateway.MeterTypes.{Device}
use smartmeter_gateway.SignalHandler.{is_running, init}
use smartmeter_gateway.Lines.Match.{print_code}
use smartmeter_gateway.Master.Telegram.{chunk}
use smartmeter_gateway.Master.Telegram.Frame.{IsFramed, IsFramed-of_text}
use smartmeter_gateway.Master.Readings.Print.{print_telegram, print_entries}
use smartmeter_gateway.Master.Readings.Tests.{voltage, voltage-IsEntry, no_energy, read_no_energy}
use smartmeter_gateway.Master.Identity.{device_of, complete, set_data}
use smartmeter_gateway.Master.Identity.Print.{note_all, device_of-print_telegram}
use smartmeter_gateway.Master.Port.{Meter, descriptor, succeeds}
use smartmeter_gateway.Master.Loop.{Answer, reading, start}
use smartmeter_gateway.Master.Loop.Pass.{Arrives}
use smartmeter_gateway.Master.Loop.Tests.{cfg, version, commit}
use smartmeter_gateway.Mqtt
use smartmeter_gateway.Slave.{fresh}
use smartmeter_gateway.Slave.Tests.{running_slave}
use smartmeter_gateway.Gateway.Tests.{dump, by_length}
use smartmeter_gateway.Gateway.{connected_with, worked}
use smartmeter_gateway.Gateway.Halves.{state, runs}
use smartmeter_gateway.Gateway.Delivered.{IsDelivered, pass, before_values, run-IsDelivered}

abbrev telegram : Bytes
telegram = print_telegram (codes "EBZ5DD3BZ06ETA_107") (voltage ∷ [])

telegram-IsFramed : IsFramed telegram
unfolding print_entries print_code
telegram-IsFramed =
    IsFramed-of_text (codes "/EBZ5DD3BZ06ETA_107\r\n\r\n1-0:32.7.0*255(231.5*V)\r\n") b'\r' b'\n'
      refl (ground arith) (omega arith)

arrives : Arrives telegram (telegram ∷ [])
unfolding flatten
arrives = record {
  junk = [];
  rest = [];
  no_slash = tt;
  framed = telegram-IsFramed;
  non_empty = (λ e. cc, tt);
  bytes = refl;
}

abbrev found : Device
found = record {
  manufacturer = codes "EasyMeter";
  model = codes "DD3-BZ06-ETA-ODZ1";
  options = codes "1.0.0-abc";
  serial_number = [];
  fw_version = codes "107";
  status = [];
  phases = 3;
}

device_read : device_of version commit telegram ≡ some found
unfolding note_all set_data complete print_code bytes_eq
device_read =
    device_of-print_telegram version commit (codes "EBZ5DD3BZ06ETA") (codes "107") (voltage ∷ [])
      (record { alnum = ground arith; some_char = λ e. cc })
      (record { alnum = ground arith; some_char = λ e. cc }) (voltage-IsEntry, tt)

abbrev answer : Answer ℕ
answer = record {
  open_result = descriptor 3 succeeds;
  polls = record { running = true; result = chunk telegram } ∷ [];
  now = 1;
  indeterminate = 7;
  json_dumped = true;
}

abbrev reading_meter : Meter ℕ
reading_meter = record start.meter {
  serial_port = some 3;
  device_callback = true;
  update_callback = true;
}

-- The broker connects before the second callback.
run-IsDelivered_example :
    IsDelivered whole cfg version commit dump
      (codes "m")
      by_length
      10
      no_energy
      running_slave
      (before_values whole cfg version commit dump
        (codes "m")
        by_length
        10
        Mqtt.start
        found
        []
        (connected_with 0 ∷ worked true ∷ []))
      (runs whole cfg version commit dump
        (codes "m")
        by_length
        10
        (state reading reading_meter [] Mqtt.start running_slave)
        (pass whole cfg version commit dump
          (codes "m")
          by_length
          10
          answer
          true
          []
          (connected_with 0 ∷ worked true ∷ [])))
unfolding is_running init Mqtt.step Mqtt.work_at
run-IsDelivered_example =
    run-IsDelivered whole cfg version commit dump (codes "m") by_length 10 reading_meter Mqtt.start
      running_slave fresh answer 3 telegram (telegram ∷ []) found no_energy true []
      (connected_with 0 ∷ worked true ∷ []) refl refl refl refl refl refl arrives device_read refl
      read_no_energy (inr (refl, refl, omega arith, omega arith)) refl refl
