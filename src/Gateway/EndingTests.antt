-- ===== src/Gateway/EndingTests.antt =====
-- A run of the whole program until its threads end, and the theorems at that input.
use smartmeter_gateway.Prelude.{
  ℕ, true, List, [], ◌∷◌, map, refl, arith, none, bytes_eq, bytes_lt, codes,
}
use smartmeter_gateway.Real.Whole.{whole}
use smartmeter_gateway.SignalHandler
use smartmeter_gateway.SortedMap.{insert, get_or, lookup}
use smartmeter_gateway.Config.Serial.{baud_to_speed, data_bits_to_flag}
use smartmeter_gateway.Master.Port.{
  handle_result, try_connect, connect_port, open_configured, open_port, set_up, is_speed,
  is_data_bits,
}
use smartmeter_gateway.Master.Loop
use smartmeter_gateway.Master.Loop.{work_at, after_attempt, go_on}
use smartmeter_gateway.Master.Loop.Tests.{cfg, version, commit, answer, work}
use smartmeter_gateway.Mqtt
use smartmeter_gateway.Mqtt.{publish, make_room, push, touch_count, on_connect}
use smartmeter_gateway.Gateway.Tests.{dump, by_length}
use smartmeter_gateway.Gateway.{
  Broker, connected_with, worked, Event, Gateway, metered, called, brokered, run, step, call,
  pass_on, publish_message, message, started, meter_step,
}
use smartmeter_gateway.Gateway.Ending.{IsEnded, run-IsEnded}
use smartmeter_gateway.Gateway.Flushed.{IsFlushed, accepting, run-IsFlushed}

-- The master opens its port and says so, the MQTT client connects, and a signal comes.
abbrev until_signal : List (Event ℕ)
until_signal =
    metered Loop.set_availability_callback
    ∷ metered work
    ∷ metered work
    ∷ called true
    ∷ brokered (worked true)
    ∷ brokered (connected_with 0)
    ∷ metered (Loop.signalled 15)
    ∷ []

abbrev run_all : Gateway ℕ → List (Event ℕ) → Gateway ℕ
run_all g es = run whole cfg version commit dump (codes "m") by_length 10 g es

abbrev at_signal : Gateway ℕ
at_signal = run_all (started none) until_signal

-- The MQTT client still hands over its message.
abbrev last_turns : List Broker
last_turns =
    worked true
    ∷ worked true
    ∷ worked true
    ∷ worked true
    ∷ worked true
    ∷ worked true
    ∷ worked true
    ∷ worked true
    ∷ []

run-IsEnded_example :
    IsEnded whole cfg version commit dump
      (codes "m")
      by_length
      10
      at_signal
      (run_all at_signal (metered work ∷ metered work ∷ map brokered last_turns))
unfolding run step call pass_on publish_message message publish make_room push touch_count insert
    get_or lookup bytes_eq bytes_lt Mqtt.step Mqtt.work_at on_connect meter_step Loop.step work_at
    after_attempt go_on handle_result try_connect connect_port open_configured open_port set_up
    is_speed is_data_bits baud_to_speed data_bits_to_flag SignalHandler.is_running
    SignalHandler.init SignalHandler.on_signal SignalHandler.shutdown
run-IsEnded_example =
    run-IsEnded whole cfg version commit dump (codes "m") by_length 10 none until_signal answer
      answer last_turns refl tt refl (omega arith)

-- The port is open, the broker is connected, and the message that says so waits.
abbrev until_connected : List (Event ℕ)
until_connected =
    metered Loop.set_availability_callback
    ∷ metered work
    ∷ metered work
    ∷ called true
    ∷ brokered (worked true)
    ∷ brokered (connected_with 0)
    ∷ []

abbrev at_connection : Gateway ℕ
at_connection = run_all (started none) until_connected

run-IsFlushed_example :
    (n : ℕ) × IsFlushed at_connection (run_all at_connection (map brokered (accepting n)))
unfolding run step call pass_on publish_message message publish make_room push touch_count insert
    get_or lookup bytes_eq bytes_lt Mqtt.step Mqtt.work_at on_connect meter_step Loop.step work_at
    after_attempt go_on handle_result try_connect connect_port open_configured open_port set_up
    is_speed is_data_bits baud_to_speed data_bits_to_flag SignalHandler.is_running
    SignalHandler.init
run-IsFlushed_example =
    run-IsFlushed whole cfg version commit dump (codes "m") by_length 10 none until_connected refl
      refl
