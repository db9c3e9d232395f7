-- ===== src/Gateway/Tests.antt =====
-- A run of the whole program on concrete data, and the theorems at inputs that meet their
-- hypotheses.
use smartmeter_gateway.Prelude.{
  ℕ, List, [], ◌∷◌, ◌≡◌, refl, true, none, some, Bytes, bytes_eq, bytes_lt, codes, length,
}
use smartmeter_gateway.Real.Whole.{whole}
use smartmeter_gateway.MeterTypes.{Device}
use smartmeter_gateway.Master.Json.{Object, to_map, device_json}
use smartmeter_gateway.Master.Loop.{set_device_callback, set_update_callback}
use smartmeter_gateway.Master.Loop.Tests.{cfg, version, commit, work}
use smartmeter_gateway.Slave.{fresh}
use smartmeter_gateway.SignalHandler.{is_running, init}
use smartmeter_gateway.SortedMap.{insert, get_or, lookup, first_key}
use smartmeter_gateway.Master.Port.{availability}
use smartmeter_gateway.Mqtt.{
  sending, publish, make_room, push, touch_count, work_at, scan_topic, on_connect,
  has_queued_messages,
}
use smartmeter_gateway.Mqtt
use smartmeter_gateway.Slave.Tests.{running_slave}
use smartmeter_gateway.Gateway.{
  Event, Gateway, connected_with, worked, metered, called, brokered, run, started, step, call,
  pass_on, publish_message, message,
}
use smartmeter_gateway.Gateway.Faithful.{IsFaithful, run-IsFaithful}
use smartmeter_gateway.Gateway.Consistent.{HasConsistent, run-HasConsistent}

-- A text for each tree, and a hash.
abbrev pub dump : Object ℕ → Bytes
dump o = length o ∷ []

abbrev pub by_length : Bytes → ℕ
by_length xs = length xs

-- The first telegram: device data and values are reported and passed on, the broker connects, and
-- the worker of the MQTT client hands over the first message.
abbrev history : List (Event ℕ)
history =
    metered set_device_callback
    ∷ metered set_update_callback
    ∷ metered work
    ∷ metered work
    ∷ metered work
    ∷ metered work
    ∷ metered work
    ∷ called true
    ∷ metered work
    ∷ metered work
    ∷ called true
    ∷ brokered (connected_with 0)
    ∷ brokered (worked true)
    ∷ brokered (worked true)
    ∷ brokered (worked true)
    ∷ brokered (worked true)
    ∷ []

abbrev last : Gateway ℕ
last =
    run whole cfg version commit dump (codes "m") by_length 10 (started (some running_slave))
      history

run-IsFaithful_example :
    IsFaithful whole cfg version commit dump (codes "m") by_length 10 (some running_slave) last
run-IsFaithful_example =
    run-IsFaithful whole cfg version commit dump (codes "m") by_length 10 (some running_slave)
      history

run-HasConsistent_example :
    HasConsistent whole cfg version commit dump
      (codes "m")
      by_length
      10
      running_slave
      fresh
      last.slave
run-HasConsistent_example =
    run-HasConsistent whole cfg version commit dump (codes "m") by_length 10 running_slave fresh
      history refl

-- A callback of the master that waits to be passed on.
abbrev waiting_call : Gateway ℕ
waiting_call = record (started none) { pending = availability true ∷ [] }

handed_over :
    (run whole cfg version commit dump (codes "m") by_length 10 waiting_call (
      called true
      ∷ brokered (connected_with 0)
      ∷ brokered (worked true)
      ∷ brokered (worked true)
      ∷ brokered (worked true)
      ∷ brokered (worked true)
      ∷ [])).mqtt.worker
    ≡ sending (codes "m/availability") (codes "connected")
unfolding run step call pass_on publish_message message publish make_room push touch_count insert
    get_or lookup bytes_eq bytes_lt Mqtt.step work_at scan_topic on_connect has_queued_messages
    first_key is_running init
handed_over = refl

abbrev keys : Object ℕ → List Bytes
keys [] = []
keys ((key, v) ∷ o) = key ∷ keys o

-- The device data is published in the order of its keys, not in that of its assignments.
device_keys :
    (d : Device)
    → keys (to_map (device_json whole d))
      ≡ codes "firmware_version"
        ∷ codes "manufacturer"
        ∷ codes "model"
        ∷ codes "options"
        ∷ codes "phases"
        ∷ codes "serial_number"
        ∷ codes "status"
        ∷ []
unfolding to_map device_json insert bytes_eq bytes_lt
device_keys d = refl
