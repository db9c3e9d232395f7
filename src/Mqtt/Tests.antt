-- ===== src/Mqtt/Tests.antt =====
-- Runs of the publisher on concrete data, and the theorems at inputs that meet their hypotheses.
use smartmeter_gateway.Prelude.{
  ℕ, ◌≤◌, true, false, List, [], ◌∷◌, ◌++◌, ◌≡◌, refl, arith, Bytes, codes, length,
}
use smartmeter_gateway.SortedMap.{lookup, insert, get_or, first_key, next_key}
use smartmeter_gateway.Prelude.{bytes_eq, bytes_lt}
use smartmeter_gateway.Mqtt.{
  System, Event, empty, start, sending, stopped, disconnected, shut_down, work_at, published,
  connected_with, worked, queue, on_disconnect, dropped, publish, run, step, on_connect, sent,
  make_room, push, touch_count, has_queued_messages,
}
use smartmeter_gateway.Mqtt.Channel.{offer, take_front, operate_all, last_of, surplus, is_latest}
use smartmeter_gateway.Mqtt.Refinement.{view, run-view}
use smartmeter_gateway.Mqtt.Outage.{run-outage}
use smartmeter_gateway.Mqtt.Delivery.{run-queue, all_queued, all_handed}
use smartmeter_gateway.Mqtt.Flush.{accepted_turns}
use smartmeter_gateway.Mqtt.Accepted.{run-accepted}
use smartmeter_gateway.Mqtt.Stops.{run-stopped}
use smartmeter_gateway.Mqtt.Loss.{overflow_in_flight}

-- A hash that tells the payloads below apart.
abbrev by_length : Bytes → ℕ
by_length xs = length xs

abbrev values : Bytes
values = codes "m/values"

abbrev device : Bytes
device = codes "m/device"

abbrev a : Bytes
a = codes "a"

abbrev bb : Bytes
bb = codes "bb"

abbrev ccc : Bytes
ccc = codes "ccc"

-- Two messages on one topic and one on another, then a connection and a flush in key order.
abbrev history : List Event
history =
    published a values
    ∷ published bb values
    ∷ published bb values
    ∷ published ccc device
    ∷ connected_with 0
    ∷ worked true
    ∷ worked true
    ∷ worked true
    ∷ worked true
    ∷ worked true
    ∷ worked true
    ∷ worked true
    ∷ worked true
    ∷ worked true
    ∷ []

history_queued : all_queued by_length 3 values start history ≡ a ∷ bb ∷ []
unfolding step publish make_room push touch_count insert get_or lookup bytes_eq bytes_lt on_connect
    has_queued_messages first_key next_key sent
history_queued = refl

history_handed : all_handed by_length 3 values start history ≡ a ∷ []
unfolding step publish make_room push touch_count insert get_or lookup bytes_eq bytes_lt on_connect
    has_queued_messages first_key next_key sent
history_handed = refl

run-queue_example :
    [] ++ all_queued by_length 3 values start history
    ≡ all_handed by_length 3 values start history
      ++ queue values (run by_length 3 start history).client
unfolding step publish make_room push touch_count insert get_or lookup bytes_eq bytes_lt on_connect
    has_queued_messages first_key next_key sent
run-queue_example = run-queue by_length 3 start history values tt (ground arith)

empty_queues : (n : ℕ) (j : Bytes) → length (queue j empty) ≤ n
unfolding get_or lookup
empty_queues n j = omega arith

-- Two messages are queued, and the worker sends the first.
abbrev in_flight : System
in_flight = record {
  client = record {
    connected = true;
    topic_queues = (values, a ∷ bb ∷ []) ∷ [];
    last_payload_hashes = (values, 2) ∷ [];
    dropped_count = [];
  };
  running = true;
  worker = sending values a;
}

-- "bb" is lost.
overflow_in_flight_example :
    (queue values (run by_length 2 in_flight (published ccc values ∷ worked true ∷ [])).client
      ≡ ccc ∷ [])
    × (dropped values (run by_length 2 in_flight (published ccc values ∷ worked true ∷ [])).client
        ≡ 0)
unfolding get_or lookup bytes_eq
overflow_in_flight_example =
    overflow_in_flight by_length 2 in_flight values a ccc (bb ∷ []) refl refl refl refl

-- A message is queued, the broker connects and the program shuts down while the worker waits.
abbrev until_shutdown : List Event
until_shutdown = published a values ∷ worked true ∷ connected_with 0 ∷ shut_down ∷ []

-- The worker sends the message, fails or not, and ends; meanwhile the broker disconnects.
abbrev afterwards : List Event
afterwards =
    worked true
    ∷ worked true
    ∷ worked true
    ∷ worked true
    ∷ disconnected
    ∷ worked true
    ∷ worked true
    ∷ worked true
    ∷ worked true
    ∷ []

run-stopped_example :
    (run by_length 3 (run by_length 3 start until_shutdown) afterwards).worker ≡ stopped
unfolding run step publish make_room push touch_count insert get_or lookup bytes_eq bytes_lt
    on_connect work_at
run-stopped_example = run-stopped by_length 3 until_shutdown afterwards refl tt (omega arith)

-- A connection comes and goes, and the send that is under way fails.
abbrev outage : List Event
outage =
    published a values
    ∷ connected_with 0
    ∷ worked true
    ∷ worked true
    ∷ worked true
    ∷ worked true
    ∷ disconnected
    ∷ published bb values
    ∷ worked false
    ∷ worked true
    ∷ published bb values
    ∷ published ccc values
    ∷ []

-- The publishers come while the worker does not hold the lock; the oldest message is dropped.
run-outage_example :
    (queue values (run by_length 2 start outage).client ≡ bb ∷ ccc ∷ [])
    × (dropped values (run by_length 2 start outage).client ≡ 1)
unfolding step publish make_room push touch_count insert get_or lookup bytes_eq bytes_lt on_connect
    on_disconnect has_queued_messages first_key next_key sent last_of surplus is_latest
run-outage_example = run-outage by_length 2 start outage values (omega arith) (empty_queues 2) refl

-- Two messages are offered, one of them twice, and the first is taken.
run-view_example :
    view values (run by_length 3 start history).client
    ≡ operate_all by_length 3 (view values empty) (offer a ∷ offer bb ∷ offer bb ∷ take_front ∷ [])
unfolding step publish make_room push touch_count insert get_or lookup bytes_eq bytes_lt on_connect
    has_queued_messages first_key next_key sent
run-view_example = run-view by_length 3 (omega arith) start history values (empty_queues 3)

-- Two topics have messages when the broker comes back during a failed send.
abbrev reconnected : List Event
reconnected =
    published a values
    ∷ published bb values
    ∷ connected_with 0
    ∷ worked true
    ∷ worked true
    ∷ worked true
    ∷ worked true
    ∷ worked true
    ∷ published ccc device
    ∷ worked false
    ∷ disconnected
    ∷ connected_with 0
    ∷ []

run-accepted_example :
    (n : ℕ) × ((j : Bytes)
      → all_handed by_length 3 j start reconnected
          ++ all_handed by_length 3 j (run by_length 3 start reconnected) (accepted_turns n)
        ≡ all_queued by_length 3 j start reconnected)
unfolding run step publish make_room push touch_count insert get_or lookup bytes_eq bytes_lt
    on_connect on_disconnect has_queued_messages first_key next_key sent work_at
run-accepted_example =
    run-accepted by_length 3 reconnected
      (refl, (refl, (tt, (tt, (tt, (tt, (tt, (tt, (refl, (tt, (tt, (tt, tt)))))))))))) refl refl
