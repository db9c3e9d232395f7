-- ===== src/Mqtt.antt =====
-- src/mqtt_client.cpp: the publisher's queues and its worker thread. A payload's hash and the
-- queue size are parameters. Threads interleave at the points where the code gives up `mutex_` or
-- reads an atomic flag; the log is left out.
pub mod Publish
pub mod Bounds
pub mod Delivery
pub mod Loss
pub mod Lifetime
pub mod Behind
pub mod Pending
pub mod Stops
pub mod Channel
pub mod Window
pub mod Refinement
pub mod Outage
pub mod Sound
pub mod Flush
pub mod Drained
pub mod Accepted
mod Tests
use smartmeter_gateway.Prelude.{
  ℕ, ◌+◌, Bool, true, false, not, ◌&&◌, ◌||◌, List, [], ◌∷◌, ◌++◌, Option, none, some, ◌==◌, ltb,
  if◌then◌else◌, Bytes, length,
}
use smartmeter_gateway.SortedMap.{lookup, insert, get_or, first_key, next_key}

-- The fields that `mutex_` protects, and the flag `connected_`. A queue's front is its head.
pub record Client : Type 0 where
  pub connected : Bool
  pub topic_queues : List (Bytes × List Bytes)
  pub last_payload_hashes : List (Bytes × ℕ)
  pub dropped_count : List (Bytes × ℕ)

abbrev pub empty : Client
empty = record {
  connected = false;
  topic_queues = [];
  last_payload_hashes = [];
  dropped_count = [];
}

abbrev pub queue : Bytes → Client → List Bytes
queue topic c = get_or topic c.topic_queues []

abbrev pub dropped : Bytes → Client → ℕ
dropped topic c = get_or topic c.dropped_count 0

-- `std::queue::pop`; the code never calls it on an empty queue, since `queue_size` is not 0.
abbrev pub pop : List Bytes → List Bytes
pop [] = []
pop (x ∷ xs) = xs

unfoldable pub has_queued_messages : List (Bytes × List Bytes) → Bool
has_queued_messages [] = false
has_queued_messages ((topic, []) ∷ m) = has_queued_messages m
has_queued_messages ((topic, x ∷ xs) ∷ m) = true

-- `onConnect` and `onDisconnect`.
unfoldable pub on_connect : ℕ → Client → Client
on_connect rc c = record c { connected = rc == 0 }

unfoldable pub on_disconnect : Client → Client
on_disconnect c = record c { connected = false }

-- Behind a successful `mosquitto_publish`.
unfoldable pub sent : Bytes → Client → Client
sent topic c = record c {
  topic_queues = insert topic (pop (queue topic c)) c.topic_queues;
  dropped_count = insert topic 0 c.dropped_count;
}

module _ (hash : Bytes → ℕ) (queue_size : ℕ) where
  abbrev pub is_duplicate : Bytes → Bytes → Client → Bool
  is_duplicate payload topic c = elim (lookup topic c.last_payload_hashes) [
    | none ↦ false
    | some h ↦ h == hash payload
  ]

  abbrev pub is_full : Bytes → Client → Bool
  is_full topic c = not (ltb (length (queue topic c)) queue_size)

  -- Drops the oldest message of a full queue and counts it.
  unfoldable pub make_room : Bytes → Client → Client
  make_room topic c =
      if is_full topic c
      then record c {
        topic_queues = insert topic (pop (queue topic c)) c.topic_queues;
        dropped_count = insert topic (dropped topic c + 1) c.dropped_count;
      }
      else c

  unfoldable pub push : Bytes → Bytes → Client → Client
  push payload topic c = record c {
    topic_queues = insert topic (queue topic c ++ payload ∷ []) c.topic_queues;
  }

  -- The log message of a disconnected client reads `droppedCount_[topic]`, which makes the entry.
  unfoldable pub touch_count : Bytes → Client → Client
  touch_count topic c =
      if c.connected
      then c
      else record c { dropped_count = insert topic (dropped topic c) c.dropped_count }

  unfoldable pub publish : Bytes → Bytes → Client → Client
  publish payload topic c =
      if is_duplicate payload topic c
      then c
      else touch_count topic (
          push payload topic (
            make_room topic (record c {
              last_payload_hashes = insert topic (hash payload) c.last_payload_hashes;
            })))

-- Where the worker thread is in `run`. It holds the lock in `woken` and `scan`.
pub data Worker : Type 0 where
  loop_head waiting woken : Worker
  scan : Option Bytes → Worker
  sending : Bytes → Bytes → Worker
  stopped : Worker

pub record System : Type 0 where
  pub client : Client
  pub running : Bool
  pub worker : Worker

abbrev pub start : System
start = record { client = empty; running = true; worker = loop_head }

-- The test of the inner `while`, at a topic whose queue is given.
unfoldable pub scan_topic : Bytes → List Bytes → System → System
scan_topic topic [] s = record s { worker = scan (next_key topic s.client.topic_queues) }
scan_topic topic (payload ∷ _) s =
    if s.client.connected
    then record s { worker = sending topic payload }
    else record s { worker = scan (next_key topic s.client.topic_queues) }

-- One stretch of `run`; the flag says whether `mosquitto_publish` succeeds, where it is called.
unfoldable pub work_at : Worker → Bool → System → System
unfolding scan_topic
work_at loop_head rc s = record s { worker = if s.running then waiting else stopped }
work_at waiting rc s =
    if (s.client.connected && has_queued_messages s.client.topic_queues) || not s.running
    then record s { worker = woken }
    else s
work_at woken rc s =
    if not s.running && not s.client.connected
    then record s { worker = stopped }
    else record s { worker = scan (first_key s.client.topic_queues) }
work_at (scan none) rc s = record s { worker = loop_head }
work_at (scan (some topic)) rc s = scan_topic topic (queue topic s.client) s
work_at (sending topic payload) rc s =
    if rc
    then record s { client = sent topic s.client; worker = scan (some topic) }
    else record s { worker = scan (next_key topic s.client.topic_queues) }
work_at stopped rc s = s

abbrev pub holds_lock : Worker → Bool
holds_lock woken = true
holds_lock (scan _) = true
holds_lock _ = false

pub data Event : Type 0 where
  published : Bytes → Bytes → Event
  connected_with : ℕ → Event
  disconnected shut_down : Event
  worked : Bool → Event

module _ (hash : Bytes → ℕ) (queue_size : ℕ) where
  -- A thread that is scheduled while it waits for the lock does nothing.
  unfoldable pub step : System → Event → System
  unfolding work_at
  step s (published payload topic) =
      if holds_lock s.worker
      then s
      else record s { client = publish hash queue_size payload topic s.client }
  step s (connected_with rc) = record s { client = on_connect rc s.client }
  step s disconnected = record s { client = on_disconnect s.client }
  step s shut_down = record s { running = false }
  step s (worked rc) = work_at s.worker rc s

  unfoldable pub run : System → List Event → System
  run s [] = s
  run s (e ∷ es) = run (step s e) es
