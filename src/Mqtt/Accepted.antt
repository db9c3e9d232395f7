-- ===== src/Mqtt/Accepted.antt =====
-- What the publisher of src/mqtt_client.cpp has queued reaches mosquitto.
use mathlib.Core.List.{append-nil}
use smartmeter_gateway.Prelude.{
  ℕ, zero, suc, true, List, [], ◌∷◌, ◌++◌, ◌≡◌, refl, sym, ◌∙◌, ap, Bytes,
}
use smartmeter_gateway.SortedMap.{get_or}
use smartmeter_gateway.Mqtt.{System, Event, worked, queue, step, run, start}
use smartmeter_gateway.Mqtt.Delivery.{
  InFlight, HasRooms, all_queued, all_handed, run-queue, step-InFlight,
}
use smartmeter_gateway.Mqtt.Flush.{accepted_turns}
use smartmeter_gateway.Mqtt.Drained.{run-AllEmpty}

module _ (hash : Bytes → ℕ) (queue_size : ℕ) where
  run-InFlight :
      (s : System) (es : List Event)
      → InFlight s.worker s.client
      → HasRooms hash queue_size s es
      → InFlight (run hash queue_size s es).worker (run hash queue_size s es).client
  unfolding run
  run-InFlight s [] f room = f
  run-InFlight s (e ∷ es) f room =
      run-InFlight (step hash queue_size s e) es (step-InFlight hash queue_size s e f room.0) room.1

  accepted_turns-HasRooms : (s : System) (n : ℕ) → HasRooms hash queue_size s (accepted_turns n)
  accepted_turns-HasRooms s zero = tt
  accepted_turns-HasRooms s (suc n) =
      (tt, accepted_turns-HasRooms (step hash queue_size s (worked true)) n)

  all_queued-accepted_turns :
      (j : Bytes) (s : System) (n : ℕ) → all_queued hash queue_size j s (accepted_turns n) ≡ []
  all_queued-accepted_turns j s zero = refl
  all_queued-accepted_turns j s (suc n) =
      all_queued-accepted_turns j (step hash queue_size s (worked true)) n

  -- What waits at the start of some turns that leave the queue empty is accepted in them.
  turns-queue :
      (s : System) (n : ℕ) (j : Bytes)
      → InFlight s.worker s.client
      → queue j (run hash queue_size s (accepted_turns n)).client ≡ []
      → queue j s.client ≡ all_handed hash queue_size j s (accepted_turns n)
  turns-queue s n j f e =
      let moved =
        run-queue hash queue_size s (accepted_turns n) j f (accepted_turns-HasRooms s n) in
      sym (append-nil (queue j s.client))
      ∙ ap (λ (x : List Bytes). queue j s.client ++ x) (sym (all_queued-accepted_turns j s n))
      ∙ moved
      ∙ ap (λ (x : List Bytes). all_handed hash queue_size j s (accepted_turns n) ++ x) e
      ∙ append-nil _

  -- In every run of the started MQTT client in which each new message finds room in its queue, and
  -- at whose end the client runs and the broker is connected, if mosquitto then accepts every
  -- message it is given and nothing else happens, some number of turns of the worker completes the
  -- delivery: on every topic, mosquitto has accepted each message that was ever queued once, in
  -- the order of the queueing, and no other.
  pub run-accepted :
      (before : List Event)
      → HasRooms hash queue_size start before
      → (run hash queue_size start before).running ≡ true
      → (run hash queue_size start before).client.connected ≡ true
      → (n : ℕ) × ((j : Bytes)
          → all_handed hash queue_size j start before
              ++ all_handed hash queue_size j (run hash queue_size start before) (accepted_turns n)
            ≡ all_queued hash queue_size j start before)
  unfolding get_or
  run-accepted before room r h =
      let drained = run-AllEmpty hash queue_size before r h in
      (
        drained.0,
        λ j.
            ap (λ (x : List Bytes). all_handed hash queue_size j start before ++ x)
              (sym (
                turns-queue (run hash queue_size start before) drained.0 j
                  (run-InFlight start before tt room) (drained.1 j)))
            ∙ sym (run-queue hash queue_size start before j tt room),
      )
