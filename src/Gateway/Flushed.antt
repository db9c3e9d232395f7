-- ===== src/Gateway/Flushed.antt =====
-- Inside the whole program, the publisher of src/mqtt_client.cpp empties its queues.
use smartmeter_gateway.Prelude.{
  ℕ, zero, suc, true, List, [], ◌∷◌, map, ◌≡◌, refl, ap, sym, ◌∙◌, Option, Bytes,
}
use smartmeter_gateway.Real.{RealOps}
use smartmeter_gateway.Config.{MeterMasterConfig}
use smartmeter_gateway.SignalHandler.{is_running, init}
use smartmeter_gateway.Master.Json.{Object}
use smartmeter_gateway.Mqtt
use smartmeter_gateway.Mqtt.Flush.{AllEmpty, accepted_turns}
use smartmeter_gateway.Mqtt.Drained.{run-AllEmpty}
use smartmeter_gateway.Slave.{Slave}
use smartmeter_gateway.Gateway.{
  Broker, worked, Event, brokered, Gateway, handler_of, mqtt_event, step, run, started,
}
use smartmeter_gateway.Gateway.Parts.{client_of, run-AreRuns}
use smartmeter_gateway.Gateway.Ending.{brokered-master, brokered-client_of}

-- The worker of the MQTT client is scheduled so often, and mosquitto accepts what it is given.
abbrev pub accepting : ℕ → List Broker
accepting zero = []
accepting (suc n) = worked true ∷ accepting n

mqtt_event-accepting : (n : ℕ) → map mqtt_event (accepting n) ≡ accepted_turns n
mqtt_event-accepting zero = refl
mqtt_event-accepting (suc n) =
    ap (λ (es : List Mqtt.Event). Mqtt.worked true ∷ es) (mqtt_event-accepting n)

-- No message waits, and the other parts are as they were.
pub record IsFlushed {R : Type 0} (g g' : Gateway R) : Type 0 where
  pub queues : AllEmpty g'.mqtt.client
  pub master : g'.master ≡ g.master
  pub pending : g'.pending ≡ g.pending
  pub slave : g'.slave ≡ g.slave

module _ (ops : RealOps) (cfg : MeterMasterConfig ops.Real) (project_version commit_hash : Bytes)
    (dump : Object ops.Real → Bytes) (topic : Bytes) (hash : Bytes → ℕ) (queue_size : ℕ) where
  open ops use {Real}

  abbrev run_all : Gateway Real → List (Event Real) → Gateway Real
  run_all g es = run ops cfg project_version commit_hash dump topic hash queue_size g es

  abbrev step_all : Gateway Real → Event Real → Gateway Real
  step_all g e = step ops cfg project_version commit_hash dump topic hash queue_size g e

  brokered-pending :
      (g : Gateway Real) (bs : List Broker) → (run_all g (map brokered bs)).pending ≡ g.pending
  unfolding run step
  brokered-pending g [] = refl
  brokered-pending g (b ∷ bs) = brokered-pending (step_all g (brokered b)) bs

  brokered-slave :
      (g : Gateway Real) (bs : List Broker) → (run_all g (map brokered bs)).slave ≡ g.slave
  unfolding run step
  brokered-slave g [] = refl
  brokered-slave g (b ∷ bs) = brokered-slave (step_all g (brokered b)) bs

  mqtt_drains :
      (first : Option Slave) (es : List (Event Real))
      → is_running (handler_of (run_all (started first) es)) ≡ true
      → (run_all (started first) es).mqtt.client.connected ≡ true
      → (n : ℕ) × AllEmpty
          (Mqtt.run hash queue_size
            (client_of (run_all (started first) es))
            (accepted_turns n)).client
  unfolding is_running init
  mqtt_drains first es up link =
      let (before, same) =
        (run-AreRuns ops cfg project_version commit_hash dump topic hash queue_size (started first)
          es).1 in
      rw same (
        run-AllEmpty hash queue_size before (ap (λ (x : Mqtt.System). x.running) (sym same) ∙ up)
          (ap (λ (x : Mqtt.System). x.client.connected) (sym same) ∙ link))

  -- In every state that the started program reaches in which it runs and the broker is connected,
  -- if mosquitto then accepts every message it is given, some number of stretches of the MQTT
  -- worker in a row leave the queue of every topic empty, and the master, the pending calls of the
  -- callbacks and the slave as they were.
  pub run-IsFlushed :
      (first : Option Slave) (es : List (Event Real))
      → is_running (handler_of (run_all (started first) es)) ≡ true
      → (run_all (started first) es).mqtt.client.connected ≡ true
      → (n : ℕ) × IsFlushed
          (run_all (started first) es)
          (run_all (run_all (started first) es) (map brokered (accepting n)))
  run-IsFlushed first es up link =
      let g = run_all (started first) es in
      let (n, empty) = mqtt_drains first es up link in
      (
        n,
        record {
          queues = λ j.
              ap (λ (s : Mqtt.System). Mqtt.queue j s.client)
                (brokered-client_of ops cfg project_version commit_hash dump topic hash queue_size g
                    (accepting n)
                  ∙ ap (Mqtt.run hash queue_size (client_of g)) (mqtt_event-accepting n))
              ∙ empty j;
          master =
              brokered-master ops cfg project_version commit_hash dump topic hash queue_size g
                (accepting n);
          pending = brokered-pending g (accepting n);
          slave = brokered-slave g (accepting n);
        },
      )
