-- ===== src/Gateway/Served.antt =====
-- A callback of the master, behind some events of the MQTT client.
use smartmeter_gateway.Prelude.{
  ℕ, Bool, true, false, List, [], ◌∷◌, ◌++◌, map, ◌≡◌, refl, ap, ◌∙◌, Bytes,
}
use smartmeter_gateway.Real.{RealOps}
use smartmeter_gateway.Config.{MeterMasterConfig}
use smartmeter_gateway.SignalHandler.{SignalHandler, is_running}
use smartmeter_gateway.Master.Json.{Object}
use smartmeter_gateway.Master.Port.{Effect, Meter}
use smartmeter_gateway.Master.Loop.{Stage}
use smartmeter_gateway.Mqtt
use smartmeter_gateway.Mqtt.{Client, holds_lock, publish}
use smartmeter_gateway.Slave.{Slave}
use smartmeter_gateway.Gateway.{Broker, Event, called, brokered, Gateway, update_slave, run}
use smartmeter_gateway.Gateway.Stages.{
  brokers, run-append, run-brokered, step-called, with_published,
}
use smartmeter_gateway.Gateway.Halves.{state, runs}

module _ (ops : RealOps) (cfg : MeterMasterConfig ops.Real) (project_version commit_hash : Bytes)
    (dump : Object ops.Real → Bytes) (topic : Bytes) (hash : Bytes → ℕ) (queue_size : ℕ) where
  open ops use {Real}

  -- The state, the runs and the broker's share of this program.
  abbrev run_all : Gateway Real → List (Event Real) → Gateway Real
  run_all g es = runs ops cfg project_version commit_hash dump topic hash queue_size g es

  abbrev serve : Mqtt.System → List Broker → Mqtt.System
  serve q bs = brokers ops cfg project_version commit_hash dump topic hash queue_size q bs

  abbrev publish_for : Effect Real → Mqtt.System → Mqtt.System
  publish_for e q =
      with_published ops cfg project_version commit_hash dump topic hash queue_size e q

  -- A callback that finds the lock free and does not touch the shutdown flag.
  calls_back :
      (stage : Stage) (m : Meter Real) (e : Effect Real) (q : Mqtt.System) (s : Slave)
      (allocated : Bool)
      → holds_lock q.worker ≡ false
      → (update_slave ops allocated e m.handler s).handler ≡ m.handler
      → run_all (state stage m (e ∷ []) q s) (called allocated ∷ [])
        ≡ state stage m [] (publish_for e q) (update_slave ops allocated e m.handler s)
  unfolding run
  calls_back stage m e q s allocated free same =
      step-called ops cfg project_version commit_hash dump topic hash queue_size
        (state stage m (e ∷ []) q s) allocated e s (update_slave ops allocated e m.handler s) refl
        free refl refl
      ∙ ap
          (λ (h : SignalHandler).
            state stage (record m { handler = h }) [] (publish_for e q)
              (update_slave ops allocated e m.handler s))
          same

  -- The MQTT client's events before a callback, then the callback.
  pub serves_and_calls :
      (stage : Stage) (m : Meter Real) (e : Effect Real) (q : Mqtt.System) (s : Slave)
      (allocated : Bool) (bs : List Broker)
      → is_running m.handler ≡ true
      → holds_lock (serve q bs).worker ≡ false
      → (update_slave ops allocated e m.handler s).handler ≡ m.handler
      → run_all (state stage m (e ∷ []) q s) (map brokered bs ++ called allocated ∷ [])
        ≡ state stage m [] (publish_for e (serve q bs)) (update_slave ops allocated e m.handler s)
  serves_and_calls stage m e q s allocated bs alive free same =
      run-append ops cfg project_version commit_hash dump topic hash queue_size
        (state stage m (e ∷ []) q s) (map brokered bs) (called allocated ∷ [])
      ∙ ap (λ (g : Gateway Real). run_all g (called allocated ∷ []))
          (run-brokered ops cfg project_version commit_hash dump topic hash queue_size
            (state stage m (e ∷ []) q s) bs alive)
      ∙ calls_back stage m e (serve q bs) s allocated free same
