-- ===== src/Gateway/Stages.antt =====
-- The steps of the whole program that one pass of the master takes, one by one.
use smartmeter_gateway.Prelude.{
  ℕ, suc, ◌-◌, Bool, true, false, List, [], ◌∷◌, ◌++◌, map, ◌≡◌, refl, ap, ◌∙◌, arith, some, Bytes,
  length, take, reverse,
}
use smartmeter_gateway.Real.{RealOps}
use smartmeter_gateway.Config.{MeterMasterConfig}
use smartmeter_gateway.SignalHandler.{is_running}
use smartmeter_gateway.Master.Json.{Object}
use smartmeter_gateway.Master.Port.{Effect}
use smartmeter_gateway.Master.Loop
use smartmeter_gateway.Master.Loop.{Answer, worked, work_at}
use smartmeter_gateway.Mqtt
use smartmeter_gateway.Mqtt.{holds_lock}
use smartmeter_gateway.Slave.{Slave}
use smartmeter_gateway.Gateway.{
  Broker, Event, metered, called, brokered, Gateway, added, calls, message, publish_message,
  update_slave, pass_on, call, handler_of, with_handler, mqtt_event, meter_step, step, run,
}

take_eq : {A : Type 0} (n k : ℕ) (xs : List A) → n ≡ k → take n xs ≡ take k xs
take_eq n k xs e = ap (λ (i : ℕ). take i xs) e

pub added_none : {R : Type 0} (es : List (Effect R)) → added es es ≡ []
added_none {R = R} es =
    ap (λ (xs : List (Effect R)). calls (reverse xs))
      (take_eq (length es - length es) 0 es (omega arith))

pub added_one :
    {R : Type 0} (e : Effect R) (es : List (Effect R)) → added es (e ∷ es) ≡ calls (e ∷ [])
added_one {R = R} e es =
    ap (λ (xs : List (Effect R)). calls (reverse xs))
      (take_eq (suc (length es) - length es) 1 (e ∷ es) (omega arith))

module _ (ops : RealOps) (cfg : MeterMasterConfig ops.Real) (project_version commit_hash : Bytes)
    (dump : Object ops.Real → Bytes) (topic : Bytes) (hash : Bytes → ℕ) (queue_size : ℕ) where
  open ops use {Real}

  abbrev runs : Gateway Real → List (Event Real) → Gateway Real
  runs g es = run ops cfg project_version commit_hash dump topic hash queue_size g es

  -- The MQTT client's share of a series of its events, while the program runs.
  abbrev pub brokers : Mqtt.System → List Broker → Mqtt.System
  brokers s [] = s
  brokers s (b ∷ bs) =
      brokers (Mqtt.step hash queue_size (record s { running = true }) (mqtt_event b)) bs

  abbrev with_mqtt : Bool → Gateway Real → Broker → Gateway Real
  with_mqtt r g b = record g {
    mqtt = Mqtt.step hash queue_size (record g.mqtt { running = r }) (mqtt_event b);
  }

  pub run-append :
      (g : Gateway Real) (xs ys : List (Event Real)) → runs g (xs ++ ys) ≡ runs (runs g xs) ys
  unfolding run
  run-append g [] ys = refl
  run-append g (x ∷ xs) ys =
      run-append (step ops cfg project_version commit_hash dump topic hash queue_size g x) xs ys

  pub run-brokered :
      (g : Gateway Real) (bs : List Broker)
      → is_running (handler_of g) ≡ true
      → runs g (map brokered bs) ≡ record g { mqtt = brokers g.mqtt bs }
  unfolding run step
  run-brokered g [] h = refl
  run-brokered g (b ∷ bs) h =
      ap (λ (r : Bool). runs (with_mqtt r g b) (map brokered bs)) h
      ∙ run-brokered (with_mqtt true g b) bs h

  pub step-worked :
      (g : Gateway Real) (a : Answer Real) (next : Loop.System Real)
      → g.pending ≡ []
      → work_at ops cfg project_version commit_hash g.master.stage a g.master.meter ≡ next
      → step ops cfg project_version commit_hash dump topic hash queue_size g (metered (worked a))
        ≡ record g { master = next; pending = added g.master.meter.effects next.meter.effects }
  unfolding step meter_step Loop.step
  step-worked g a next idle e = rw (idle, e)

  -- A call of the slave's callback that finds the lock free.
  abbrev pub with_published : Effect Real → Mqtt.System → Mqtt.System
  with_published e s = record s {
    client = publish_message hash queue_size (message ops dump topic e) s.client;
  }

  pub step-called :
      (g : Gateway Real) (allocated : Bool) (e : Effect Real) (s s' : Slave)
      → g.pending ≡ e ∷ []
      → holds_lock g.mqtt.worker ≡ false
      → g.slave ≡ some s
      → update_slave ops allocated e (handler_of g) s ≡ s'
      → step ops cfg project_version commit_hash dump topic hash queue_size g (called allocated)
        ≡ with_handler s'.handler
            (record g { pending = []; mqtt = with_published e g.mqtt; slave = some s' })
  unfolding step call pass_on
  step-called g allocated e s s' p free there up = rw (p, free, there, up)
