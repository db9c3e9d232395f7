-- ===== src/Gateway/Ending.antt =====
-- How the threads of the whole program end, in the order in which src/main.cpp destroys the parts.
use smartmeter_gateway.Prelude.{
  ℕ, ◌≤◌, Bool, false, List, [], ◌∷◌, map, ◌≡◌, refl, ap, sym, subst, ◌∙◌, Option, Bytes,
}
use smartmeter_gateway.Real.{RealOps}
use smartmeter_gateway.Config.{MeterMasterConfig}
use smartmeter_gateway.SignalHandler.{SignalHandler, is_running, init}
use smartmeter_gateway.ModbusError.{custom, deduce_severity}
use smartmeter_gateway.Master.Json.{Object}
use smartmeter_gateway.Master.Telegram.{read_telegram}
use smartmeter_gateway.Master.Port.{Effect, Meter, handle_result, handle_error, try_connect}
use smartmeter_gateway.Master.Loop
use smartmeter_gateway.Master.Loop.{
  Stage, loop_head, connecting, reading, parsing_device, sending_device, parsing_values,
  sending_values, in_read, ended, terminated, broken, Answer, work_at, go_on, after_read,
  after_attempt, update_device_and_json, update_values_and_json, call_back,
}
use smartmeter_gateway.Master.Loop.Shutdown.{Returns, final, run-shutdown}
use smartmeter_gateway.Mqtt
use smartmeter_gateway.Mqtt.Stops.{AreQuiet, turns, left, run-stopped}
use smartmeter_gateway.Slave.{Slave}
use smartmeter_gateway.Gateway.{
  Broker, connected_with, disconnected, worked, Event, metered, brokered, Gateway, added,
  handler_of, mqtt_event, step, run, started,
}
use smartmeter_gateway.Gateway.Stages.{added_none, step-worked}
use smartmeter_gateway.Gateway.MqttPart.{broker-running}
use smartmeter_gateway.Gateway.Parts.{client_of, run-AreRuns}

-- The thread does not stand in a `::read` of the serial port.
abbrev pub IsOutsideRead : Stage → Type 0
IsOutsideRead (in_read r) = ⊥
IsOutsideRead _ = Unit

outside-Returns : {R : Type 0} (st : Stage) (a : Answer R) → IsOutsideRead st → Returns st a
outside-Returns loop_head a k = tt
outside-Returns connecting a k = tt
outside-Returns reading a k = tt
outside-Returns (in_read r) a k = absurd k
outside-Returns parsing_device a k = tt
outside-Returns sending_device a k = tt
outside-Returns parsing_values a k = tt
outside-Returns sending_values a k = tt
outside-Returns ended a k = tt
outside-Returns terminated a k = tt
outside-Returns broken a k = tt

module _ (ops : RealOps) (cfg : MeterMasterConfig ops.Real)
    (project_version commit_hash : Bytes) where
  open ops use {Real}

  work_at-IsOutsideRead :
      (st : Stage) (a : Answer Real) (m : Meter Real)
      → is_running m.handler ≡ false
      → IsOutsideRead st
      → IsOutsideRead (work_at ops cfg project_version commit_hash st a m).stage
  unfolding work_at go_on handle_result handle_error after_read after_attempt try_connect
      read_telegram update_device_and_json update_values_and_json call_back custom deduce_severity
  work_at-IsOutsideRead loop_head a m h k = rw h tt
  work_at-IsOutsideRead connecting a m h k = rw h tt
  work_at-IsOutsideRead reading a m h k = rw h tt
  work_at-IsOutsideRead (in_read r) a m h k = absurd k
  work_at-IsOutsideRead parsing_device a m h k = rw h tt
  work_at-IsOutsideRead sending_device a m h k = tt
  work_at-IsOutsideRead parsing_values a m h k = rw h tt
  work_at-IsOutsideRead sending_values a m h k = tt
  work_at-IsOutsideRead ended a m h k = tt
  work_at-IsOutsideRead terminated a m h k = tt
  work_at-IsOutsideRead broken a m h k = tt

  -- A worker that finds the flag down reports nothing.
  work_at-effects :
      (st : Stage) (a : Answer Real) (m : Meter Real)
      → is_running m.handler ≡ false
      → IsOutsideRead st
      → (work_at ops cfg project_version commit_hash st a m).meter.effects ≡ m.effects
  unfolding work_at go_on handle_result handle_error after_read after_attempt try_connect
      read_telegram update_device_and_json update_values_and_json call_back custom deduce_severity
  work_at-effects loop_head a m h k = rw h
  work_at-effects connecting a m h k = rw h
  work_at-effects reading a m h k = rw h
  work_at-effects (in_read r) a m h k = absurd k
  work_at-effects parsing_device a m h k = rw h
  work_at-effects sending_device a m h k = rw h
  work_at-effects parsing_values a m h k = rw h
  work_at-effects sending_values a m h k = rw h
  work_at-effects ended a m h k = refl
  work_at-effects terminated a m h k = refl
  work_at-effects broken a m h k = refl

  work_at-handler :
      (st : Stage) (a : Answer Real) (m : Meter Real)
      → is_running m.handler ≡ false
      → IsOutsideRead st
      → (work_at ops cfg project_version commit_hash st a m).meter.handler ≡ m.handler
  unfolding work_at go_on handle_result handle_error after_read after_attempt try_connect
      read_telegram update_device_and_json update_values_and_json call_back custom deduce_severity
  work_at-handler loop_head a m h k = rw h
  work_at-handler connecting a m h k = rw h
  work_at-handler reading a m h k = rw h
  work_at-handler (in_read r) a m h k = absurd k
  work_at-handler parsing_device a m h k = rw h
  work_at-handler sending_device a m h k = rw h
  work_at-handler parsing_values a m h k = rw h
  work_at-handler sending_values a m h k = rw h
  work_at-handler ended a m h k = refl
  work_at-handler terminated a m h k = refl
  work_at-handler broken a m h k = refl

  module _ (dump : Object Real → Bytes) (topic : Bytes) (hash : Bytes → ℕ) (queue_size : ℕ) where
    abbrev run_all : Gateway Real → List (Event Real) → Gateway Real
    run_all g es = run ops cfg project_version commit_hash dump topic hash queue_size g es

    abbrev step_all : Gateway Real → Event Real → Gateway Real
    step_all g e = step ops cfg project_version commit_hash dump topic hash queue_size g e

    abbrev with_work : Answer Real → Gateway Real → Gateway Real
    with_work a g = record g {
      master = work_at ops cfg project_version commit_hash g.master.stage a g.master.meter;
      pending = [];
    }

    stretch :
        (g : Gateway Real) (a : Answer Real)
        → is_running (handler_of g) ≡ false
        → IsOutsideRead g.master.stage
        → g.pending ≡ []
        → step_all g (metered (Loop.worked a)) ≡ with_work a g
    stretch g a down outside idle =
        step-worked ops cfg project_version commit_hash dump topic hash queue_size g a
          (work_at ops cfg project_version commit_hash g.master.stage a g.master.meter) idle refl
        ∙ ap (λ (es : List (Effect Real)). record (with_work a g) { pending = es })
            (ap (added g.master.meter.effects)
                (work_at-effects g.master.stage a g.master.meter down outside)
              ∙ added_none g.master.meter.effects)

    -- The events of the MQTT client leave the master alone.
    pub brokered-master :
        (g : Gateway Real) (bs : List Broker) → (run_all g (map brokered bs)).master ≡ g.master
    unfolding run step
    brokered-master g [] = refl
    brokered-master g (b ∷ bs) = brokered-master (step_all g (brokered b)) bs

    pub brokered-client_of :
        (g : Gateway Real) (bs : List Broker)
        → client_of (run_all g (map brokered bs))
          ≡ Mqtt.run hash queue_size (client_of g) (map mqtt_event bs)
    unfolding run step Mqtt.run
    brokered-client_of g [] = refl
    brokered-client_of g (b ∷ bs) =
        brokered-client_of (step_all g (brokered b)) bs
        ∙ ap
            (λ (r : Bool).
              Mqtt.run hash queue_size
                (record (Mqtt.step hash queue_size (client_of g) (mqtt_event b)) { running = r })
                (map mqtt_event bs))
            (sym (broker-running hash queue_size (client_of g) b))

    brokers-AreQuiet : (bs : List Broker) → AreQuiet (map mqtt_event bs)
    brokers-AreQuiet [] = tt
    brokers-AreQuiet (connected_with rc ∷ bs) = brokers-AreQuiet bs
    brokers-AreQuiet (disconnected ∷ bs) = brokers-AreQuiet bs
    brokers-AreQuiet (worked rc ∷ bs) = brokers-AreQuiet bs

    -- The worker of the MQTT client, from a state that the program has reached.
    mqtt_ends :
        (first : Option Slave) (es : List (Event Real)) (bs : List Broker)
        → is_running (handler_of (run_all (started first) es)) ≡ false
        → left (client_of (run_all (started first) es)) ≤ turns (map mqtt_event bs)
        → (Mqtt.run hash queue_size
            (client_of (run_all (started first) es))
            (map mqtt_event bs)).worker
          ≡ Mqtt.stopped
    unfolding is_running init
    mqtt_ends first es bs down enough =
        let (before, same) =
          (run-AreRuns ops cfg project_version commit_hash dump topic hash queue_size
            (started first) es).1 in
        rw same (
          run-stopped hash queue_size before (map mqtt_event bs)
            (ap (λ (x : Mqtt.System). x.running) (sym same) ∙ down) (brokers-AreQuiet bs)
            (rw same at enough))

    -- Both workers have ended.
    pub record IsEnded (g g' : Gateway Real) : Type 0 where
      pub master : g'.master.stage ≡ final g.master.stage
      pub mqtt : g'.mqtt.worker ≡ Mqtt.stopped

    two_stretches :
        (g : Gateway Real) (a b : Answer Real) (es : List (Event Real))
        → is_running (handler_of g) ≡ false
        → IsOutsideRead g.master.stage
        → g.pending ≡ []
        → run_all g (metered (Loop.worked a) ∷ metered (Loop.worked b) ∷ es)
          ≡ run_all (with_work b (with_work a g)) es
    unfolding run
    two_stretches g a b es down outside idle =
        ap (λ (x : Gateway Real). run_all (step_all x (metered (Loop.worked b))) es)
          (stretch g a down outside idle)
        ∙ ap (λ (x : Gateway Real). run_all x es)
            (stretch (with_work a g) b
              (ap is_running (work_at-handler g.master.stage a g.master.meter down outside) ∙ down)
              (work_at-IsOutsideRead g.master.stage a g.master.meter down outside) refl)

    -- In every state that the started program reaches in which it is shutting down, no call of a
    -- callback is pending and the worker thread of the master does not stand in a read of the
    -- serial port, two stretches of this thread end it, wherever else it is in its loop and
    -- whatever the system answers, if an exception or undefined behaviour has not ended it before;
    -- behind them, the worker of the MQTT client ends once it has been scheduled two times for
    -- each queued message, once for each topic and five times more, or less where it is on its
    -- way, however mosquitto answers and the broker connects and disconnects.
    pub run-IsEnded :
        (first : Option Slave) (es : List (Event Real)) (a b : Answer Real) (bs : List Broker)
        → is_running (handler_of (run_all (started first) es)) ≡ false
        → IsOutsideRead (run_all (started first) es).master.stage
        → (run_all (started first) es).pending ≡ []
        → left (client_of (run_all (started first) es)) ≤ turns (map mqtt_event bs)
        → IsEnded (run_all (started first) es) (
            run_all
              (run_all (started first) es)
              (metered (Loop.worked a) ∷ metered (Loop.worked b) ∷ map brokered bs))
    unfolding Loop.run Loop.step
    run-IsEnded first es a b bs down outside idle enough =
        let g = run_all (started first) es in
        let g2 = with_work b (with_work a g) in
        let flag_same =
          work_at-handler (with_work a g).master.stage b (with_work a g).master.meter
            (ap is_running (work_at-handler g.master.stage a g.master.meter down outside) ∙ down)
            (work_at-IsOutsideRead g.master.stage a g.master.meter down outside)
          ∙ work_at-handler g.master.stage a g.master.meter down outside in
        let client_same =
          ap (λ (h : SignalHandler). record g.mqtt { running = is_running h }) flag_same in
        subst (IsEnded g) (sym (two_stretches g a b (map brokered bs) down outside idle)) (record {
          master =
              ap (λ (s : Loop.System Real). s.stage) (brokered-master g2 bs)
              ∙ run-shutdown ops cfg project_version commit_hash g.master.stage g.master.meter a b
                  down (outside-Returns g.master.stage a outside);
          mqtt =
              ap (λ (s : Mqtt.System). s.worker)
                (brokered-client_of g2 bs
                  ∙ ap (λ (s : Mqtt.System). Mqtt.run hash queue_size s (map mqtt_event bs))
                      client_same)
              ∙ mqtt_ends first es bs down enough;
        })
