-- ===== src/Gateway/Parts.antt =====
-- Inside the whole program, the MQTT client and the master each run as they do alone.
use smartmeter_gateway.Prelude.{
  ℕ, inl, inr, Bool, List, [], ◌∷◌, ◌++◌, ◌≡◌, refl, ap, sym, ◌∙◌, Option, none, some, Bytes,
  Bool-cases, if_both,
}
use smartmeter_gateway.Real.{RealOps}
use smartmeter_gateway.Config.{MeterMasterConfig}
use smartmeter_gateway.SignalHandler.{SignalHandler, is_running}
use smartmeter_gateway.SignalHandler.Stopping.{MayStop, MayStop-down}
use smartmeter_gateway.Master.Json.{Object}
use smartmeter_gateway.Master.Port.{Effect, opened, closed, availability, device_sent, values_sent}
use smartmeter_gateway.Master.Loop
use smartmeter_gateway.Master.Loop.Flag.{step-down}
use smartmeter_gateway.Mqtt
use smartmeter_gateway.Mqtt.{Client, holds_lock}
use smartmeter_gateway.Slave.{Slave}
use smartmeter_gateway.Slave.Stopping.{update_values-MayStop, update_device-MayStop}
use smartmeter_gateway.Gateway.MqttPart.{
  IsMqttRun, IsMqttRun-trans, flag-IsMqttRun, publish_message-IsMqttRun, broker-IsMqttRun,
}
use smartmeter_gateway.Gateway.{
  Event, metered, called, brokered, Gateway, message, update_slave, publish_message, handler_of,
  pass_on, is_busy, meter_step, call, step, run,
}

-- The MQTT client as its own worker sees it, with the flag that all parts share.
abbrev pub client_of : {R : Type 0} → Gateway R → Mqtt.System
client_of g = record g.mqtt { running = is_running (handler_of g) }

update_slave-MayStop :
    (ops : RealOps) (allocated : Bool) (e : Effect ops.Real) (h : SignalHandler) (s : Slave)
    → MayStop h (update_slave ops allocated e h s).handler
unfolding update_slave
update_slave-MayStop ops allocated (values_sent (some v)) h s =
    update_values-MayStop ops allocated v (record s { handler = h })
update_slave-MayStop ops allocated (device_sent (some d)) h s =
    update_device-MayStop ops allocated d (record s { handler = h })
update_slave-MayStop ops allocated (values_sent none) h s = inl refl
update_slave-MayStop ops allocated (device_sent none) h s = inl refl
update_slave-MayStop ops allocated (availability b) h s = inl refl
update_slave-MayStop ops allocated (opened fd) h s = inl refl
update_slave-MayStop ops allocated (closed fd) h s = inl refl

module _ (ops : RealOps) (cfg : MeterMasterConfig ops.Real)
    (project_version commit_hash : Bytes) where
  open ops use {Real}

  -- The same of the master.
  abbrev pub IsMasterRun : Loop.System Real → Loop.System Real → Type 0
  IsMasterRun s s' =
      (es : List (Loop.Event Real)) × (s' ≡ Loop.run ops cfg project_version commit_hash s es)

  master_run-append :
      (s : Loop.System Real) (xs ys : List (Loop.Event Real))
      → Loop.run ops cfg project_version commit_hash s (xs ++ ys)
        ≡ Loop.run ops cfg project_version commit_hash
            (Loop.run ops cfg project_version commit_hash s xs)
            ys
  unfolding Loop.run
  master_run-append s [] ys = refl
  master_run-append s (x ∷ xs) ys =
      master_run-append (Loop.step ops cfg project_version commit_hash s x) xs ys

  IsMasterRun-trans :
      (s t u : Loop.System Real) → IsMasterRun s t → IsMasterRun t u → IsMasterRun s u
  IsMasterRun-trans s t u (es, p) (fs, q) = (
    es ++ fs,
    q
        ∙ ap (λ (x : Loop.System Real). Loop.run ops cfg project_version commit_hash x fs) p
        ∙ sym (master_run-append s es fs),
  )

  -- Another part may shut the program down.
  handler-IsMasterRun :
      (s : Loop.System Real) (h : SignalHandler)
      → MayStop s.meter.handler h
      → IsMasterRun s (record s { meter = record s.meter { handler = h } })
  unfolding Loop.run Loop.step
  handler-IsMasterRun s h (inl p) =
      ([], ap (λ (x : SignalHandler). record s { meter = record s.meter { handler = x } }) p)
  handler-IsMasterRun s h (inr p) = (
    Loop.shut_down ∷ [],
    ap (λ (x : SignalHandler). record s { meter = record s.meter { handler = x } }) p,
  )

  module _ (dump : Object Real → Bytes) (topic : Bytes) (hash : Bytes → ℕ) (queue_size : ℕ) where
    -- Both parts have run from one state of the program to another.
    abbrev pub AreRuns : Gateway Real → Gateway Real → Type 0
    AreRuns g g' =
        IsMasterRun g.master g'.master × IsMqttRun hash queue_size (client_of g) (client_of g')

    nothing_done : (g : Gateway Real) → AreRuns g g
    unfolding Loop.run Mqtt.run
    nothing_done g = (([], refl), ([], refl))

    AreRuns-trans : (a b c : Gateway Real) → AreRuns a b → AreRuns b c → AreRuns a c
    AreRuns-trans a b c (m, q) (m', q') = (
      IsMasterRun-trans a.master b.master c.master m m',
      IsMqttRun-trans hash queue_size (client_of a) (client_of b) (client_of c) q q',
    )

    meter_step-AreRuns :
        (e : Loop.Event Real) (g : Gateway Real)
        → AreRuns g (meter_step ops cfg project_version commit_hash e g)
    unfolding meter_step Loop.run
    meter_step-AreRuns e g = (
      (e ∷ [], refl),
      flag-IsMqttRun hash queue_size g.mqtt (is_running (handler_of g)) _
          (step-down ops cfg project_version commit_hash g.master e),
    )

    pass_on-AreRuns :
        (allocated : Bool) (e : Effect Real) (o : Option Slave) (g : Gateway Real)
        → AreRuns g (pass_on ops allocated e o g)
    unfolding pass_on
    pass_on-AreRuns allocated e none g = nothing_done g
    pass_on-AreRuns allocated e (some s) g =
        let stops = update_slave-MayStop ops allocated e (handler_of g) s in
        (
          handler-IsMasterRun g.master _ stops,
          flag-IsMqttRun hash queue_size g.mqtt (is_running (handler_of g)) _
              (MayStop-down (handler_of g) _ stops),
        )

    call-AreRuns :
        (allocated : Bool) (todo : List (Effect Real)) (g : Gateway Real)
        → AreRuns g
            (call ops cfg project_version commit_hash dump topic hash queue_size allocated todo g)
    unfolding call
    call-AreRuns allocated [] g = nothing_done g
    call-AreRuns allocated (e ∷ rest) g = elim (Bool-cases (holds_lock g.mqtt.worker)) [
      | inl held ↦ rw held (nothing_done g)
      | inr free ↦
          let published : Gateway Real = record g {
            pending = rest;
            mqtt = record g.mqtt {
              client = publish_message hash queue_size (message ops dump topic e) g.mqtt.client;
            };
          } in
          rw free (
            AreRuns-trans g published (pass_on ops allocated e g.slave published)
              (
                (nothing_done g).0,
                publish_message-IsMqttRun hash queue_size (client_of g) (message ops dump topic e)
                    free,
              )
              (pass_on-AreRuns allocated e g.slave published))
    ]

    step-AreRuns :
        (g : Gateway Real) (e : Event Real)
        → AreRuns g (step ops cfg project_version commit_hash dump topic hash queue_size g e)
    unfolding step
    step-AreRuns g (metered e) =
        if_both (AreRuns g) (is_busy g.pending e) _ _ (nothing_done g) (meter_step-AreRuns e g)
    step-AreRuns g (called allocated) = call-AreRuns allocated g.pending g
    step-AreRuns g (brokered b) =
        ((nothing_done g).0, broker-IsMqttRun hash queue_size (client_of g) b)

    -- Inside every run of the whole program, whatever its threads, its callbacks and the slave do,
    -- the master runs as it can alone, and so does the MQTT client with the shared flag: its state
    -- at the end is that behind some series of its own events from its state at the start. A
    -- shutdown by one part is a shutdown event of the others.
    pub run-AreRuns :
        (g : Gateway Real) (es : List (Event Real))
        → AreRuns g (run ops cfg project_version commit_hash dump topic hash queue_size g es)
    unfolding run
    run-AreRuns g [] = nothing_done g
    run-AreRuns g (e ∷ es) =
        AreRuns-trans g (step ops cfg project_version commit_hash dump topic hash queue_size g e)
          (run ops cfg project_version commit_hash dump topic hash queue_size
            (step ops cfg project_version commit_hash dump topic hash queue_size g e) es)
          (step-AreRuns g e)
          (run-AreRuns (step ops cfg project_version commit_hash dump topic hash queue_size g e) es)
