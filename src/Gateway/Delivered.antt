-- ===== src/Gateway/Delivered.antt =====
-- What one pass of the master brings to the Modbus registers and to the MQTT queues.
use smartmeter_gateway.Prelude.{
  ℕ, Bool, true, false, List, [], ◌∷◌, ◌++◌, map, ◌≡◌, refl, ap, sym, subst, ◌∙◌, some, Bytes,
  codes,
}
use smartmeter_gateway.Real.{RealOps}
use smartmeter_gateway.Config.{MeterMasterConfig}
use smartmeter_gateway.MeterTypes.{Values, Device}
use smartmeter_gateway.SignalHandler.{SignalHandler, is_running}
use smartmeter_gateway.Master.Json.{Object, values_json}
use smartmeter_gateway.Master.Telegram.Chunks.{polls_of}
use smartmeter_gateway.Master.Telegram.Frame.{IsFramed}
use smartmeter_gateway.Master.Readings.{values_of}
use smartmeter_gateway.Master.Identity.{device_of}
use smartmeter_gateway.Master.Port.{Effect, Meter, device_sent, values_sent, emit}
use smartmeter_gateway.Master.Loop.{Answer, worked, reading, parsing_values, loop_head}
use smartmeter_gateway.Master.Loop.Pass.{Arrives}
use smartmeter_gateway.Mqtt
use smartmeter_gateway.Mqtt.{Client, holds_lock, publish}
use smartmeter_gateway.Pack.{Mapping}
use smartmeter_gateway.Slave.{Slave}
use smartmeter_gateway.Slave.Points.{HoldsValues}
use smartmeter_gateway.Slave.Updates.{IsUpdated, update_values-IsUpdated}
use smartmeter_gateway.Gateway.{
  Broker, Event, metered, called, brokered, Gateway, message, publish_message, update_slave,
  handler_of,
}
use smartmeter_gateway.Gateway.Stages.{brokers, run-append, with_published}
use smartmeter_gateway.Gateway.Served.{serves_and_calls}
use smartmeter_gateway.Gateway.Accepting.{Accepts, accepted}
use smartmeter_gateway.Gateway.Halves.{state, runs, with_device, device_half, values_half}

module _ (ops : RealOps) (cfg : MeterMasterConfig ops.Real) (project_version commit_hash : Bytes)
    (dump : Object ops.Real → Bytes) (topic : Bytes) (hash : Bytes → ℕ) (queue_size : ℕ) where
  open ops use {Real}

  -- The state, the runs and the broker's share of this program.
  abbrev run_all : Gateway Real → List (Event Real) → Gateway Real
  run_all g es = runs ops cfg project_version commit_hash dump topic hash queue_size g es

  abbrev serve : Mqtt.System → List Broker → Mqtt.System
  serve q bs = brokers ops cfg project_version commit_hash dump topic hash queue_size q bs

  abbrev publish_for : Effect Real → Mqtt.System → Mqtt.System
  publish_for e q =
      with_published ops cfg project_version commit_hash dump topic hash queue_size e q

  abbrev pub to_device : Answer Real → Bool → List Broker → List (Event Real)
  to_device a allocated bs =
      metered (worked a)
      ∷ metered (worked a)
      ∷ metered (worked a)
      ∷ (map brokered bs ++ called allocated ∷ [])

  abbrev pub to_values : Answer Real → List Broker → List (Event Real)
  to_values a cs = metered (worked a) ∷ metered (worked a) ∷ (map brokered cs ++ called true ∷ [])

  -- One pass: the worker of the master, with the answers of the system, and the two callbacks, each
  -- behind some events of the MQTT client.
  abbrev pub pass : Answer Real → Bool → List Broker → List Broker → List (Event Real)
  pass a allocated bs cs = to_device a allocated bs ++ to_values a cs

  -- The MQTT client before the call with the values.
  abbrev pub before_values : Mqtt.System → Device → List Broker → List Broker → Mqtt.System
  before_values q d bs cs = serve (publish_for (device_sent (some d)) (serve q bs)) cs

  pub record IsDelivered (v : Values Real) (s : Slave) (q : Mqtt.System) (g : Gateway Real)
      : Type 0 where
    pub slave : Slave
    pub mapping : Mapping
    pub slave_is : g.slave ≡ some slave
    pub regs : slave.regs ≡ some mapping
    pub holds : HoldsValues ops s.use_float_model mapping v
    pub published :
        g.mqtt.client
        ≡ publish hash queue_size (dump (values_json ops v)) (topic ++ codes "/values") q.client
    pub ready : g.master.stage ≡ loop_head
    pub done : g.pending ≡ []
    pub running : is_running (handler_of g) ≡ true

  -- What the master's object is behind the two halves.
  abbrev behind_device : Meter Real → Bytes → Device → Meter Real
  behind_device m t d = emit (device_sent (some d)) (with_device m t d)

  abbrev behind_values : Meter Real → Values Real → Meter Real
  behind_values m v = emit (values_sent (some v)) (record m { values = some v })

  -- Up to the return of the device callback.
  first_half :
      (m : Meter Real) (q : Mqtt.System) (s : Slave) (a : Answer Real) (fd : ℕ) (t : Bytes)
      (reads : List Bytes) (d : Device) (allocated : Bool) (bs : List Broker)
      → is_running m.handler ≡ true
      → m.device_callback ≡ true
      → m.serial_port ≡ some fd
      → a.polls ≡ polls_of reads
      → Arrives t reads
      → device_of project_version commit_hash t ≡ some d
      → a.json_dumped ≡ true
      → holds_lock (serve q bs).worker ≡ false
      → (update_slave ops allocated (device_sent (some d)) m.handler s).handler ≡ m.handler
      → run_all (state reading m [] q s) (to_device a allocated bs)
        ≡ state parsing_values
            (behind_device m t d)
            []
            (publish_for (device_sent (some d)) (serve q bs))
            (update_slave ops allocated (device_sent (some d)) m.handler s)
  first_half m q s a fd t reads d allocated bs alive set port polls arr dev dumped free same =
      run-append ops cfg project_version commit_hash dump topic hash queue_size
        (state reading m [] q s) (metered (worked a) ∷ metered (worked a) ∷ metered (worked a) ∷ [])
        (map brokered bs ++ called allocated ∷ [])
      ∙ ap (λ (g : Gateway Real). run_all g (map brokered bs ++ called allocated ∷ []))
          (device_half ops cfg project_version commit_hash dump topic hash queue_size m q s a fd t
            reads d alive set port polls arr dev dumped)
      ∙ serves_and_calls ops cfg project_version commit_hash dump topic hash queue_size
          parsing_values (behind_device m t d) (device_sent (some d)) q s allocated bs alive free
          same

  -- From there to the return of the update callback.
  second_half :
      (m : Meter Real) (q : Mqtt.System) (s : Slave) (a : Answer Real) (t : Bytes) (v : Values Real)
      (cs : List Broker)
      → is_running m.handler ≡ true
      → m.update_callback ≡ true
      → m.telegram ≡ t
      → IsFramed t
      → values_of ops cfg.grid a.indeterminate a.now t ≡ some v
      → holds_lock (serve q cs).worker ≡ false
      → (update_slave ops true (values_sent (some v)) m.handler s).handler ≡ m.handler
      → run_all (state parsing_values m [] q s) (to_values a cs)
        ≡ state loop_head
            (behind_values m v)
            []
            (publish_for (values_sent (some v)) (serve q cs))
            (update_slave ops true (values_sent (some v)) m.handler s)
  second_half m q s a t v cs alive set same_t framed val free same =
      run-append ops cfg project_version commit_hash dump topic hash queue_size
        (state parsing_values m [] q s) (metered (worked a) ∷ metered (worked a) ∷ [])
        (map brokered cs ++ called true ∷ [])
      ∙ ap (λ (g : Gateway Real). run_all g (map brokered cs ++ called true ∷ []))
          (values_half ops cfg project_version commit_hash dump topic hash queue_size m q s a t v
            alive set same_t framed val)
      ∙ serves_and_calls ops cfg project_version commit_hash dump topic hash queue_size loop_head
          (behind_values m v) (values_sent (some v)) q s true cs alive free same

  updated :
      (v : Values Real) (s : Slave) (old : Mapping) (h : SignalHandler)
      → is_running h ≡ true
      → s.regs ≡ some old
      → IsUpdated ops v
          (record s { handler = h })
          old
          (update_slave ops true (values_sent (some v)) h s)
  unfolding update_slave
  updated v s old h alive regs =
      update_values-IsUpdated ops v (record s { handler = h }) old alive regs

  publishes_values :
      (v : Values Real) (q : Mqtt.System)
      → (publish_for (values_sent (some v)) q).client
        ≡ publish hash queue_size (dump (values_json ops v)) (topic ++ codes "/values") q.client
  unfolding message publish_message
  publishes_values v q = refl

  -- In a running program whose master reads an open port, with both callbacks set, no call pending
  -- and a slave with a mapping, a framed telegram that arrives in non-empty reads behind bytes
  -- without a slash, that gives device data and values, and for whose device data the dump of the
  -- JSON returns, ends up with the clients: behind one pass of the master and its two callbacks,
  -- each of which finds the lock of the MQTT client free behind any events of the broker and of
  -- the MQTT worker, every point of the meter model that the slave serves reads as the value of
  -- the telegram, the JSON text of the values has been published on the topic for values, the
  -- master is at the head of its loop with no call pending, and the program still runs. The
  -- mapping for the values can be allocated, and the slave has its device data already, or they
  -- fit the registers without a NUL and a mapping for them can be allocated.
  pub run-IsDelivered :
      (m : Meter Real) (q : Mqtt.System) (s : Slave) (old : Mapping) (a : Answer Real) (fd : ℕ)
      (t : Bytes) (reads : List Bytes) (d : Device) (v : Values Real) (allocated : Bool)
      (bs cs : List Broker)
      → is_running m.handler ≡ true
      → m.device_callback ≡ true
      → m.update_callback ≡ true
      → m.serial_port ≡ some fd
      → s.regs ≡ some old
      → a.polls ≡ polls_of reads
      → Arrives t reads
      → device_of project_version commit_hash t ≡ some d
      → a.json_dumped ≡ true
      → values_of ops cfg.grid a.indeterminate a.now t ≡ some v
      → Accepts allocated d s
      → holds_lock (serve q bs).worker ≡ false
      → holds_lock (before_values q d bs cs).worker ≡ false
      → IsDelivered v s
          (before_values q d bs cs)
          (run_all (state reading m [] q s) (pass a allocated bs cs))
  run-IsDelivered m q s old a fd t reads d v allocated bs cs alive dset uset port regs polls arr dev
        dumped val acc free1 free2 =
      let s1 = update_slave ops allocated (device_sent (some d)) m.handler s in
      let q1 = publish_for (device_sent (some d)) (serve q bs) in
      let r = accepted ops allocated d s old m.handler alive regs acc in
      let u = updated v s1 r.mapping m.handler alive r.regs in
      let at_end =
        run-append ops cfg project_version commit_hash dump topic hash queue_size
          (state reading m [] q s) (to_device a allocated bs) (to_values a cs)
        ∙ ap (λ (g : Gateway Real). run_all g (to_values a cs))
            (first_half m q s a fd t reads d allocated bs alive dset port polls arr dev dumped free1
              r.handler_same)
        ∙ second_half (behind_device m t d) q1 s1 a t v cs alive uset refl arr.framed val free2
            (ap (λ (x : Slave). x.handler) u.slave_is) in
      subst (IsDelivered v s (before_values q d bs cs)) (sym at_end) (record {
        slave = update_slave ops true (values_sent (some v)) m.handler s1;
        mapping = u.mapping;
        slave_is = refl;
        regs = ap (λ (x : Slave). x.regs) u.slave_is;
        holds = subst (λ b. HoldsValues ops b u.mapping v) r.model_same u.holds;
        published = publishes_values v (before_values q d bs cs);
        ready = refl;
        done = refl;
        running = alive;
      })
