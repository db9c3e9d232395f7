-- ===== src/Gateway/Faithful.antt =====
-- Every message that mosquitto is given and every update of the slave comes from a framed telegram.
use smartmeter_gateway.Prelude.{
  ◌⊎◌, inl, inr, true, false, ◌++◌, codes, ap, take, All-take, All-reverse, All-append, ℕ, ◌-◌,
  Bool, List, [], ◌∷◌, ◌≡◌, sym, subst, refl, Option, none, some, All, Bytes, if_both, length,
}
use smartmeter_gateway.Real.{RealOps}
use smartmeter_gateway.Config.{MeterMasterConfig}
use smartmeter_gateway.SignalHandler.{SignalHandler}
use smartmeter_gateway.MeterTypes.{Values, Device}
use smartmeter_gateway.Master.Json.{Object, to_map, values_json, device_json}
use smartmeter_gateway.Master.Port.{Effect, opened, closed, availability, device_sent, values_sent}
use smartmeter_gateway.Master.Loop
use smartmeter_gateway.Master.Loop.Kept.{IsReported, AreValuesRead, IsDeviceRead, Inv, Fits-same}
use smartmeter_gateway.Master.Loop.Reports.{step-Inv}
use smartmeter_gateway.Mqtt
use smartmeter_gateway.Mqtt.{Client, holds_lock, on_connect, on_disconnect}
use smartmeter_gateway.SortedMap.{get_or}
use smartmeter_gateway.Slave.{Slave, update_values, update_device}
use smartmeter_gateway.Gateway.{
  Message, Broker, connected_with, disconnected, worked, Event, metered, called, brokered, Gateway,
  added, calls, message, update_slave, publish_message, pass_on, call, is_busy, handler_of,
  mqtt_event, meter_step, step, run, started,
}
use smartmeter_gateway.Gateway.Queues.{AreQueued, Holds, publish-AreQueued, work_at-Holds}

All-calls :
    {R : Type 0} (Q : Effect R → Type 0) (es : List (Effect R)) → All Q es → All Q (calls es)
All-calls Q [] p = tt
All-calls Q (opened fd ∷ es) p = All-calls Q es p.1
All-calls Q (closed fd ∷ es) p = All-calls Q es p.1
All-calls Q (availability b ∷ es) p = (p.0, All-calls Q es p.1)
All-calls Q (device_sent o ∷ es) p = (p.0, All-calls Q es p.1)
All-calls Q (values_sent o ∷ es) p = (p.0, All-calls Q es p.1)

All-added :
    {R : Type 0} (Q : Effect R → Type 0) (old new : List (Effect R))
    → All Q new
    → All Q (added old new)
All-added Q old new p = All-calls Q _ (
    All-reverse Q (take (length new - length old) new) (All-take Q (length new - length old) new p))

abbrev payload_of : Message → Option Message → Bytes
payload_of d none = d.payload
payload_of d (some x) = x.payload

abbrev topic_of : Message → Option Message → Bytes
topic_of d none = d.topic
topic_of d (some x) = x.topic

module _ (ops : RealOps) (cfg : MeterMasterConfig ops.Real)
    (project_version commit_hash : Bytes) where
  open ops use {Real}

  abbrev pub FromTelegram : Effect Real → Type 0
  FromTelegram e = IsReported ops cfg project_version commit_hash e

  -- The slave's states behind updates with data of framed telegrams only. Other parts may set the
  -- shutdown flag before each, and between them.
  pub data Reached (first : Slave) : Slave → Type 0 where
    at_first : Reached first first
    values_given :
        {s : Slave} (allocated : Bool) (v : Values Real) (h : SignalHandler)
        → Reached first s
        → AreValuesRead ops cfg project_version commit_hash (some v)
        → Reached first (update_values ops allocated v (record s { handler = h }))
    device_given :
        {s : Slave} (allocated : Bool) (d : Device) (h : SignalHandler)
        → Reached first s
        → IsDeviceRead ops cfg project_version commit_hash (some d)
        → Reached first (update_device ops allocated d (record s { handler = h }))
    flag_set :
        {s : Slave} (h : SignalHandler) → Reached first s → Reached first (record s { handler = h })

  update_slave-Reached :
      (first s : Slave) (allocated : Bool) (e : Effect Real) (h : SignalHandler)
      → Reached first s
      → FromTelegram e
      → Reached first (update_slave ops allocated e h s)
  unfolding update_slave
  update_slave-Reached first s allocated (values_sent (some v)) h r f =
      values_given allocated v h r f
  update_slave-Reached first s allocated (device_sent (some d)) h r f =
      device_given allocated d h r f
  update_slave-Reached first s allocated (values_sent none) h r f = flag_set h r
  update_slave-Reached first s allocated (device_sent none) h r f = flag_set h r
  update_slave-Reached first s allocated (availability b) h r f = flag_set h r
  update_slave-Reached first s allocated (opened fd) h r f = flag_set h r
  update_slave-Reached first s allocated (closed fd) h r f = flag_set h r

  abbrev pub AreReached : Option Slave → Option Slave → Type 0
  AreReached none none = Unit
  AreReached (some first) (some s) = Reached first s
  AreReached _ _ = ⊥

  module _ (dump : Object Real → Bytes) (topic : Bytes) (hash : Bytes → ℕ) (queue_size : ℕ) where
    -- The text of values that a framed telegram gives, on the topic for values; the same of device
    -- data; or one of two words on the topic for the availability.
    abbrev pub IsMessage : Bytes → Bytes → Type 0
    IsMessage t payload =
        ((v : Values Real) × AreValuesRead ops cfg project_version commit_hash (some v)
          × (payload ≡ dump (values_json ops v))
          × (t ≡ topic ++ codes "/values"))
        ⊎ ((d : Device) × IsDeviceRead ops cfg project_version commit_hash (some d)
            × (payload ≡ dump (to_map (device_json ops d)))
            × (t ≡ topic ++ codes "/device"))
        ⊎ (((payload ≡ codes "connected") ⊎ (payload ≡ codes "disconnected"))
            × (t ≡ topic ++ codes "/availability"))

    message-IsMessage :
        (e : Effect Real) (x : Message)
        → message ops dump topic e ≡ some x
        → FromTelegram e
        → IsMessage x.topic x.payload
    unfolding message
    message-IsMessage (values_sent (some v)) x m f =
        inl (v, f, sym (ap (payload_of x) m), sym (ap (topic_of x) m))
    message-IsMessage (values_sent none) x m f = absurd cc
    message-IsMessage (device_sent (some d)) x m f =
        inr (inl (d, f, sym (ap (payload_of x) m), sym (ap (topic_of x) m)))
    message-IsMessage (device_sent none) x m f = absurd cc
    message-IsMessage (availability true) x m f =
        inr (inr (inl (sym (ap (payload_of x) m)), sym (ap (topic_of x) m)))
    message-IsMessage (availability false) x m f =
        inr (inr (inr (sym (ap (payload_of x) m)), sym (ap (topic_of x) m)))
    message-IsMessage (opened fd) x m f = absurd cc
    message-IsMessage (closed fd) x m f = absurd cc

    pub record IsFaithful (first : Option Slave) (g : Gateway Real) : Type 0 where
      pub messages : Holds IsMessage g.mqtt
      pub updates : AreReached first g.slave
      pub reports : All FromTelegram g.pending
      pub master_inv : Inv ops cfg project_version commit_hash g.master

    publish_message-AreQueued :
        (e : Effect Real) (o : Option Message) (c : Client)
        → message ops dump topic e ≡ o
        → FromTelegram e
        → AreQueued IsMessage c
        → AreQueued IsMessage (publish_message hash queue_size o c)
    unfolding publish_message
    publish_message-AreQueued e none c m f a = a
    publish_message-AreQueued e (some x) c m f a =
        publish-AreQueued IsMessage hash queue_size x.payload x.topic c (message-IsMessage e x m f)
          a

    pass_on-IsFaithful :
        (first : Option Slave) (allocated : Bool) (e : Effect Real) (o : Option Slave)
        (g : Gateway Real)
        → o ≡ g.slave
        → FromTelegram e
        → IsFaithful first g
        → IsFaithful first (pass_on ops allocated e o g)
    unfolding pass_on
    pass_on-IsFaithful first allocated e none g same f i = i
    pass_on-IsFaithful none allocated e (some s) g same f i =
        absurd (subst (AreReached none) (sym same) i.updates)
    pass_on-IsFaithful (some s0) allocated e (some s) g same f i = record {
      messages = i.messages;
      updates =
          update_slave-Reached s0 s allocated e (handler_of g)
            (subst (AreReached (some s0)) (sym same) i.updates) f;
      reports = i.reports;
      master_inv = (
        Fits-same ops cfg project_version commit_hash g.master.stage g.master.meter _ refl refl refl
            i.master_inv.0,
        i.master_inv.1,
      );
    }

    call-IsFaithful :
        (first : Option Slave) (allocated : Bool) (todo : List (Effect Real)) (g : Gateway Real)
        → All FromTelegram todo
        → IsFaithful first g
        → IsFaithful first
            (call ops cfg project_version commit_hash dump topic hash queue_size allocated todo g)
    unfolding call
    call-IsFaithful first allocated [] g r i = i
    call-IsFaithful first allocated (e ∷ rest) g r i =
        if_both (IsFaithful first) (holds_lock g.mqtt.worker) g _ i (
          pass_on-IsFaithful first allocated e g.slave _ refl r.0 (record {
            messages = (
              publish_message-AreQueued e (message ops dump topic e) g.mqtt.client refl r.0
                  i.messages.0,
              i.messages.1,
            );
            updates = i.updates;
            reports = r.1;
            master_inv = i.master_inv;
          }))

    meter_step-IsFaithful :
        (first : Option Slave) (e : Loop.Event Real) (g : Gateway Real)
        → IsFaithful first g
        → IsFaithful first (meter_step ops cfg project_version commit_hash e g)
    unfolding meter_step
    meter_step-IsFaithful first e g i =
        let inv = step-Inv ops cfg project_version commit_hash g.master e i.master_inv in
        record {
          messages = i.messages;
          updates = i.updates;
          reports =
              All-append FromTelegram g.pending _ i.reports
                (All-added FromTelegram g.master.meter.effects _ inv.1);
          master_inv = inv;
        }

    broker-Holds :
        (s : Mqtt.System) (b : Broker)
        → Holds IsMessage s
        → Holds IsMessage (Mqtt.step hash queue_size s (mqtt_event b))
    unfolding Mqtt.step on_connect on_disconnect
    broker-Holds s (connected_with rc) h = h
    broker-Holds s disconnected h = h
    broker-Holds s (worked rc) h = work_at-Holds IsMessage rc s h

    step-IsFaithful :
        (first : Option Slave) (g : Gateway Real) (e : Event Real)
        → IsFaithful first g
        → IsFaithful first (step ops cfg project_version commit_hash dump topic hash queue_size g e)
    unfolding step
    step-IsFaithful first g (metered e) i =
        if_both (IsFaithful first) (is_busy g.pending e) g _ i (meter_step-IsFaithful first e g i)
    step-IsFaithful first g (called allocated) i =
        call-IsFaithful first allocated g.pending g i.reports i
    step-IsFaithful first g (brokered b) i = record {
      messages = broker-Holds _ b i.messages;
      updates = i.updates;
      reports = i.reports;
      master_inv = i.master_inv;
    }

    run_keeps :
        (first : Option Slave) (g : Gateway Real) (es : List (Event Real))
        → IsFaithful first g
        → IsFaithful first (run ops cfg project_version commit_hash dump topic hash queue_size g es)
    unfolding run
    run_keeps first g [] i = i
    run_keeps first g (e ∷ es) i =
        run_keeps first (step ops cfg project_version commit_hash dump topic hash queue_size g e) es
          (step-IsFaithful first g e i)

    started-IsFaithful : (first : Option Slave) → IsFaithful first (started first)
    unfolding get_or
    started-IsFaithful none = record {
      messages = (λ j. tt, tt);
      updates = tt;
      reports = tt;
      master_inv = (tt, tt);
    }
    started-IsFaithful (some s) = record {
      messages = (λ j. tt, tt);
      updates = at_first;
      reports = tt;
      master_inv = (tt, tt);
    }

    -- In every run of the started program, however the threads and the callbacks are interleaved:
    -- every payload that is queued or handed to mosquitto is the text of values that a framed
    -- telegram gives, on the topic that ends in /values, the text of device data that a framed
    -- telegram gives, on the topic that ends in /device, or the word connected or disconnected on
    -- the topic that ends in /availability; the slave has been changed by calls with such values
    -- and device data only; and so will the calls be that are still pending.
    pub run-IsFaithful :
        (first : Option Slave) (es : List (Event Real))
        → IsFaithful first
            (run ops cfg project_version commit_hash dump topic hash queue_size (started first) es)
    run-IsFaithful first es = run_keeps first (started first) es (started-IsFaithful first)
