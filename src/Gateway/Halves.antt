-- ===== src/Gateway/Halves.antt =====
-- The two halves of a pass of the master in the whole program: up to the call of the device
-- callback, and from there to the call of the update callback.
use smartmeter_gateway.Prelude.{ℕ, true, List, [], ◌∷◌, ◌≡◌, refl, ap, ◌∙◌, some, Bytes}
use smartmeter_gateway.Real.{RealOps}
use smartmeter_gateway.Config.{MeterMasterConfig}
use smartmeter_gateway.MeterTypes.{Values, Device}
use smartmeter_gateway.SignalHandler.{is_running}
use smartmeter_gateway.Master.Json.{Object}
use smartmeter_gateway.Master.Telegram.Chunks.{polls_of}
use smartmeter_gateway.Master.Telegram.Frame.{IsFramed}
use smartmeter_gateway.Master.Readings.{values_of}
use smartmeter_gateway.Master.Identity.{device_of}
use smartmeter_gateway.Master.Port.{Effect, Meter, device_sent, values_sent, emit}
use smartmeter_gateway.Master.Loop.{
  Stage, Answer, worked, reading, parsing_device, sending_device, parsing_values, sending_values,
  loop_head, work_at, call_back,
}
use smartmeter_gateway.Master.Loop.Pass.{
  Arrives, work_at-reading, work_at-parsing_device, work_at-parsing_values,
}
use smartmeter_gateway.Mqtt
use smartmeter_gateway.Mqtt.{Client, holds_lock, publish}
use smartmeter_gateway.Slave.{Slave}
use smartmeter_gateway.Gateway.{Event, metered, Gateway, added, calls, run, step}
use smartmeter_gateway.Gateway.Stages.{added_none, added_one, step-worked}

-- A program with a slave.
abbrev pub state :
    {R : Type 0} → Stage → Meter R → List (Effect R) → Mqtt.System → Slave → Gateway R
state stage m pending q s = record {
  master = record { stage = stage; meter = m };
  pending = pending;
  mqtt = q;
  slave = some s;
}

-- What the master keeps of a telegram and its device data.
abbrev pub with_device : {R : Type 0} → Meter R → Bytes → Device → Meter R
with_device m t d = record m { telegram = t; device = some d }

module _ (ops : RealOps) (cfg : MeterMasterConfig ops.Real) (project_version commit_hash : Bytes)
    (dump : Object ops.Real → Bytes) (topic : Bytes) (hash : Bytes → ℕ) (queue_size : ℕ) where
  open ops use {Real}

  abbrev pub runs : Gateway Real → List (Event Real) → Gateway Real
  runs g es = run ops cfg project_version commit_hash dump topic hash queue_size g es

  abbrev pub one : Gateway Real → Event Real → Gateway Real
  one g e = step ops cfg project_version commit_hash dump topic hash queue_size g e

  silent :
      (stage next : Stage) (m m' : Meter Real) (q : Mqtt.System) (s : Slave) (a : Answer Real)
      → work_at ops cfg project_version commit_hash stage a m ≡ record { stage = next; meter = m' }
      → m'.effects ≡ m.effects
      → one (state stage m [] q s) (metered (worked a)) ≡ state next m' [] q s
  silent stage next m m' q s a w same =
      step-worked ops cfg project_version commit_hash dump topic hash queue_size
        (state stage m [] q s) a (record { stage = next; meter = m' }) refl w
      ∙ ap (λ (es : List (Effect Real)). state next m' es q s)
          (ap (added m.effects) same ∙ added_none m.effects)

  -- A stage that ends in a call of a callback.
  reporting :
      (stage next : Stage) (m : Meter Real) (e : Effect Real) (q : Mqtt.System) (s : Slave)
      (a : Answer Real)
      → work_at ops cfg project_version commit_hash stage a m
        ≡ record { stage = next; meter = emit e m }
      → one (state stage m [] q s) (metered (worked a)) ≡ state next (emit e m) (calls (e ∷ [])) q s
  reporting stage next m e q s a w =
      step-worked ops cfg project_version commit_hash dump topic hash queue_size
        (state stage m [] q s) a (record { stage = next; meter = emit e m }) refl w
      ∙ ap (λ (es : List (Effect Real)). state next (emit e m) es q s) (added_one e m.effects)

  sends_device :
      (a : Answer Real) (m : Meter Real)
      → is_running m.handler ≡ true
      → m.device_callback ≡ true
      → work_at ops cfg project_version commit_hash sending_device a m
        ≡ record { stage = parsing_values; meter = emit (device_sent m.device) m }
  unfolding work_at call_back
  sends_device a m run set = rw (run, set)

  sends_values :
      (a : Answer Real) (m : Meter Real)
      → is_running m.handler ≡ true
      → m.update_callback ≡ true
      → work_at ops cfg project_version commit_hash sending_values a m
        ≡ record { stage = loop_head; meter = emit (values_sent m.values) m }
  unfolding work_at call_back
  sends_values a m run set = rw (run, set)

  pub device_half :
      (m : Meter Real) (q : Mqtt.System) (s : Slave) (a : Answer Real) (fd : ℕ) (t : Bytes)
      (cs : List Bytes) (d : Device)
      → is_running m.handler ≡ true
      → m.device_callback ≡ true
      → m.serial_port ≡ some fd
      → a.polls ≡ polls_of cs
      → Arrives t cs
      → device_of project_version commit_hash t ≡ some d
      → a.json_dumped ≡ true
      → runs
          (state reading m [] q s)
          (metered (worked a) ∷ metered (worked a) ∷ metered (worked a) ∷ [])
        ≡ state parsing_values
            (emit (device_sent (some d)) (with_device m t d))
            (device_sent (some d) ∷ [])
            q
            s
  unfolding run
  device_half m q s a fd t cs d run set port polls arr parsed dumped =
      ap (λ (g : Gateway Real). one (one g (metered (worked a))) (metered (worked a)))
        (silent reading parsing_device m (record m { telegram = t }) q s a
          (work_at-reading ops cfg project_version commit_hash a m fd t cs run port polls arr) refl)
      ∙ ap (λ (g : Gateway Real). one g (metered (worked a)))
          (silent parsing_device sending_device (record m { telegram = t }) (with_device m t d) q s
            a
            (work_at-parsing_device ops cfg project_version commit_hash a
              (record m { telegram = t }) t d run refl arr.framed parsed dumped)
            refl)
      ∙ reporting sending_device parsing_values (with_device m t d) (device_sent (some d)) q s a
          (sends_device a (with_device m t d) run set)

  pub values_half :
      (m : Meter Real) (q : Mqtt.System) (s : Slave) (a : Answer Real) (t : Bytes) (v : Values Real)
      → is_running m.handler ≡ true
      → m.update_callback ≡ true
      → m.telegram ≡ t
      → IsFramed t
      → values_of ops cfg.grid a.indeterminate a.now t ≡ some v
      → runs (state parsing_values m [] q s) (metered (worked a) ∷ metered (worked a) ∷ [])
        ≡ state loop_head
            (emit (values_sent (some v)) (record m { values = some v }))
            (values_sent (some v) ∷ [])
            q
            s
  unfolding run
  values_half m q s a t v run set same framed parsed =
      ap (λ (g : Gateway Real). one g (metered (worked a)))
        (silent parsing_values sending_values m (record m { values = some v }) q s a
          (work_at-parsing_values ops cfg project_version commit_hash a m t v run same framed
            parsed)
          refl)
      ∙ reporting sending_values loop_head (record m { values = some v }) (values_sent (some v)) q s
          a (sends_values a (record m { values = some v }) run set)
