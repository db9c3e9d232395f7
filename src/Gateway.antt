-- ===== src/Gateway.antt =====
-- The whole program behind its start: the callbacks that src/main.cpp installs hand what the master
-- reports to the MQTT client and to the slave. The three parts share one shutdown flag, kept with
-- the master; the other two get it before each of their steps. `dump` is nlohmann's, a parameter.
pub mod Queues
pub mod Faithful
pub mod Consistent
pub mod Stages
pub mod Halves
pub mod MqttPart
pub mod Parts
pub mod Ending
pub mod Flushed
pub mod Accepting
mod Served
pub mod Delivered
pub mod Tests
mod DeliveryTests
mod EndingTests
use smartmeter_gateway.Prelude.{
  take, reverse, ℕ, zero, suc, ◌-◌, Bool, true, false, List, [], ◌∷◌, ◌++◌, Option, none, some,
  if◌then◌else◌, Bytes, codes, length,
}
use smartmeter_gateway.Real.{RealOps}
use smartmeter_gateway.Config.{MeterMasterConfig}
use smartmeter_gateway.MeterTypes.{Values, Device}
use smartmeter_gateway.SignalHandler.{SignalHandler, is_running}
use smartmeter_gateway.Master.Json.{Object, to_map, values_json, device_json}
use smartmeter_gateway.Master.Port.{Effect, opened, closed, availability, device_sent, values_sent}
use smartmeter_gateway.Master.Loop
use smartmeter_gateway.Mqtt
use smartmeter_gateway.Mqtt.{Client, holds_lock, publish}
use smartmeter_gateway.Slave.{Slave, update_values, update_device}

-- What a callback passes on: a payload and its topic.
pub record Message : Type 0 where
  pub payload : Bytes
  pub topic : Bytes

pub data Broker : Type 0 where
  connected_with : ℕ → Broker
  disconnected : Broker
  worked : Bool → Broker

abbrev pub mqtt_event : Broker → Mqtt.Event
mqtt_event (connected_with rc) = Mqtt.connected_with rc
mqtt_event disconnected = Mqtt.disconnected
mqtt_event (worked rc) = Mqtt.worked rc

-- One callback runs at a time; `pending` are the calls that the last step of the master has made
-- and that have not returned. The flag of `called` says whether `modbus_mapping_new` succeeds.
pub data Event (R : Type 0) : Type 0 where
  metered : Loop.Event R → Event R
  called : Bool → Event R
  brokered : Broker → Event R

pub record Gateway (R : Type 0) : Type 0 where
  pub master : Loop.System R
  pub pending : List (Effect R)
  pub mqtt : Mqtt.System
  pub slave : Option Slave

-- The worker thread of the master.
abbrev pub is_work : {R : Type 0} → Loop.Event R → Bool
is_work (Loop.worked a) = true
is_work _ = false

-- Opening and closing the port are no calls of a callback.
abbrev pub calls : {R : Type 0} → List (Effect R) → List (Effect R)
calls [] = []
calls (opened fd ∷ es) = calls es
calls (closed fd ∷ es) = calls es
calls (e ∷ es) = e ∷ calls es

-- The calls that a step has added, the first one first; the master lists the latest first.
abbrev pub added : {R : Type 0} → List (Effect R) → List (Effect R) → List (Effect R)
added old new = calls (reverse (take (length new - length old) new))

module _ (ops : RealOps) (dump : Object ops.Real → Bytes) (topic : Bytes) where
  unfoldable pub message : Effect ops.Real → Option Message
  message (values_sent (some v)) =
      some (record { payload = dump (values_json ops v); topic = topic ++ codes "/values" })
  message (device_sent (some d)) =
      some
        (record { payload = dump (to_map (device_json ops d)); topic = topic ++ codes "/device" })
  message (availability true) =
      some (record { payload = codes "connected"; topic = topic ++ codes "/availability" })
  message (availability false) =
      some (record { payload = codes "disconnected"; topic = topic ++ codes "/availability" })
  message _ = none

-- The call of the slave behind that, if there is a slave.
unfoldable pub update_slave :
    (ops : RealOps) → Bool → Effect ops.Real → SignalHandler → Slave → Slave
update_slave ops allocated (values_sent (some v)) h s =
    update_values ops allocated v (record s { handler = h })
update_slave ops allocated (device_sent (some d)) h s =
    update_device ops allocated d (record s { handler = h })
update_slave ops allocated e h s = record s { handler = h }

unfoldable pub publish_message : (Bytes → ℕ) → ℕ → Option Message → Client → Client
publish_message hash queue_size none c = c
publish_message hash queue_size (some m) c = publish hash queue_size m.payload m.topic c

abbrev pub handler_of : {R : Type 0} → Gateway R → SignalHandler
handler_of g = g.master.meter.handler

abbrev pub with_handler : {R : Type 0} → SignalHandler → Gateway R → Gateway R
with_handler h g = record g {
  master = record g.master { meter = record g.master.meter { handler = h } };
}

-- The slave's part of a callback, which may set the shutdown flag.
unfoldable pub pass_on :
    (ops : RealOps) → Bool → Effect ops.Real → Option Slave → Gateway ops.Real → Gateway ops.Real
pass_on ops allocated e none g = g
pass_on ops allocated e (some s) g =
    let s' = update_slave ops allocated e (handler_of g) s in
    with_handler s'.handler (record g { slave = some s' })

-- The master's thread does not go on before its callbacks have returned.
abbrev pub is_busy : {R : Type 0} → List (Effect R) → Loop.Event R → Bool
is_busy [] e = false
is_busy (x ∷ xs) e = is_work e

module _ (ops : RealOps) (cfg : MeterMasterConfig ops.Real)
    (project_version commit_hash : Bytes) where
  unfoldable pub meter_step : Loop.Event ops.Real → Gateway ops.Real → Gateway ops.Real
  meter_step e g =
      let next = Loop.step ops cfg project_version commit_hash g.master e in
      record g {
        master = next;
        pending = g.pending ++ added g.master.meter.effects next.meter.effects;
      }

  module _ (dump : Object ops.Real → Bytes) (topic : Bytes) (hash : Bytes → ℕ)
      (queue_size : ℕ) where
    open ops use {Real}

    -- A callback waits while the worker of the MQTT client holds the lock.
    unfoldable pub call : Bool → List (Effect Real) → Gateway Real → Gateway Real
    call allocated [] g = g
    call allocated (e ∷ rest) g =
        if holds_lock g.mqtt.worker
        then g
        else pass_on ops allocated e g.slave (record g {
          pending = rest;
          mqtt = record g.mqtt {
            client = publish_message hash queue_size (message ops dump topic e) g.mqtt.client;
          };
        })

    unfoldable pub step : Gateway Real → Event Real → Gateway Real
    unfolding call
    step g (metered e) = if is_busy g.pending e then g else meter_step e g
    step g (called allocated) = call allocated g.pending g
    step g (brokered b) = record g {
      mqtt =
          Mqtt.step hash queue_size (record g.mqtt { running = is_running (handler_of g) })
            (mqtt_event b);
    }

    unfoldable pub run : Gateway Real → List (Event Real) → Gateway Real
    run g [] = g
    run g (e ∷ es) = run (step g e) es

-- The state behind `main`'s `try` block.
abbrev pub started : {R : Type 0} → Option Slave → Gateway R
started slave = record { master = Loop.start; pending = []; mqtt = Mqtt.start; slave = slave }
