-- ===== src/Mqtt/Lifetime.antt =====
-- The constructor and the destructor of src/mqtt_client.cpp: the calls of mosquitto and of the
-- worker thread, in their order. What mosquitto answers is an argument.
use smartmeter_gateway.Prelude.{Bool, true, false, List, [], ◌∷◌, ◌++◌, Option, none, some, Bytes}
use smartmeter_gateway.Prelude.Int.{ℤ}
use smartmeter_gateway.Config.{MqttConfig, ReconnectDelayConfig}

pub data Call : Type 0 where
  lib_init created callbacks_set loop_started worker_started : Call
  password_set : Bytes → Option Bytes → Call
  delay_set : ReconnectDelayConfig → Call
  connect_called : Bytes → ℤ → Call
  notified worker_joined disconnect_called loop_stopped destroyed lib_cleanup : Call

-- `mosquitto_new` gives a client, `mosquitto_loop_start` succeeds. A `mosquitto_connect_async` that
-- fails is only logged.
pub record Answers : Type 0 where
  pub client_created : Bool
  pub loop_succeeds : Bool

abbrev password_calls : Option Bytes → Option Bytes → List Call
password_calls none password = []
password_calls (some user) password = password_set user password ∷ []

abbrev settings : MqttConfig → List Call
settings cfg =
    password_calls cfg.user cfg.password ++ delay_set cfg.reconnect_delay ∷ callbacks_set ∷ []

-- The constructor from `mosquitto_loop_start` on.
unfoldable pub start_loop : MqttConfig → Bool → Bool × List Call
start_loop cfg true =
    (true, loop_started ∷ connect_called cfg.broker cfg.port ∷ worker_started ∷ [])
start_loop cfg false = (false, loop_started ∷ destroyed ∷ lib_cleanup ∷ [])

unfoldable pub create : MqttConfig → Answers → Bool → Bool × List Call
create cfg answers false = (false, [])
create cfg answers true =
    let (ok, calls) = start_loop cfg answers.loop_succeeds in (ok, settings cfg ++ calls)

-- The constructor: false where it throws.
unfoldable pub construct : MqttConfig → Answers → Bool × List Call
construct cfg answers =
    let (ok, calls) = create cfg answers answers.client_created in (ok, lib_init ∷ created ∷ calls)

-- The destructor; the constructor has set `mosq_`.
abbrev pub destroy : List Call
destroy = notified ∷ worker_joined ∷ disconnect_called ∷ loop_stopped ∷ destroyed ∷ lib_cleanup ∷ []
