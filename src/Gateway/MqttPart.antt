-- ===== src/Gateway/MqttPart.antt =====
-- What the whole program does to the MQTT client are events of that client.
use smartmeter_gateway.Prelude.{
  ℕ, Bool, true, false, List, [], ◌∷◌, ◌++◌, ◌≡◌, refl, ap, sym, ◌∙◌, Option, none, some, Bytes,
}
use smartmeter_gateway.Mqtt
use smartmeter_gateway.Mqtt.{Client, holds_lock}
use smartmeter_gateway.Mqtt.Stops.{work_at-running}
use smartmeter_gateway.Gateway.{
  Message, Broker, connected_with, disconnected, worked, publish_message, mqtt_event,
}

module _ (hash : Bytes → ℕ) (queue_size : ℕ) where
  -- One system is another behind some events of the MQTT client.
  abbrev pub IsMqttRun : Mqtt.System → Mqtt.System → Type 0
  IsMqttRun s s' = (es : List Mqtt.Event) × (s' ≡ Mqtt.run hash queue_size s es)

  mqtt_run-append :
      (s : Mqtt.System) (xs ys : List Mqtt.Event)
      → Mqtt.run hash queue_size s (xs ++ ys)
        ≡ Mqtt.run hash queue_size (Mqtt.run hash queue_size s xs) ys
  unfolding Mqtt.run
  mqtt_run-append s [] ys = refl
  mqtt_run-append s (x ∷ xs) ys = mqtt_run-append (Mqtt.step hash queue_size s x) xs ys

  pub IsMqttRun-trans : (s t u : Mqtt.System) → IsMqttRun s t → IsMqttRun t u → IsMqttRun s u
  IsMqttRun-trans s t u (es, p) (fs, q) = (
    es ++ fs,
    q ∙ ap (λ (x : Mqtt.System). Mqtt.run hash queue_size x fs) p ∙ sym (mqtt_run-append s es fs),
  )

  -- The flag goes down, or stays.
  pub flag-IsMqttRun :
      (s : Mqtt.System) (b b' : Bool)
      → (b ≡ false → b' ≡ false)
      → IsMqttRun (record s { running = b }) (record s { running = b' })
  unfolding Mqtt.run Mqtt.step
  flag-IsMqttRun s b false h = (Mqtt.shut_down ∷ [], refl)
  flag-IsMqttRun s true true h = ([], refl)
  flag-IsMqttRun s false true h = absurd (let e = h refl in cc)

  -- A callback publishes, while the worker does not hold the lock.
  pub publish_message-IsMqttRun :
      (s : Mqtt.System) (o : Option Message)
      → holds_lock s.worker ≡ false
      → IsMqttRun s (record s { client = publish_message hash queue_size o s.client })
  unfolding publish_message Mqtt.run Mqtt.step
  publish_message-IsMqttRun s none free = ([], refl)
  publish_message-IsMqttRun s (some m) free = (Mqtt.published m.payload m.topic ∷ [], rw free)

  pub broker-running :
      (s : Mqtt.System) (b : Broker)
      → (Mqtt.step hash queue_size s (mqtt_event b)).running ≡ s.running
  unfolding Mqtt.step
  broker-running s (connected_with rc) = refl
  broker-running s disconnected = refl
  broker-running s (worked rc) = work_at-running s.worker rc s

  pub broker-IsMqttRun :
      (s : Mqtt.System) (b : Broker)
      → IsMqttRun s (record (Mqtt.step hash queue_size s (mqtt_event b)) { running = s.running })
  unfolding Mqtt.run
  broker-IsMqttRun s b = (
    mqtt_event b ∷ [],
    ap (λ (r : Bool). record (Mqtt.step hash queue_size s (mqtt_event b)) { running = r })
        (sym (broker-running s b)),
  )
