-- ===== src/Mqtt/Sound.antt =====
-- What holds in every state of the publisher of src/mqtt_client.cpp: its map of queues is in key
-- order, and its worker has not ended before the shutdown.
use smartmeter_gateway.Prelude.{
  ℕ, Bool, true, false, not, ◌&&◌, ◌||◌, List, [], ◌∷◌, ◌≡◌, refl, none, some, Bytes, Bool-cases,
  inl, inr, if_both,
}
use smartmeter_gateway.SortedMap.Order.{IsOrdered, insert-IsOrdered}
use smartmeter_gateway.Mqtt.{
  Client, System, Worker, loop_head, waiting, woken, scan, sending, stopped, Event, published,
  connected_with, disconnected, shut_down, worked, queue, sent, work_at, scan_topic, step, run,
  has_queued_messages, publish, push, make_room, touch_count, is_duplicate, is_full, on_connect,
  on_disconnect, holds_lock,
}

abbrev pub IsNotStopped : Worker → Type 0
IsNotStopped stopped = ⊥
IsNotStopped _ = Unit

abbrev pub IsSound : System → Type 0
IsSound s = IsOrdered s.client.topic_queues × (s.running ≡ true → IsNotStopped s.worker)

abbrev HasOrder : Client → Type 0
HasOrder c = IsOrdered c.topic_queues

scan_topic-IsSound :
    (t : Bytes) (q : List Bytes) (s : System) → IsSound s → IsSound (scan_topic t q s)
unfolding scan_topic
scan_topic-IsSound t [] s i = (i.0, λ _. tt)
scan_topic-IsSound t (p ∷ rest) s i =
    if_both IsSound s.client.connected _ _ (i.0, λ _. tt) (i.0, λ _. tt)

work_at-IsSound :
    (w : Worker) (rc : Bool) (s : System) → w ≡ s.worker → IsSound s → IsSound (work_at w rc s)
unfolding work_at sent
work_at-IsSound loop_head rc s e i = elim (Bool-cases s.running) [
  | inl h ↦ (i.0, rw h (λ _. tt))
  | inr h ↦ (i.0, λ r. absurd cc)
]
work_at-IsSound waiting rc s e i =
    if_both IsSound
      ((s.client.connected && has_queued_messages s.client.topic_queues) || not s.running) _ _
      (i.0, λ _. tt) i
work_at-IsSound woken rc s e i = elim (Bool-cases s.running) [
  | inl h ↦ rw h (i.0, λ _. tt)
  | inr h ↦
      if_both IsSound (not s.running && not s.client.connected) _ _ (i.0, λ r. absurd cc)
        (i.0, λ _. tt)
]
work_at-IsSound (scan none) rc s e i = (i.0, λ _. tt)
work_at-IsSound (scan (some t)) rc s e i = scan_topic-IsSound t (queue t s.client) s i
work_at-IsSound (sending t p) true s e i = (insert-IsOrdered t _ s.client.topic_queues i.0, λ _. tt)
work_at-IsSound (sending t p) false s e i = (i.0, λ _. tt)
work_at-IsSound stopped rc s e i = i

module _ (hash : Bytes → ℕ) (queue_size : ℕ) where
  make_room-HasOrder :
      (t : Bytes) (c : Client) → HasOrder c → HasOrder (make_room hash queue_size t c)
  unfolding make_room
  make_room-HasOrder t c o =
      if_both HasOrder (is_full hash queue_size t c) _ _ (insert-IsOrdered t _ c.topic_queues o) o

  push-HasOrder : (p t : Bytes) (c : Client) → HasOrder c → HasOrder (push hash queue_size p t c)
  unfolding push
  push-HasOrder p t c o = insert-IsOrdered t _ c.topic_queues o

  touch_count-HasOrder :
      (t : Bytes) (c : Client) → HasOrder c → HasOrder (touch_count hash queue_size t c)
  unfolding touch_count
  touch_count-HasOrder t c o = if_both HasOrder c.connected _ _ o o

  publish-HasOrder :
      (p t : Bytes) (c : Client) → HasOrder c → HasOrder (publish hash queue_size p t c)
  unfolding publish
  publish-HasOrder p t c o =
      if_both HasOrder (is_duplicate hash queue_size p t c) _ _ o
        (touch_count-HasOrder t _ (push-HasOrder p t _ (make_room-HasOrder t _ o)))

  step-IsSound : (s : System) (e : Event) → IsSound s → IsSound (step hash queue_size s e)
  unfolding step on_connect on_disconnect
  step-IsSound s (published p t) i =
      if_both IsSound (holds_lock s.worker) s _ i (publish-HasOrder p t s.client i.0, i.1)
  step-IsSound s (connected_with rc) i = i
  step-IsSound s disconnected i = i
  step-IsSound s shut_down i = (i.0, λ e. absurd cc)
  step-IsSound s (worked rc) i = work_at-IsSound s.worker rc s refl i

  pub run-IsSound : (s : System) (es : List Event) → IsSound s → IsSound (run hash queue_size s es)
  unfolding run
  run-IsSound s [] i = i
  run-IsSound s (e ∷ es) i = run-IsSound (step hash queue_size s e) es (step-IsSound s e i)
