-- ===== src/Mqtt/Stops.antt =====
-- The worker of src/mqtt_client.cpp ends once the program is shutting down.
use smartmeter_gateway.Prelude.{
  ℕ, ◌+◌, ◌-◌, ◌*◌, ◌≤◌, ◌<◌, Bool, true, false, ◌&&◌, List, [], ◌∷◌, ◌≡◌, refl, ◌∙◌, Option, none,
  some, arith, Bytes, length, Bool-cases, inl, inr, ◌==◌,
}
use smartmeter_gateway.SortedMap.{get_or, first_key, next_key, get_or-insert_self}
use smartmeter_gateway.Mqtt.{
  Client, System, Worker, loop_head, waiting, woken, scan, sending, stopped, Event, published,
  connected_with, disconnected, shut_down, worked, queue, sent, on_connect, on_disconnect, work_at,
  scan_topic, step, run, start, has_queued_messages,
}
use smartmeter_gateway.Mqtt.Pending.{IsPending, work_at-Keeps, flag-IsPending, run-Keeps}
use smartmeter_gateway.Mqtt.Behind.{
  Queues, total, behind, behind-insert, behind-next_key, behind-first_key,
}

-- How many stretches the worker has at most before it ends: two for each queued message, one for
-- each topic and five besides, less where it is on its way.
abbrev pub left_at : Worker → Queues → ℕ
left_at stopped m = 0
left_at loop_head m = 1
left_at (scan none) m = 2
left_at (scan (some t)) m = 3 + 2 * length (get_or t m []) + behind t m
left_at (sending t p) m = 2 + 2 * length (get_or t m []) + behind t m
left_at woken m = 4 + total m
left_at waiting m = 5 + total m

abbrev pub left : System → ℕ
left s = left_at s.worker s.client.topic_queues

left_next :
    (t : Bytes) (m : Queues) (o : Option Bytes)
    → next_key t m ≡ o
    → left_at (scan o) m ≤ 2 + behind t m
left_next t m none e = omega arith
left_next t m (some j) e = omega (arith, behind-next_key t j m e)

left_first : (m : Queues) (o : Option Bytes) → first_key m ≡ o → left_at (scan o) m ≤ 2 + total m
left_first m none e = omega arith
left_first m (some j) e = omega (arith, behind-first_key j m e)

left-sent :
    (t p : Bytes) (q : List Bytes) (c : Client)
    → queue t c ≡ q
    → 0 < length q
    → left_at (scan (some t)) (sent t c).topic_queues < left_at (sending t p) c.topic_queues
unfolding sent
left-sent t p [] c e k = absurd (omega arith)
left-sent t p (x ∷ rest) c e k =
    rw (e, get_or-insert_self t rest [] c.topic_queues, behind-insert t rest c.topic_queues)
      (omega arith)

left-scan_topic :
    (t : Bytes) (q : List Bytes) (s : System)
    → queue t s.client ≡ q
    → left (scan_topic t q s) < left_at (scan (some t)) s.client.topic_queues
unfolding scan_topic
left-scan_topic t [] s e = let next = left_next t s.client.topic_queues _ refl in omega arith
left-scan_topic t (p ∷ rest) s e = elim (Bool-cases s.client.connected) [
  | inl h ↦ rw h (omega arith)
  | inr h ↦ rw h (let next = left_next t s.client.topic_queues _ refl in omega arith)
]

-- Each stretch brings the end nearer.
left-work_at :
    (w : Worker) (rc : Bool) (s : System)
    → w ≡ s.worker
    → s.running ≡ false
    → IsPending w s.client
    → left (work_at w rc s) ≤ left_at w s.client.topic_queues - 1
unfolding work_at
left-work_at loop_head rc s e r f = rw r (omega arith)
left-work_at waiting rc s e r f =
    elim (Bool-cases (s.client.connected && has_queued_messages s.client.topic_queues)) [
      | inl h ↦ rw h (omega arith)
      | inr h ↦ rw (h, r) (omega arith)
    ]
left-work_at woken rc s e r f = elim (Bool-cases s.client.connected) [
  | inl h ↦ rw (r, h) (let first = left_first s.client.topic_queues _ refl in omega arith)
  | inr h ↦ rw (r, h) (omega arith)
]
left-work_at (scan none) rc s e r f = omega arith
left-work_at (scan (some t)) rc s e r f =
    let next = left-scan_topic t (queue t s.client) s refl in omega arith
left-work_at (sending t p) true s e r f = let next = left-sent t p _ s.client refl f in omega arith
left-work_at (sending t p) false s e r f =
    let next = left_next t s.client.topic_queues _ refl in omega arith
left-work_at stopped rc s e r f = rw (← e) (omega arith)

scan_topic-running :
    (t : Bytes) (q : List Bytes) (s : System) → (scan_topic t q s).running ≡ s.running
unfolding scan_topic
scan_topic-running t [] s = refl
scan_topic-running t (p ∷ rest) s = ground arith

pub work_at-running : (w : Worker) (rc : Bool) (s : System) → (work_at w rc s).running ≡ s.running
unfolding work_at
work_at-running loop_head rc s = refl
work_at-running waiting rc s = ground arith
work_at-running woken rc s = ground arith
work_at-running (scan none) rc s = refl
work_at-running (scan (some t)) rc s = scan_topic-running t (queue t s.client) s
work_at-running (sending t p) rc s = ground arith
work_at-running stopped rc s = refl

-- A schedule of the other threads in which nothing is published.
abbrev pub AreQuiet : List Event → Type 0
AreQuiet [] = Unit
AreQuiet (published p t ∷ es) = ⊥
AreQuiet (e ∷ es) = AreQuiet es

-- How often the worker is scheduled.
abbrev pub turns : List Event → ℕ
turns [] = 0
turns (worked rc ∷ es) = 1 + turns es
turns (e ∷ es) = turns es

ended : (w : Worker) (m : Queues) → left_at w m ≤ 0 → w ≡ stopped
ended stopped m h = refl
ended loop_head m h = absurd (omega arith)
ended waiting m h = absurd (omega arith)
ended woken m h = absurd (omega arith)
ended (scan none) m h = absurd (omega arith)
ended (scan (some t)) m h = absurd (omega arith)
ended (sending t p) m h = absurd (omega arith)

module _ (hash : Bytes → ℕ) (queue_size : ℕ) where
  stops :
      (s : System) (es : List Event)
      → s.running ≡ false
      → IsPending s.worker s.client
      → AreQuiet es
      → left s ≤ turns es
      → (run hash queue_size s es).worker ≡ stopped
  unfolding run step on_connect on_disconnect
  stops s [] r f q l = ended s.worker s.client.topic_queues l
  stops s (published p t ∷ es) r f q l = absurd q
  stops s (connected_with rc ∷ es) r f q l =
      stops (record s { client = record s.client { connected = rc == 0 } }) es r
        (flag-IsPending s.client s.worker (rc == 0) f) q l
  stops s (disconnected ∷ es) r f q l =
      stops (record s { client = record s.client { connected = false } }) es r
        (flag-IsPending s.client s.worker false f) q l
  stops s (shut_down ∷ es) r f q l = stops (record s { running = false }) es refl f q l
  stops s (worked rc ∷ es) r f q l =
      stops (work_at s.worker rc s) es (work_at-running s.worker rc s ∙ r)
        (work_at-Keeps s.worker rc s refl f) q
        (let less = left-work_at s.worker rc s refl r f in omega arith)

  -- In every state that the MQTT client reaches from its start, if the program is shutting down,
  -- the worker ends once it has been scheduled two times for each queued message, once for each
  -- topic and five times more, or less where it is on its way, however mosquitto answers and the
  -- broker connects and disconnects, as long as nothing more is published.
  pub run-stopped :
      (before es : List Event)
      → (run hash queue_size start before).running ≡ false
      → AreQuiet es
      → left (run hash queue_size start before) ≤ turns es
      → (run hash queue_size (run hash queue_size start before) es).worker ≡ stopped
  run-stopped before es r q l =
      stops (run hash queue_size start before) es r (run-Keeps hash queue_size start before tt) q l
