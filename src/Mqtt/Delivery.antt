-- ===== src/Mqtt/Delivery.antt =====
-- The worker hands every queued message to mosquitto once and in order, as long as no queue
-- overflows.
use mathlib.Core.List.{append-nil, append_assoc}
use smartmeter_gateway.Prelude.{
  ℕ, not, ◌&&◌, ◌||◌, ◌==◌, Bool, true, false, List, [], ◌∷◌, ◌++◌, ◌≡◌, refl, sym, ap, ◌∙◌, none,
  some, inl, inr, arith, Bool-cases, Bytes, bytes_eq, bytes_eq_iff, if◌then◌else◌,
}
use smartmeter_gateway.Mqtt.{
  Client, System, Worker, loop_head, waiting, woken, scan, sending, stopped, Event, published,
  connected_with, disconnected, shut_down, worked, queue, on_connect, on_disconnect, work_at,
  scan_topic, step, run, holds_lock, is_duplicate, is_full, publish, has_queued_messages,
}
use smartmeter_gateway.Mqtt.Publish.{queue-publish}
use smartmeter_gateway.Mqtt.Bounds.{queue-sent}

-- While the lock is given up for `mosquitto_publish`, its message is still the queue's front.
abbrev pub InFlight : Worker → Client → Type 0
InFlight (sending t m) c = (rest : List Bytes) × (queue t c ≡ m ∷ rest)
InFlight _ c = Unit

-- What mosquitto accepts on topic `j` in one stretch of the worker.
abbrev pub handed_at : Bytes → Worker → Bool → List Bytes
handed_at j (sending t m) true = if bytes_eq t j then m ∷ [] else []
handed_at j _ _ = []

abbrev pub handed : Bytes → System → Event → List Bytes
handed j s (worked rc) = handed_at j s.worker rc
handed j s _ = []

scan_topic-InFlight :
    (t : Bytes) (q : List Bytes) (s : System)
    → queue t s.client ≡ q
    → InFlight (scan_topic t q s).worker (scan_topic t q s).client
unfolding scan_topic
scan_topic-InFlight t [] s e = tt
scan_topic-InFlight t (m ∷ rest) s e = elim (Bool-cases s.client.connected) [
  | inl h ↦ rw h (rest, e)
  | inr h ↦ rw h tt
]

pub scan_topic-client :
    (t : Bytes) (q : List Bytes) (s : System) → (scan_topic t q s).client ≡ s.client
unfolding scan_topic
scan_topic-client t [] s = refl
scan_topic-client t (m ∷ rest) s = ground arith

work_at-queue :
    (w : Worker) (rc : Bool) (s : System) (j : Bytes)
    → InFlight w s.client
    → queue j s.client ≡ handed_at j w rc ++ queue j (work_at w rc s).client
unfolding work_at
work_at-queue loop_head rc s j f = refl
work_at-queue waiting rc s j f = ground arith
work_at-queue woken rc s j f = ground arith
work_at-queue (scan none) rc s j f = refl
work_at-queue (scan (some t)) rc s j f =
    ap (queue j) (sym (scan_topic-client t (queue t s.client) s))
work_at-queue (sending t m) true s j (rest, e) =
    ground (arith, queue-sent t j s.client, bytes_eq_iff t j)
work_at-queue (sending t m) false s j f = refl
work_at-queue stopped rc s j f = refl

work_at-InFlight :
    (w : Worker) (rc : Bool) (s : System)
    → w ≡ s.worker
    → InFlight w s.client
    → InFlight (work_at w rc s).worker (work_at w rc s).client
unfolding work_at
work_at-InFlight loop_head rc s e f = elim (Bool-cases s.running) [
  | inl h ↦ rw h tt
  | inr h ↦ rw h tt
]
work_at-InFlight waiting rc s e f =
    elim (Bool-cases
      ((s.client.connected && has_queued_messages s.client.topic_queues) || not s.running)) [
        | inl h ↦ rw h tt
        | inr h ↦ rw (h, ← e) tt
      ]
work_at-InFlight woken rc s e f = elim (Bool-cases (not s.running && not s.client.connected)) [
  | inl h ↦ rw h tt
  | inr h ↦ rw h tt
]
work_at-InFlight (scan none) rc s e f = tt
work_at-InFlight (scan (some t)) rc s e f = scan_topic-InFlight t (queue t s.client) s refl
work_at-InFlight (sending t m) true s e f = tt
work_at-InFlight (sending t m) false s e f = tt
work_at-InFlight stopped rc s e f = rw (← e) tt

module _ (hash : Bytes → ℕ) (queue_size : ℕ) where
  -- The messages that an event puts into the queue of topic `j`.
  abbrev pub queued : Bytes → System → Event → List Bytes
  queued j s (published p t) =
      if holds_lock s.worker
      then []
      else if is_duplicate hash queue_size p t s.client
      then []
      else if bytes_eq t j
      then p ∷ []
      else []
  queued j s _ = []

  -- A new message finds room in its queue.
  abbrev pub HasRoom : System → Event → Type 0
  HasRoom s (published p t) = is_full hash queue_size t s.client ≡ false
  HasRoom s _ = Unit

  publish-queue :
      (p t j : Bytes) (c : Client)
      → is_full hash queue_size t c ≡ false
      → queue j (publish hash queue_size p t c)
        ≡ queue j c
          ++ (if is_duplicate hash queue_size p t c
              then []
              else if bytes_eq t j
              then p ∷ []
              else [])
  publish-queue p t j c room = elim (Bool-cases (is_duplicate hash queue_size p t c)) [
    | inl same ↦ rw (queue-publish hash queue_size p t j c, same) (sym (append-nil (queue j c)))
    | inr new ↦
        rw (queue-publish hash queue_size p t j c, new)
          (ground (arith, room, bytes_eq_iff t j, append-nil (queue j c)))
  ]

  -- One step moves the messages of topic `j` from the publisher to the queue and from the queue to
  -- mosquitto.
  step-queue :
      (s : System) (e : Event) (j : Bytes)
      → InFlight s.worker s.client
      → HasRoom s e
      → queue j s.client ++ queued j s e ≡ handed j s e ++ queue j (step hash queue_size s e).client
  unfolding step
  step-queue s (published p t) j f room = elim (Bool-cases (holds_lock s.worker)) [
    | inl h ↦ rw h (append-nil (queue j s.client))
    | inr h ↦ rw h (sym (publish-queue p t j s.client room))
  ]
  step-queue s (connected_with rc) j f room = unfold on_connect in append-nil (queue j s.client)
  step-queue s disconnected j f room = unfold on_disconnect in append-nil (queue j s.client)
  step-queue s shut_down j f room = append-nil (queue j s.client)
  step-queue s (worked rc) j f room =
      append-nil (queue j s.client) ∙ work_at-queue s.worker rc s j f

  publish-InFlight :
      (p t : Bytes) (c : Client) (w : Worker)
      → is_full hash queue_size t c ≡ false
      → InFlight w c
      → InFlight w (publish hash queue_size p t c)
  publish-InFlight p t c (sending j m) room (rest, e) = (
    rest
        ++ (if is_duplicate hash queue_size p t c then [] else if bytes_eq t j then p ∷ [] else []),
    rw (publish-queue p t j c room, e),
  )
  publish-InFlight p t c loop_head room f = tt
  publish-InFlight p t c waiting room f = tt
  publish-InFlight p t c woken room f = tt
  publish-InFlight p t c (scan k) room f = tt
  publish-InFlight p t c stopped room f = tt

  flag-InFlight :
      (c : Client) (w : Worker) (b : Bool) → InFlight w c → InFlight w (record c { connected = b })
  flag-InFlight c (sending j m) b f = f
  flag-InFlight c loop_head b f = tt
  flag-InFlight c waiting b f = tt
  flag-InFlight c woken b f = tt
  flag-InFlight c (scan k) b f = tt
  flag-InFlight c stopped b f = tt

  pub step-InFlight :
      (s : System) (e : Event)
      → InFlight s.worker s.client
      → HasRoom s e
      → InFlight (step hash queue_size s e).worker (step hash queue_size s e).client
  unfolding step
  step-InFlight s (published p t) f room = elim (Bool-cases (holds_lock s.worker)) [
    | inl h ↦ rw h f
    | inr h ↦ rw h (publish-InFlight p t s.client s.worker room f)
  ]
  step-InFlight s (connected_with rc) f room =
      unfold on_connect in flag-InFlight s.client s.worker (rc == 0) f
  step-InFlight s disconnected f room =
      unfold on_disconnect in flag-InFlight s.client s.worker false f
  step-InFlight s shut_down f room = f
  step-InFlight s (worked rc) f room = work_at-InFlight s.worker rc s refl f

  -- The same along a run.
  abbrev pub HasRooms : System → List Event → Type 0
  HasRooms s [] = Unit
  HasRooms s (e ∷ es) = HasRoom s e × HasRooms (step hash queue_size s e) es

  abbrev pub all_queued : Bytes → System → List Event → List Bytes
  all_queued j s [] = []
  all_queued j s (e ∷ es) = queued j s e ++ all_queued j (step hash queue_size s e) es

  abbrev pub all_handed : Bytes → System → List Event → List Bytes
  all_handed j s [] = []
  all_handed j s (e ∷ es) = handed j s e ++ all_handed j (step hash queue_size s e) es

  -- From every state in which the message that the worker is handing over, if there is one, is the
  -- front of the queue of its topic, along every interleaving in which each new message finds room
  -- in its queue, the messages queued on a topic at the start or later are those that mosquitto
  -- accepted, in order, followed by those still queued at the end.
  pub run-queue :
      (s : System) (es : List Event) (j : Bytes)
      → InFlight s.worker s.client
      → HasRooms s es
      → queue j s.client ++ all_queued j s es
        ≡ all_handed j s es ++ queue j (run hash queue_size s es).client
  unfolding run
  run-queue s [] j f room = append-nil (queue j s.client)
  run-queue s (e ∷ es) j f room =
      sym (append_assoc (queue j s.client) (queued j s e) _)
      ∙ ap (λ (x : List Bytes). x ++ all_queued j (step hash queue_size s e) es)
          (step-queue s e j f room.0)
      ∙ append_assoc (handed j s e) _ _
      ∙ ap (λ (x : List Bytes). handed j s e ++ x)
          (run-queue (step hash queue_size s e) es j (step-InFlight s e f room.0) room.1)
      ∙ sym (append_assoc (handed j s e) _ _)
