-- ===== src/Mqtt/Drained.antt =====
-- The worker of src/mqtt_client.cpp empties the queues once the broker is connected and mosquitto
-- accepts what it is given.
use smartmeter_gateway.Prelude.{
  ℕ, true, false, List, [], ◌∷◌, ◌≡◌, refl, ap, Option, none, some, arith, Bytes, Bool-cases, inl,
  inr, bytes_eq,
}
use smartmeter_gateway.SortedMap.{lookup, get_or, first_key, get_or-absent}
use smartmeter_gateway.SortedMap.Order.{IsOrdered, lookup-first_key, lookup-first_key-none}
use smartmeter_gateway.Mqtt.{
  Client, System, Worker, loop_head, waiting, woken, scan, sending, stopped, Event, sent, work_at,
  run, start, has_queued_messages,
}
use smartmeter_gateway.Mqtt.Sound.{IsNotStopped, run-IsSound}
use smartmeter_gateway.Mqtt.Flush.{
  at, AllEmpty, IsReady, Drains, Drains-turn, Drains-none, scan-Drains, sent-IsReady,
  accepted_turns, EmptyBelow,
}

has_queued_messages-none :
    (j : Bytes) (m : List (Bytes × List Bytes)) → has_queued_messages m ≡ false → get_or j m [] ≡ []
unfolding has_queued_messages get_or lookup
has_queued_messages-none j [] e = refl
has_queued_messages-none j ((i, []) ∷ m) e = elim (Bool-cases (bytes_eq i j)) [
  | inl h ↦ rw (get_or, h) refl
  | inr h ↦ rw (get_or, h) (has_queued_messages-none j m e)
]
has_queued_messages-none j ((i, x ∷ xs) ∷ m) e = absurd (ground arith)

AllEmpty-first_key-none : (c : Client) → first_key c.topic_queues ≡ none → AllEmpty c
AllEmpty-first_key-none c e j =
    get_or-absent j [] c.topic_queues (lookup-first_key-none j c.topic_queues e)

EmptyBelow-first_key :
    (u : Bytes) (c : Client)
    → IsOrdered c.topic_queues
    → first_key c.topic_queues ≡ some u
    → EmptyBelow u c
EmptyBelow-first_key u c o e j h =
    get_or-absent j [] c.topic_queues (lookup-first_key u j c.topic_queues o e h)

running-at : (s : System) → s.running ≡ true → s ≡ at s.client s.worker
running-at s r = ap (λ b. record s { running = b }) r

module _ (hash : Bytes → ℕ) (queue_size : ℕ) where
  abbrev Drained : Worker → Type 0
  Drained w = (c : Client) → IsReady c → Drains hash queue_size (at c w)

  turn-woken :
      (c : Client)
      → c.connected ≡ true
      → work_at woken true (at c woken) ≡ at c (scan (first_key c.topic_queues))
  unfolding work_at
  turn-woken c h = rw h refl

  turn-waiting :
      (c : Client)
      → c.connected ≡ true
      → has_queued_messages c.topic_queues ≡ true
      → work_at waiting true (at c waiting) ≡ at c woken
  unfolding work_at
  turn-waiting c h q = rw (h, q) refl

  woken-Drains : (c : Client) → IsReady c → Drains hash queue_size (at c woken)
  woken-Drains c r = Drains-turn hash queue_size (at c woken) (rw (turn-woken c r.0) (first _ refl))
    where
      ends : (d : Client) → AllEmpty d → Drains hash queue_size (at d (scan none))
      ends d a = Drains-none hash queue_size (at d (scan none)) a

      first :
          (o : Option Bytes) → first_key c.topic_queues ≡ o → Drains hash queue_size (at c (scan o))
      first none e = ends c (AllEmpty-first_key-none c e)
      first (some u) e =
          scan-Drains hash queue_size u c r (λ d s f. ends d (f (EmptyBelow-first_key u c r.1 e)))

  waiting-Drains : (c : Client) → IsReady c → Drains hash queue_size (at c waiting)
  waiting-Drains c r = elim (Bool-cases (has_queued_messages c.topic_queues)) [
    | inl h ↦
        Drains-turn hash queue_size (at c waiting) (rw (turn-waiting c r.0 h) (woken-Drains c r))
    | inr h ↦
        Drains-none hash queue_size (at c waiting)
          (λ j. has_queued_messages-none j c.topic_queues h)
  ]

  head-Drains : (c : Client) → IsReady c → Drains hash queue_size (at c loop_head)
  unfolding work_at
  head-Drains c r = Drains-turn hash queue_size (at c loop_head) (waiting-Drains c r)

  end-Drains : (c : Client) → IsReady c → Drains hash queue_size (at c (scan none))
  unfolding work_at
  end-Drains c r = Drains-turn hash queue_size (at c (scan none)) (head-Drains c r)

  at-Drains :
      (w : Worker) (c : Client) → IsNotStopped w → IsReady c → Drains hash queue_size (at c w)
  unfolding work_at
  at-Drains loop_head c n r = head-Drains c r
  at-Drains waiting c n r = waiting-Drains c r
  at-Drains woken c n r = woken-Drains c r
  at-Drains (scan none) c n r = end-Drains c r
  at-Drains (scan (some t)) c n r = scan-Drains hash queue_size t c r (λ d s f. end-Drains d s)
  at-Drains (sending t p) c n r =
      Drains-turn hash queue_size (at c (sending t p))
        (scan-Drains hash queue_size t (sent t c) (sent-IsReady t c r) (λ d s f. end-Drains d s))
  at-Drains stopped c n r = absurd n

  -- In every state that the started MQTT client reaches in which it runs and the broker is
  -- connected, if mosquitto then accepts every message it is given and nothing else happens, some
  -- number of turns of the worker leaves the queue of every topic empty.
  pub run-AllEmpty :
      (before : List Event)
      → (run hash queue_size start before).running ≡ true
      → (run hash queue_size start before).client.connected ≡ true
      → (n : ℕ) × AllEmpty
          (run hash queue_size (run hash queue_size start before) (accepted_turns n)).client
  run-AllEmpty before r h =
      let sound = run-IsSound hash queue_size start before (tt, λ _. tt) in
      rw (running-at (run hash queue_size start before) r) (
        at-Drains (run hash queue_size start before).worker
          (run hash queue_size start before).client (sound.1 r) (h, sound.0))
