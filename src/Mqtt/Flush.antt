-- ===== src/Mqtt/Flush.antt =====
-- One pass of the worker of src/mqtt_client.cpp over the queues, while the broker stays connected
-- and mosquitto accepts.
use smartmeter_gateway.Prelude.{
  ℕ, zero, suc, ◌<◌, true, List, [], ◌∷◌, ◌≡◌, refl, ◌∙◌, Option, none, some, arith, Bytes,
  Bool-cases, inl, inr, bytes_eq, bytes_eq_iff, bytes_eq_refl, bytes_lt,
}
use smartmeter_gateway.SortedMap.{next_key, get_or-absent}
use smartmeter_gateway.SortedMap.Order.{
  IsOrdered, insert-IsOrdered, bytes_lt_total, bytes_lt-eq, lookup-next_key, lookup-next_key-none,
}
use smartmeter_gateway.Mqtt.{
  Client, System, Worker, scan, sending, Event, worked, queue, sent, work_at, scan_topic, step, run,
}
use smartmeter_gateway.Mqtt.Bounds.{queue-sent}
use smartmeter_gateway.Mqtt.Behind.{behind, behind-insert, behind-next_key}

abbrev pub at : Client → Worker → System
at c w = record { client = c; running = true; worker = w }

-- The worker is scheduled so often, and mosquitto accepts whatever it is given.
abbrev pub accepted_turns : ℕ → List Event
accepted_turns zero = []
accepted_turns (suc n) = worked true ∷ accepted_turns n

abbrev pub AllEmpty : Client → Type 0
AllEmpty c = (j : Bytes) → queue j c ≡ []

-- The queues of the topics before a key are empty.
abbrev pub EmptyBelow : Bytes → Client → Type 0
EmptyBelow t c = (j : Bytes) → bytes_lt j t ≡ true → queue j c ≡ []

-- The broker is connected, and the map of the queues is in key order.
abbrev pub IsReady : Client → Type 0
IsReady c = (c.connected ≡ true) × IsOrdered c.topic_queues

pub sent-IsReady : (t : Bytes) (c : Client) → IsReady c → IsReady (sent t c)
unfolding sent
sent-IsReady t c (h, o) = (h, insert-IsOrdered t _ c.topic_queues o)

sent-EmptyBelow : (t : Bytes) (c : Client) → EmptyBelow t c → EmptyBelow t (sent t c)
sent-EmptyBelow t c b j h = ground (arith, queue-sent t j c, bytes_lt-eq j t, b j h)

behind-sent : (t : Bytes) (c : Client) → behind t (sent t c).topic_queues ≡ behind t c.topic_queues
unfolding sent
behind-sent t c = behind-insert t _ c.topic_queues

-- Once the queue at a key is empty, the emptied part reaches to the next key, or to the end.
EmptyBelow-next_key :
    (t u : Bytes) (c : Client)
    → IsOrdered c.topic_queues
    → queue t c ≡ []
    → next_key t c.topic_queues ≡ some u
    → EmptyBelow t c
    → EmptyBelow u c
EmptyBelow-next_key t u c o e n b j h = elim (Bool-cases (bytes_lt j t)) [
  | inl l ↦ b j l
  | inr l ↦ elim (Bool-cases (bytes_eq t j)) [
    | inl same ↦ rw (← (bytes_eq_iff t j).0 same) e
    | inr other ↦
        let absent = lookup-next_key t u j c.topic_queues o n (bytes_lt_total t j other l) h in
        get_or-absent j [] c.topic_queues absent
  ]
]

AllEmpty-next_key-none :
    (t : Bytes) (c : Client)
    → queue t c ≡ []
    → next_key t c.topic_queues ≡ none
    → EmptyBelow t c
    → AllEmpty c
AllEmpty-next_key-none t c e n b j = elim (Bool-cases (bytes_lt j t)) [
  | inl l ↦ b j l
  | inr l ↦ elim (Bool-cases (bytes_eq t j)) [
    | inl same ↦ rw (← (bytes_eq_iff t j).0 same) e
    | inr other ↦
        let absent = lookup-next_key-none t j c.topic_queues n (bytes_lt_total t j other l) in
        get_or-absent j [] c.topic_queues absent
  ]
]

module _ (hash : Bytes → ℕ) (queue_size : ℕ) where
  -- After some number of turns all queues are empty.
  abbrev pub Drains : System → Type 0
  Drains s = (n : ℕ) × AllEmpty (run hash queue_size s (accepted_turns n)).client

  pub Drains-turn : (s : System) → Drains (work_at s.worker true s) → Drains s
  unfolding run step
  Drains-turn s (n, e) = (suc n, e)

  pub Drains-none : (s : System) → AllEmpty s.client → Drains s
  unfolding run
  Drains-none s e = (0, e)

  turn-message :
      (t p : Bytes) (rest : List Bytes) (c : Client)
      → queue t c ≡ p ∷ rest
      → c.connected ≡ true
      → work_at (scan (some t)) true (at c (scan (some t))) ≡ at c (sending t p)
  unfolding work_at scan_topic
  turn-message t p rest c e h = rw (e, h) refl

  turn-empty :
      (t : Bytes) (c : Client)
      → queue t c ≡ []
      → work_at (scan (some t)) true (at c (scan (some t)))
        ≡ at c (scan (next_key t c.topic_queues))
  unfolding work_at scan_topic
  turn-empty t c e = rw e refl

  -- The worker sends what waits on one topic.
  topic-Drains :
      (t : Bytes) (q : List Bytes) (c : Client)
      → queue t c ≡ q
      → IsReady c
      → ((d : Client)
          → IsReady d
          → queue t d ≡ []
          → behind t d.topic_queues ≡ behind t c.topic_queues
          → (EmptyBelow t c → EmptyBelow t d)
          → Drains (at d (scan (some t))))
      → Drains (at c (scan (some t)))
  unfolding work_at
  topic-Drains t [] c e r f = f c r e refl (λ b. b)
  topic-Drains t (p ∷ rest) c e r f = Drains-turn (at c (scan (some t))) (
      rw (turn-message t p rest c e r.0) (
        Drains-turn (at c (sending t p)) (
          topic-Drains t rest (sent t c) (rw (queue-sent t t c, bytes_eq_refl t, e) refl)
            (sent-IsReady t c r)
            (λ d s n k b. f d s n (k ∙ behind-sent t c) (λ a. b (sent-EmptyBelow t c a))))))

  -- What follows a pass, which leaves every queue empty if those before its first topic are.
  abbrev pub Ends : Bytes → Client → Type 0
  Ends t c = (d : Client) → IsReady d → (EmptyBelow t c → AllEmpty d) → Drains (at d (scan none))

  abbrev Goes : ℕ → Type 0
  Goes n =
      (t : Bytes) (c : Client)
      → behind t c.topic_queues < n
      → IsReady c
      → Ends t c
      → Drains (at c (scan (some t)))

  pass-next :
      (n : ℕ) (t : Bytes) (c : Client) (o : Option Bytes)
      → next_key t c.topic_queues ≡ o
      → queue t c ≡ []
      → behind t c.topic_queues < suc n
      → IsReady c
      → Goes n
      → Ends t c
      → Drains (at c (scan o))
  pass-next n t c none e q l r go f = f c r (AllEmpty-next_key-none t c q e)
  pass-next n t c (some u) e q l r go f =
      go u c (let less = behind-next_key t u c.topic_queues e in omega arith) r
        (λ d s b. f d s (λ a. b (EmptyBelow-next_key t u c r.1 q e a)))

  pass : (n : ℕ) → Goes n
  pass zero t c l r f = absurd (omega arith)
  pass (suc n) t c l r f = topic-Drains t (queue t c) c refl r (λ d s e k b.
      Drains-turn (at d (scan (some t))) (
        rw (turn-empty t d e)
          (pass-next n t d _ refl e (rw k l) s (pass n) (λ x y z. f x y (λ a. z (b a))))))

  -- The rest of a pass.
  pub scan-Drains : (t : Bytes) (c : Client) → IsReady c → Ends t c → Drains (at c (scan (some t)))
  scan-Drains t c r f = pass (suc (behind t c.topic_queues)) t c (omega arith) r f
