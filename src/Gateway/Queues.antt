-- ===== src/Gateway/Queues.antt =====
-- What holds of every payload that is published holds of every queued one, and of every one that
-- mosquitto is given.
use smartmeter_gateway.Prelude.{
  All-append, ℕ, Bool, not, ◌&&◌, ◌||◌, List, [], ◌∷◌, ◌++◌, subst, none, some, All, Bytes, if_both,
  if◌then◌else◌, Bool-cases, inl, inr, bytes_eq, bytes_eq_iff,
}
use smartmeter_gateway.Mqtt.{
  Client, System, Worker, loop_head, waiting, woken, scan, sending, stopped, queue, pop, sent,
  publish, is_duplicate, is_full, work_at, scan_topic, has_queued_messages,
}
use smartmeter_gateway.Mqtt.Publish.{queue-publish, kept}
use smartmeter_gateway.Mqtt.Bounds.{queue-sent, work_at-cases}

All-pop : (Q : Bytes → Type 0) (xs : List Bytes) → All Q xs → All Q (pop xs)
All-pop Q [] p = tt
All-pop Q (x ∷ xs) p = p.1

module _ (Q : Bytes → Bytes → Type 0) where
  -- Every payload in the queue of a topic.
  abbrev pub AreQueued : Client → Type 0
  AreQueued c = (j : Bytes) → All (Q j) (queue j c)

  -- The payload that the worker hands to mosquitto.
  abbrev pub IsSent : Worker → Type 0
  IsSent (sending t m) = Q t m
  IsSent _ = Unit

  abbrev pub Holds : System → Type 0
  Holds s = AreQueued s.client × IsSent s.worker

  if_topic :
      (topic j : Bytes) (xs ys : List Bytes)
      → All (Q topic) xs
      → All (Q j) ys
      → All (Q j) (if bytes_eq topic j then xs else ys)
  if_topic topic j xs ys p q = elim (Bool-cases (bytes_eq topic j)) [
    | inr e ↦ rw e q
    | inl e ↦ rw e (subst (λ (t : Bytes). All (Q t) xs) ((bytes_eq_iff topic j).0 e) p)
  ]

  kept-All :
      (hash : Bytes → ℕ) (queue_size : ℕ) (topic : Bytes) (c : Client)
      → AreQueued c
      → All (Q topic) (kept hash queue_size topic c)
  kept-All hash queue_size topic c a =
      if_both (All (Q topic)) (is_full hash queue_size topic c) _ _
        (All-pop (Q topic) (queue topic c) (a topic)) (a topic)

  pub publish-AreQueued :
      (hash : Bytes → ℕ) (queue_size : ℕ) (payload topic : Bytes) (c : Client)
      → Q topic payload
      → AreQueued c
      → AreQueued (publish hash queue_size payload topic c)
  publish-AreQueued hash queue_size payload topic c q a j =
      rw (queue-publish hash queue_size payload topic j c) (
        if_both (All (Q j)) (is_duplicate hash queue_size payload topic c) _ _ (a j) (
          if_topic topic j (kept hash queue_size topic c ++ payload ∷ []) _
            (All-append (Q topic) (kept hash queue_size topic c) (payload ∷ [])
              (kept-All hash queue_size topic c a) (q, tt))
            (a j)))

  sent-AreQueued : (topic : Bytes) (c : Client) → AreQueued c → AreQueued (sent topic c)
  sent-AreQueued topic c a j =
      rw (queue-sent topic j c) (if_topic topic j _ _ (All-pop (Q topic) _ (a topic)) (a j))

  scan_topic-IsSent :
      (t : Bytes) (q : List Bytes) (s : System) → All (Q t) q → IsSent (scan_topic t q s).worker
  unfolding scan_topic
  scan_topic-IsSent t [] s a = tt
  scan_topic-IsSent t (m ∷ rest) s a =
      if_both (λ (x : System). IsSent x.worker) s.client.connected _ _ a.0 tt

  work_at-IsSent :
      (w : Worker) (rc : Bool) (s : System)
      → AreQueued s.client
      → IsSent s.worker
      → IsSent w
      → IsSent (work_at w rc s).worker
  unfolding work_at
  work_at-IsSent loop_head rc s a i k = if_both IsSent s.running _ _ tt tt
  work_at-IsSent waiting rc s a i k =
      if_both (λ (x : System). IsSent x.worker)
        ((s.client.connected && has_queued_messages s.client.topic_queues) || not s.running) _ _ tt
        i
  work_at-IsSent woken rc s a i k =
      if_both (λ (x : System). IsSent x.worker) (not s.running && not s.client.connected) _ _ tt tt
  work_at-IsSent (scan none) rc s a i k = tt
  work_at-IsSent (scan (some t)) rc s a i k = scan_topic-IsSent t (queue t s.client) s (a t)
  work_at-IsSent (sending t m) rc s a i k = if_both (λ (x : System). IsSent x.worker) rc _ _ tt tt
  work_at-IsSent stopped rc s a i k = i

  -- Neither the worker nor the broker adds a payload.
  pub work_at-Holds : (rc : Bool) (s : System) → Holds s → Holds (work_at s.worker rc s)
  work_at-Holds rc s (a, i) = (
    work_at-cases AreQueued s.worker rc s a (λ t m e. sent-AreQueued t s.client a),
    work_at-IsSent s.worker rc s a i i,
  )
