-- ===== src/Mqtt/Bounds.antt =====
-- What holds of the queues in every reachable state: no queue is longer than `queue_size`.
use smartmeter_gateway.Prelude.{
  ℕ, ◌≤◌, ◌<◌, Bool, true, false, List, [], ◌∷◌, ◌≡◌, refl, none, some, inl, inr, arith, Bool-cases,
  Bytes, length, bytes_eq, if◌then◌else◌,
}
use smartmeter_gateway.SortedMap.{get_or-insert}
use smartmeter_gateway.Mqtt.{
  Client, System, Worker, loop_head, waiting, woken, scan, sending, stopped, Event, published,
  connected_with, disconnected, shut_down, worked, queue, pop, sent, on_connect, on_disconnect,
  work_at, scan_topic, step, run, holds_lock,
}
use smartmeter_gateway.Mqtt.Publish.{length-publish}

abbrev pub IsBounded : ℕ → Client → Type 0
IsBounded n c = (j : Bytes) → length (queue j c) ≤ n

length-pop-le : (xs : List Bytes) → length (pop xs) ≤ length xs
length-pop-le [] = omega arith
length-pop-le (x ∷ xs) = omega arith

-- What a success of `mosquitto_publish` does to the queues.
pub queue-sent :
    (topic j : Bytes) (c : Client)
    → queue j (sent topic c) ≡ (if bytes_eq topic j then pop (queue topic c) else queue j c)
unfolding sent
queue-sent topic j c = get_or-insert topic j (pop (queue topic c)) [] c.topic_queues

sent-IsBounded : (n : ℕ) (topic : Bytes) (c : Client) → IsBounded n c → IsBounded n (sent topic c)
sent-IsBounded n topic c b j =
    rw (queue-sent topic j c) (ground (arith, length-pop-le (queue topic c), b topic, b j))

scan_topic-keeps :
    (P : Client → Type 0) (t : Bytes) (q : List Bytes) (s : System)
    → P s.client
    → P (scan_topic t q s).client
unfolding scan_topic
scan_topic-keeps P t [] s keep = keep
scan_topic-keeps P t (m ∷ rest) s keep = ground arith

-- A stretch of the worker changes the client only behind a successful send.
pub work_at-cases :
    (P : Client → Type 0) (w : Worker) (rc : Bool) (s : System)
    → P s.client
    → ((topic payload : Bytes) → w ≡ sending topic payload → P (sent topic s.client))
    → P (work_at w rc s).client
unfolding work_at
work_at-cases P loop_head rc s keep send = keep
work_at-cases P waiting rc s keep send = ground arith
work_at-cases P woken rc s keep send = ground arith
work_at-cases P (scan none) rc s keep send = keep
work_at-cases P (scan (some t)) rc s keep send = scan_topic-keeps P t (queue t s.client) s keep
work_at-cases P (sending t p) true s keep send = send t p refl
work_at-cases P (sending t p) false s keep send = keep
work_at-cases P stopped rc s keep send = keep

module _ (hash : Bytes → ℕ) (queue_size : ℕ) (positive : 0 < queue_size) where
  pub step-IsBounded :
      (s : System) (e : Event)
      → IsBounded queue_size s.client
      → IsBounded queue_size (step hash queue_size s e).client
  unfolding step
  step-IsBounded s (published p t) b = elim (Bool-cases (holds_lock s.worker)) [
    | inl held ↦ rw held b
    | inr free ↦ rw free (length-publish hash queue_size p t s.client positive b)
  ]
  step-IsBounded s (connected_with rc) b = unfold on_connect in b
  step-IsBounded s disconnected b = unfold on_disconnect in b
  step-IsBounded s shut_down b = b
  step-IsBounded s (worked rc) b =
      work_at-cases (IsBounded queue_size) s.worker rc s b
        (λ t p e. sent-IsBounded queue_size t s.client b)

  -- With a positive queue size and no queue beyond it at the start, no interleaving of publishers,
  -- callbacks and the worker makes a queue longer than that size.
  pub run-IsBounded :
      (s : System) (es : List Event)
      → IsBounded queue_size s.client
      → IsBounded queue_size (run hash queue_size s es).client
  unfolding run
  run-IsBounded s [] b = b
  run-IsBounded s (e ∷ es) b = run-IsBounded (step hash queue_size s e) es (step-IsBounded s e b)
