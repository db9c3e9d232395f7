-- ===== src/Mqtt/Pending.antt =====
-- While the worker of src/mqtt_client.cpp hands a message over, its queue is not empty, so that the
-- `pop` behind a success finds one, overflows included.
use smartmeter_gateway.Prelude.{
  ℕ, ◌<◌, Bool, true, false, not, ◌&&◌, ◌||◌, List, [], ◌∷◌, ◌≡◌, refl, none, some, arith, Bytes,
  length, length-append, Bool-cases, inl, inr, ◌==◌, if_both, bytes_eq,
}
use smartmeter_gateway.Mqtt.{
  Client, System, Worker, loop_head, waiting, woken, scan, sending, stopped, Event, published,
  connected_with, disconnected, shut_down, worked, queue, on_connect, on_disconnect, work_at,
  scan_topic, step, run, has_queued_messages, holds_lock, publish, is_duplicate,
}
use smartmeter_gateway.Mqtt.Publish.{queue-publish, kept}

abbrev pub IsPending : Worker → Client → Type 0
IsPending (sending t m) c = 0 < length (queue t c)
IsPending _ c = Unit

abbrev pub Keeps : System → Type 0
Keeps s = IsPending s.worker s.client

scan_topic-Keeps :
    (t : Bytes) (q : List Bytes) (s : System) → queue t s.client ≡ q → Keeps (scan_topic t q s)
unfolding scan_topic
scan_topic-Keeps t [] s e = tt
scan_topic-Keeps t (m ∷ rest) s e = elim (Bool-cases s.client.connected) [
  | inl h ↦ rw h (rw e (omega arith))
  | inr h ↦ rw h tt
]

pub work_at-Keeps :
    (w : Worker) (rc : Bool) (s : System) → w ≡ s.worker → Keeps s → Keeps (work_at w rc s)
unfolding work_at
work_at-Keeps loop_head rc s e k = elim (Bool-cases s.running) [ inl h ↦ rw h tt | inr h ↦ rw h tt ]
work_at-Keeps waiting rc s e k =
    if_both Keeps
      ((s.client.connected && has_queued_messages s.client.topic_queues) || not s.running) _ _ tt k
work_at-Keeps woken rc s e k = if_both Keeps (not s.running && not s.client.connected) _ _ tt tt
work_at-Keeps (scan none) rc s e k = tt
work_at-Keeps (scan (some t)) rc s e k = scan_topic-Keeps t (queue t s.client) s refl
work_at-Keeps (sending t m) true s e k = tt
work_at-Keeps (sending t m) false s e k = tt
work_at-Keeps stopped rc s e k = k

pub flag-IsPending :
    (c : Client) (w : Worker) (b : Bool) → IsPending w c → IsPending w (record c { connected = b })
flag-IsPending c (sending j m) b k = k
flag-IsPending c loop_head b k = tt
flag-IsPending c waiting b k = tt
flag-IsPending c woken b k = tt
flag-IsPending c (scan j) b k = tt
flag-IsPending c stopped b k = tt

module _ (hash : Bytes → ℕ) (queue_size : ℕ) where
  publish-IsPending :
      (p t : Bytes) (c : Client) (w : Worker)
      → IsPending w c
      → IsPending w (publish hash queue_size p t c)
  publish-IsPending p t c (sending j m) k = rw (queue-publish hash queue_size p t j c) (
      if_both (λ (q : List Bytes). 0 < length q) (is_duplicate hash queue_size p t c) _ _ k
        (if_both (λ (q : List Bytes). 0 < length q) (bytes_eq t j) _ _
          (omega (arith, length-append (kept hash queue_size t c) (p ∷ []))) k))
  publish-IsPending p t c loop_head k = tt
  publish-IsPending p t c waiting k = tt
  publish-IsPending p t c woken k = tt
  publish-IsPending p t c (scan j) k = tt
  publish-IsPending p t c stopped k = tt

  step-Keeps : (s : System) (e : Event) → Keeps s → Keeps (step hash queue_size s e)
  unfolding step on_connect on_disconnect
  step-Keeps s (published p t) k =
      if_both Keeps (holds_lock s.worker) s _ k (publish-IsPending p t s.client s.worker k)
  step-Keeps s (connected_with rc) k = flag-IsPending s.client s.worker (rc == 0) k
  step-Keeps s disconnected k = flag-IsPending s.client s.worker false k
  step-Keeps s shut_down k = k
  step-Keeps s (worked rc) k = work_at-Keeps s.worker rc s refl k

  pub run-Keeps : (s : System) (es : List Event) → Keeps s → Keeps (run hash queue_size s es)
  unfolding run
  run-Keeps s [] k = k
  run-Keeps s (e ∷ es) k = run-Keeps (step hash queue_size s e) es (step-Keeps s e k)
