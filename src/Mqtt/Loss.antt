-- ===== src/Mqtt/Loss.antt =====
-- An overflow while a message is being sent: the front that `run` pops behind the send is then no
-- longer the message that was sent.
use smartmeter_gateway.Prelude.{
  ℕ, true, false, List, [], ◌∷◌, ◌++◌, ◌≡◌, arith, Bytes, length, bytes_eq_refl,
}
use smartmeter_gateway.SortedMap.{get_or-insert_self}
use smartmeter_gateway.Mqtt.{
  Client, System, sending, published, worked, queue, dropped, pop, sent, step, run, work_at,
  is_duplicate, publish,
}
use smartmeter_gateway.Mqtt.Publish.{queue-publish, kept}
use smartmeter_gateway.Mqtt.Bounds.{queue-sent}

-- The two steps, one behind the other.
module _ (hash : Bytes → ℕ) (queue_size : ℕ) (s : System) (t m p : Bytes) where
  run_overflow :
      s.worker ≡ sending t m
      → (run hash queue_size s (published p t ∷ worked true ∷ [])).client
        ≡ sent t (publish hash queue_size p t s.client)
  unfolding run step work_at
  run_overflow w = rw w

  dropped-sent : (c : Client) → dropped t (sent t c) ≡ 0
  unfolding sent
  dropped-sent c = get_or-insert_self t 0 0 c.dropped_count

-- When a new payload arrives while the front of a full queue is being sent and the send succeeds,
-- the queue ends without the message behind the one that was sent (or, at size 1, without the new
-- payload), and the drop counter of the topic is 0.
pub overflow_in_flight :
    (hash : Bytes → ℕ) (queue_size : ℕ) (s : System) (t m p : Bytes) (rest : List Bytes)
    → s.worker ≡ sending t m
    → queue t s.client ≡ m ∷ rest
    → length (m ∷ rest) ≡ queue_size
    → is_duplicate hash queue_size p t s.client ≡ false
    → (queue t (run hash queue_size s (published p t ∷ worked true ∷ [])).client
        ≡ pop (rest ++ p ∷ []))
      × (dropped t (run hash queue_size s (published p t ∷ worked true ∷ [])).client ≡ 0)
overflow_in_flight hash n s t m p rest w q full new = (
  rw (
    run_overflow hash n s t m p w,
    queue-sent t t (publish hash n p t s.client),
    bytes_eq_refl t,
    queue-publish hash n p t t s.client,
    new,
    bytes_eq_refl t,
    dropped_front,
  ),
  rw (run_overflow hash n s t m p w) (dropped-sent hash n s t m p _),
)
  where
    dropped_front : kept hash n t s.client ≡ rest
    dropped_front = ground arith
