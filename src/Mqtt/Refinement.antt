-- ===== src/Mqtt/Refinement.antt =====
-- The client of src/mqtt_client.cpp implements one channel for each topic.
use smartmeter_gateway.Prelude.{
  ℕ, ◌<◌, ◌+◌, Bool, true, false, List, [], ◌∷◌, ◌++◌, ◌≡◌, refl, ap, sym, ◌∙◌, Option, ◌==◌, none,
  some, inl, inr, arith, Bool-cases, Bytes, bytes_eq, bytes_eq_iff, bytes_eq_refl, if◌then◌else◌,
}
use smartmeter_gateway.SortedMap.{lookup, lookup-insert, get_or-insert}
use smartmeter_gateway.Mqtt.{
  Client, System, Worker, loop_head, waiting, woken, scan, stopped, sending, Event, published,
  connected_with, disconnected, shut_down, worked, queue, dropped, sent, publish, is_duplicate,
  on_connect, on_disconnect, work_at, step, run, holds_lock, make_room, push, touch_count,
}
use smartmeter_gateway.Mqtt.Publish.{queue-publish, dropped-publish, publish_of_duplicate}
use smartmeter_gateway.Mqtt.Bounds.{queue-sent, IsBounded, step-IsBounded}
use smartmeter_gateway.Mqtt.Delivery.{scan_topic-client}
use smartmeter_gateway.Mqtt.Window.{surplus-add, last_of-add, pop_eq}
use smartmeter_gateway.Mqtt.Channel.{
  Channel, Operation, offer, take_front, operate, operate_all, last_of, surplus, is_latest,
}

-- What the client keeps of one topic, out of its three maps.
abbrev pub view : Bytes → Client → Channel
view j c = record {
  pending = queue j c;
  latest = lookup j c.last_payload_hashes;
  lost = dropped j c;
}

Channel_eq : (a b : Channel) → a.pending ≡ b.pending → a.latest ≡ b.latest → a.lost ≡ b.lost → a ≡ b
Channel_eq a b p q r = λ i. record { pending = p i; latest = q i; lost = r i }

-- What an event does to the topic `j`.
abbrev pub operations_at : Bytes → Worker → Bool → List Operation
operations_at j (sending t m) true = if bytes_eq t j then take_front ∷ [] else []
operations_at j _ _ = []

abbrev pub operations : Bytes → System → Event → List Operation
operations j s (published p t) =
    if holds_lock s.worker then [] else if bytes_eq t j then offer p ∷ [] else []
operations j s (worked rc) = operations_at j s.worker rc
operations j s _ = []

dropped-sent :
    (t j : Bytes) (c : Client) → dropped j (sent t c) ≡ (if bytes_eq t j then 0 else dropped j c)
unfolding sent
dropped-sent t j c = get_or-insert t j 0 0 c.dropped_count

latest-sent : (t j : Bytes) (c : Client) → (view j (sent t c)).latest ≡ (view j c).latest
unfolding sent
latest-sent t j c = refl

is_latest_lem : (h : ℕ) (o : Option ℕ) → (elim o [ none ↦ false | some k ↦ k == h ]) ≡ is_latest h o
unfolding is_latest
is_latest_lem h none = refl
is_latest_lem h (some k) = refl

module _ (hash : Bytes → ℕ) (n : ℕ) where
  abbrev pub all_operations : Bytes → System → List Event → List Operation
  all_operations j s [] = []
  all_operations j s (e ∷ es) = operations j s e ++ all_operations j (step hash n s e) es

  operate_all-append :
      (c : Channel) (xs ys : List Operation)
      → operate_all hash n c (xs ++ ys) ≡ operate_all hash n (operate_all hash n c xs) ys
  unfolding operate_all
  operate_all-append c [] ys = refl
  operate_all-append c (x ∷ xs) ys = operate_all-append (operate hash n c x) xs ys

module _ (hash : Bytes → ℕ) (n : ℕ) (positive : 0 < n) where
  latest-publish :
      (p t j : Bytes) (c : Client)
      → (view j (publish hash n p t c)).latest ≡ (
          if is_duplicate hash n p t c
          then (view j c).latest
          else if bytes_eq t j
          then some (hash p)
          else (view j c).latest)
  unfolding publish touch_count push make_room
  latest-publish p t j c = ground (arith, lookup-insert t j (hash p) c.last_payload_hashes)

  view-sent :
      (t j : Bytes) (c : Client)
      → view j (sent t c)
        ≡ operate_all hash n (view j c) (if bytes_eq t j then take_front ∷ [] else [])
  unfolding operate_all operate
  view-sent t j c = elim (Bool-cases (bytes_eq t j)) [
    | inl same ↦ rw same (
        Channel_eq _ _
          (queue-sent t j c ∙ rw (same, (bytes_eq_iff t j).0 same) (pop_eq (queue j c)))
          (latest-sent t j c) (rw (dropped-sent t j c, same)))
    | inr other ↦ rw other (
        Channel_eq _ _ (rw (queue-sent t j c, other)) (latest-sent t j c)
          (rw (dropped-sent t j c, other)))
  ]

  duplicate_iff :
      (p t : Bytes) (c : Client) → is_duplicate hash n p t c ≡ is_latest (hash p) (view t c).latest
  duplicate_iff p t c = is_latest_lem (hash p) (lookup t c.last_payload_hashes)

  -- The payload is new to its own topic.
  view-publish_new :
      (p t : Bytes) (c : Client)
      → IsBounded n c
      → is_duplicate hash n p t c ≡ false
      → view t (publish hash n p t c) ≡ record {
        pending = last_of n (queue t c ++ p ∷ []);
        latest = some (hash p);
        lost = dropped t c + surplus n (queue t c ++ p ∷ []);
      }
  view-publish_new p t c b new =
      Channel_eq _ _
        (rw
          (
            queue-publish hash n p t t c,
            new,
            bytes_eq_refl t,
            last_of-add n (queue t c) p positive (b t),
          )
          (ground arith))
        (rw (latest-publish p t t c, new, bytes_eq_refl t))
        (rw
          (
            dropped-publish hash n p t t c,
            new,
            bytes_eq_refl t,
            surplus-add n (queue t c) p positive (b t),
          )
          (ground arith))

  view-publish_self :
      (p t : Bytes) (c : Client)
      → IsBounded n c
      → view t (publish hash n p t c) ≡ operate hash n (view t c) (offer p)
  unfolding operate
  view-publish_self p t c b = elim (Bool-cases (is_duplicate hash n p t c)) [
    | inl same ↦
        rw (← duplicate_iff p t c, same) (ap (view t) (publish_of_duplicate hash n p t c same))
    | inr new ↦ rw (← duplicate_iff p t c, new) (view-publish_new p t c b new)
  ]

  view-publish_other :
      (p t j : Bytes) (c : Client) → bytes_eq t j ≡ false → view j (publish hash n p t c) ≡ view j c
  view-publish_other p t j c other =
      Channel_eq _ _ (rw (queue-publish hash n p t j c, other) (ground arith))
        (rw (latest-publish p t j c, other) (ground arith))
        (rw (dropped-publish hash n p t j c, other) (ground arith))

  view-publish :
      (p t j : Bytes) (c : Client)
      → IsBounded n c
      → view j (publish hash n p t c)
        ≡ operate_all hash n (view j c) (if bytes_eq t j then offer p ∷ [] else [])
  unfolding operate_all
  view-publish p t j c b = elim (Bool-cases (bytes_eq t j)) [
    | inl same ↦ rw (same, ← (bytes_eq_iff t j).0 same) (view-publish_self p t c b)
    | inr other ↦ rw other (view-publish_other p t j c other)
  ]

  work_at-view :
      (w : Worker) (rc : Bool) (s : System) (j : Bytes)
      → view j (work_at w rc s).client ≡ operate_all hash n (view j s.client) (operations_at j w rc)
  unfolding work_at operate_all
  work_at-view loop_head rc s j = refl
  work_at-view waiting rc s j = ground arith
  work_at-view woken rc s j = ground arith
  work_at-view (scan none) rc s j = refl
  work_at-view (scan (some t)) rc s j = ap (view j) (scan_topic-client t (queue t s.client) s)
  work_at-view (sending t m) true s j = view-sent t j s.client
  work_at-view (sending t m) false s j = refl
  work_at-view stopped rc s j = refl

  step-view :
      (s : System) (e : Event) (j : Bytes)
      → IsBounded n s.client
      → view j (step hash n s e).client ≡ operate_all hash n (view j s.client) (operations j s e)
  unfolding step operate_all on_connect on_disconnect
  step-view s (published p t) j b = elim (Bool-cases (holds_lock s.worker)) [
    | inl held ↦ rw held
    | inr free ↦ rw free (view-publish p t j s.client b)
  ]
  step-view s (connected_with rc) j b = refl
  step-view s disconnected j b = refl
  step-view s shut_down j b = refl
  step-view s (worked rc) j b = work_at-view s.worker rc s j

  -- With a positive queue size and no queue beyond it at the start, whatever publishers, callbacks
  -- and the worker do in whatever order, what the client keeps of a topic in its three maps is
  -- what one bounded buffer for this topic alone keeps behind the payloads that are published on
  -- it and the sends on it that succeed. The buffer skips a payload with the hash of the last one,
  -- keeps the newest messages and counts what it drops, and each success removes its oldest
  -- message and resets the count.
  pub run-view :
      (s : System) (es : List Event) (j : Bytes)
      → IsBounded n s.client
      → view j (run hash n s es).client
        ≡ operate_all hash n (view j s.client) (all_operations hash n j s es)
  unfolding run operate_all
  run-view s [] j b = refl
  run-view s (e ∷ es) j b =
      run-view (step hash n s e) es j (step-IsBounded hash n positive s e b)
      ∙ ap (λ (c : Channel). operate_all hash n c (all_operations hash n j (step hash n s e) es))
          (step-view s e j b)
      ∙ sym (operate_all-append hash n (view j s.client) (operations j s e) _)
