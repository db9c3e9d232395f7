-- ===== src/Mqtt/Outage.antt =====
-- What the queues of src/mqtt_client.cpp hold behind a time in which the broker takes nothing.
use smartmeter_gateway.Prelude.{
  ℕ, ◌+◌, ◌≤◌, ◌<◌, Bool, true, false, List, [], ◌∷◌, ◌++◌, map, ◌≡◌, refl, ap, ◌∙◌, Option, some,
  inl, inr, arith, Bool-cases, Bytes, length, bytes_eq, if◌then◌else◌,
}
use mathlib.Core.List.{map-append, append_assoc}
use smartmeter_gateway.Mqtt.{
  System, Worker, loop_head, waiting, woken, scan, sending, stopped, Event, published,
  connected_with, disconnected, shut_down, worked, queue, dropped, step, run, holds_lock,
}
use smartmeter_gateway.Mqtt.Bounds.{IsBounded}
use smartmeter_gateway.Mqtt.Delivery.{handed, handed_at, all_handed}
use smartmeter_gateway.Mqtt.Window.{
  last_of-last_of, length-last_of, last_of_all, surplus_none, surplus-last_of,
}
use smartmeter_gateway.Mqtt.Channel.{
  Channel, Operation, offer, operate, operate_all, last_of, surplus, is_latest,
}
use smartmeter_gateway.Mqtt.Refinement.{view, operations, operations_at, all_operations, run-view}

module _ (hash : Bytes → ℕ) where
  -- The payloads whose hash is not that of the one before.
  abbrev pub news : Option ℕ → List Bytes → List Bytes
  news h [] = []
  news h (p ∷ ps) = if is_latest (hash p) h then news h ps else p ∷ news (some (hash p)) ps

  module _ (n : ℕ) where
    -- Some messages have been added to a channel.
    abbrev IsAdded : Channel → List Bytes → Channel → Type 0
    IsAdded c xs d =
        (d.pending ≡ last_of n (c.pending ++ xs)) × (d.lost ≡ c.lost + surplus n (c.pending ++ xs))

    if-IsAdded :
        (b : Bool) (c d : Channel) (xs ys : List Bytes) (os : List Operation)
        → IsAdded c xs (operate_all hash n c os)
        → IsAdded c ys (operate_all hash n d os)
        → IsAdded c (if b then xs else ys) (operate_all hash n (if b then c else d) os)
    if-IsAdded true c d xs ys os l r = l
    if-IsAdded false c d xs ys os l r = r

    abbrev with_new : Bytes → Channel → Channel
    with_new p c = record {
      pending = last_of n (c.pending ++ p ∷ []);
      latest = some (hash p);
      lost = c.lost + surplus n (c.pending ++ p ∷ []);
    }

    with_new-IsAdded :
        (p : Bytes) (c d : Channel) (xs : List Bytes)
        → IsAdded (with_new p c) xs d
        → IsAdded c (p ∷ xs) d
    with_new-IsAdded p c d xs (kept, counted) =
        let assoc = append_assoc c.pending (p ∷ []) xs in
        (
          kept ∙ last_of-last_of n (c.pending ++ p ∷ []) xs ∙ ap (last_of n) assoc,
          omega (arith, counted, surplus-last_of n (c.pending ++ p ∷ []) xs, ap (surplus n) assoc),
        )

    operate_all-offer :
        (c : Channel) (ps : List Bytes)
        → length c.pending ≤ n
        → IsAdded c (news c.latest ps) (operate_all hash n c (map offer ps))
    unfolding operate_all operate
    operate_all-offer c [] b =
        (last_of_all n c.pending b, omega (arith, surplus_none n c.pending b))
    operate_all-offer c (p ∷ ps) b =
        if-IsAdded (is_latest (hash p) c.latest) c (with_new p c) _ _ (map offer ps)
          (operate_all-offer c ps b)
          (with_new-IsAdded p c (operate_all hash n (with_new p c) (map offer ps))
            (news (some (hash p)) ps)
            (operate_all-offer (with_new p c) ps (length-last_of n (c.pending ++ p ∷ []))))

-- The payloads that publishers bring for the topic `j`.
abbrev pub offered : Bytes → System → Event → List Bytes
offered j s (published p t) =
    if holds_lock s.worker then [] else if bytes_eq t j then p ∷ [] else []
offered j s _ = []

append_empty : (xs ys : List Bytes) → xs ++ ys ≡ [] → (xs ≡ []) × (ys ≡ [])
append_empty [] ys e = (refl, e)
append_empty (x ∷ xs) ys e = absurd cc

operations-offered :
    (j : Bytes) (s : System) (e : Event)
    → handed j s e ≡ []
    → operations j s e ≡ map offer (offered j s e)
operations-offered j s (published p t) h = elim (Bool-cases (holds_lock s.worker)) [
  | inl held ↦ rw held
  | inr free ↦ rw free (ground arith)
]
operations-offered j s (connected_with rc) h = refl
operations-offered j s disconnected h = refl
operations-offered j s shut_down h = refl
operations-offered j s (worked rc) h = no_take s.worker rc h
  where
    no_take : (w : Worker) (rc : Bool) → handed_at j w rc ≡ [] → operations_at j w rc ≡ []
    no_take (sending t m) true h = ground arith
    no_take (sending t m) false h = refl
    no_take loop_head rc h = refl
    no_take waiting rc h = refl
    no_take woken rc h = refl
    no_take (scan k) rc h = refl
    no_take stopped rc h = refl

module _ (hash : Bytes → ℕ) (n : ℕ) where
  abbrev pub all_offered : Bytes → System → List Event → List Bytes
  all_offered j s [] = []
  all_offered j s (e ∷ es) = offered j s e ++ all_offered j (step hash n s e) es

  all_operations-offered :
      (j : Bytes) (s : System) (es : List Event)
      → all_handed hash n j s es ≡ []
      → all_operations hash n j s es ≡ map offer (all_offered j s es)
  all_operations-offered j s [] h = refl
  all_operations-offered j s (e ∷ es) h =
      let (now, later) = append_empty (handed j s e) (all_handed hash n j (step hash n s e) es) h in
      rw (
        operations-offered j s e now,
        all_operations-offered j (step hash n s e) es later,
        map-append offer (offered j s e) (all_offered j (step hash n s e) es),
      )

  -- With a positive queue size and no queue beyond it at the start, along every interleaving in
  -- which mosquitto accepts no message of a topic, the queue of the topic ends with the newest
  -- messages, up to its size, of those queued at the start followed by the payloads published on
  -- the topic since, without those that have the hash of the one before; its drop counter has
  -- grown by the number of the others.
  pub run-outage :
      (s : System) (es : List Event) (j : Bytes)
      → 0 < n
      → IsBounded n s.client
      → all_handed hash n j s es ≡ []
      → (queue j (run hash n s es).client
          ≡ last_of n (queue j s.client ++ news hash (view j s.client).latest (all_offered j s es)))
        × (dropped j (run hash n s es).client
            ≡ dropped j s.client
              + surplus n
                  (queue j s.client ++ news hash (view j s.client).latest (all_offered j s es)))
  run-outage s es j positive b quiet =
      let quiet_view =
        run-view hash n positive s es j b
        ∙ ap (operate_all hash n (view j s.client)) (all_operations-offered j s es quiet) in
      let added = operate_all-offer hash n (view j s.client) (all_offered j s es) (b j) in
      (
        ap (λ (c : Channel). c.pending) quiet_view ∙ added.0,
        ap (λ (c : Channel). c.lost) quiet_view ∙ added.1,
      )
