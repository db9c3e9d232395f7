-- ===== src/Mqtt/Publish.antt =====
-- `MqttClient::publish`: what one call does to the queues, the hashes and the drop counters.
use smartmeter_gateway.Prelude.{
  ℕ, suc, ◌&&◌, ◌≢◌, ◌+◌, ◌≤◌, ◌<◌, true, List, [], ◌∷◌, ◌++◌, ◌≡◌, refl, ◌∙◌, inl, inr, arith,
  if◌then◌else◌, Bool-cases, Bytes, bytes_eq, bytes_eq_iff, bytes_eq_refl, length, length-append,
}
use smartmeter_gateway.SortedMap.{insert, lookup-insert, get_or-insert}
use smartmeter_gateway.Mqtt.{
  Client, queue, dropped, pop, is_duplicate, is_full, make_room, push, touch_count, publish,
}

module _ (hash : Bytes → ℕ) (queue_size : ℕ) where
  -- What a full queue keeps.
  abbrev pub kept : Bytes → Client → List Bytes
  kept topic c = if is_full hash queue_size topic c then pop (queue topic c) else queue topic c

  queue-make_room :
      (topic j : Bytes) (c : Client)
      → queue j (make_room hash queue_size topic c)
        ≡ (if bytes_eq topic j then kept topic c else queue j c)
  unfolding make_room
  queue-make_room topic j c = elim (Bool-cases (is_full hash queue_size topic c)) [
    | inl full ↦ rw full (get_or-insert topic j (pop (queue topic c)) [] c.topic_queues)
    | inr room ↦ rw room (ground (arith, bytes_eq_iff topic j))
  ]

  queue-push :
      (payload topic j : Bytes) (c : Client)
      → queue j (push hash queue_size payload topic c)
        ≡ (if bytes_eq topic j then queue topic c ++ payload ∷ [] else queue j c)
  unfolding push
  queue-push payload topic j c = get_or-insert topic j _ [] c.topic_queues

  queue-touch_count :
      (topic j : Bytes) (c : Client) → queue j (touch_count hash queue_size topic c) ≡ queue j c
  unfolding touch_count
  queue-touch_count topic j c = ground arith

  -- The message goes behind what is kept.
  queue_stored :
      (payload topic j : Bytes) (c : Client)
      → queue j (
          touch_count hash queue_size topic
            (push hash queue_size payload topic (make_room hash queue_size topic c)))
        ≡ (if bytes_eq topic j then kept topic c ++ payload ∷ [] else queue j c)
  queue_stored payload topic j c =
      queue-touch_count topic j _
      ∙ queue-push payload topic j _
      ∙ rw (queue-make_room topic topic c, bytes_eq_refl topic, queue-make_room topic j c)
          (ground arith)

  -- A payload whose hash differs from the topic's last one is appended to the topic's queue, which
  -- first loses its oldest message if it is full. No other queue changes. A payload with the last
  -- hash changes nothing.
  pub queue-publish :
      (payload topic j : Bytes) (c : Client)
      → queue j (publish hash queue_size payload topic c) ≡ (
          if is_duplicate hash queue_size payload topic c
          then queue j c
          else if bytes_eq topic j
          then kept topic c ++ payload ∷ []
          else queue j c)
  unfolding publish
  queue-publish payload topic j c =
      elim (Bool-cases (is_duplicate hash queue_size payload topic c)) [
        | inl same ↦ rw same
        | inr new ↦ rw new (queue_stored payload topic j _)
      ]

  hash_stored :
      (payload topic : Bytes) (c : Client)
      → is_duplicate hash queue_size payload topic (
          touch_count hash queue_size topic (
            push hash queue_size payload topic (
              make_room hash queue_size topic (record c {
                last_payload_hashes = insert topic (hash payload) c.last_payload_hashes;
              }))))
        ≡ true
  unfolding touch_count push make_room
  hash_stored payload topic c =
      ground
        (arith, lookup-insert topic topic (hash payload) c.last_payload_hashes, bytes_eq_refl topic)

  pub publish_of_duplicate :
      (payload topic : Bytes) (c : Client)
      → is_duplicate hash queue_size payload topic c ≡ true
      → publish hash queue_size payload topic c ≡ c
  unfolding publish
  publish_of_duplicate payload topic c e = rw e

  publish-is_duplicate :
      (payload topic : Bytes) (c : Client)
      → is_duplicate hash queue_size payload topic (publish hash queue_size payload topic c) ≡ true
  unfolding publish
  publish-is_duplicate payload topic c =
      elim (Bool-cases (is_duplicate hash queue_size payload topic c)) [
        | inl same ↦ rw same same
        | inr new ↦ rw new (hash_stored payload topic c)
      ]

  -- Publishing a payload twice in a row on one topic is the same as publishing it once.
  pub publish-publish :
      (payload topic : Bytes) (c : Client)
      → publish hash queue_size payload topic (publish hash queue_size payload topic c)
        ≡ publish hash queue_size payload topic c
  publish-publish payload topic c =
      publish_of_duplicate payload topic _ (publish-is_duplicate payload topic c)

  dropped-make_room :
      (topic j : Bytes) (c : Client)
      → dropped j (make_room hash queue_size topic c) ≡ (
          if bytes_eq topic j && is_full hash queue_size topic c
          then dropped j c + 1
          else dropped j c)
  unfolding make_room
  dropped-make_room topic j c =
      ground
        (arith, bytes_eq_iff topic j, get_or-insert topic j (dropped topic c + 1) 0 c.dropped_count)

  dropped-touch_count :
      (topic j : Bytes) (c : Client) → dropped j (touch_count hash queue_size topic c) ≡ dropped j c
  unfolding touch_count
  dropped-touch_count topic j c =
      ground
        (arith, bytes_eq_iff topic j, get_or-insert topic j (dropped topic c) 0 c.dropped_count)

  -- The counter of a topic goes up by one exactly when its full queue loses a message to a new
  -- payload.
  pub dropped-publish :
      (payload topic j : Bytes) (c : Client)
      → dropped j (publish hash queue_size payload topic c) ≡ (
          if is_duplicate hash queue_size payload topic c
          then dropped j c
          else if bytes_eq topic j && is_full hash queue_size topic c
          then dropped j c + 1
          else dropped j c)
  unfolding publish push
  dropped-publish payload topic j c =
      elim (Bool-cases (is_duplicate hash queue_size payload topic c)) [
        | inl same ↦ rw same
        | inr new ↦ rw new (dropped-touch_count topic j _ ∙ dropped-make_room topic j _)
      ]

  length-pop : (xs : List Bytes) → xs ≢ [] → suc (length (pop xs)) ≡ length xs
  length-pop [] n = absurd (n refl)
  length-pop (x ∷ xs) n = refl

  length-kept :
      (topic : Bytes) (c : Client)
      → 0 < queue_size
      → length (queue topic c) ≤ queue_size
      → length (kept topic c) < queue_size
  length-kept topic c h b = ground (arith, length-pop (queue topic c))

  -- No queue grows beyond the configured size, if that is positive and none was beyond it.
  pub length-publish :
      (payload topic : Bytes) (c : Client)
      → 0 < queue_size
      → ((j : Bytes) → length (queue j c) ≤ queue_size)
      → (j : Bytes) → length (queue j (publish hash queue_size payload topic c)) ≤ queue_size
  length-publish payload topic c h b j = rw (queue-publish payload topic j c) (
      ground
        (arith, length-append (kept topic c) (payload ∷ []), length-kept topic c h (b topic), b j))
