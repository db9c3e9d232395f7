-- ===== src/Mqtt/Channel.antt =====
-- What a topic of src/mqtt_client.cpp is meant to be: a bounded buffer that keeps the newest
-- messages, skips a payload with the hash of the last one and counts what it has lost since a
-- message was last taken. It knows no map, no lock and no other topic.
use smartmeter_gateway.Prelude.{
  ℕ, suc, zero, ◌+◌, ◌-◌, Bool, false, List, [], ◌∷◌, ◌++◌, Option, none, some, ◌==◌, if◌then◌else◌,
  Bytes, length,
}

pub record Channel : Type 0 where
  pub pending : List Bytes
  pub latest : Option ℕ
  pub lost : ℕ

pub data Operation : Type 0 where
  offer : Bytes → Operation
  take_front : Operation

abbrev pub drop : ℕ → List Bytes → List Bytes
drop zero xs = xs
drop (suc n) [] = []
drop (suc n) (x ∷ xs) = drop n xs

-- The last `n` of some messages, and the number of the others.
unfoldable pub last_of : ℕ → List Bytes → List Bytes
last_of n xs = drop (length xs - n) xs

unfoldable pub surplus : ℕ → List Bytes → ℕ
surplus n xs = length xs - n

-- The hash that a topic has seen last is this one.
unfoldable pub is_latest : ℕ → Option ℕ → Bool
is_latest h none = false
is_latest h (some k) = k == h

module _ (hash : Bytes → ℕ) (capacity : ℕ) where
  unfoldable pub operate : Channel → Operation → Channel
  operate c (offer p) = if is_latest (hash p) c.latest then c else record {
    pending = last_of capacity (c.pending ++ p ∷ []);
    latest = some (hash p);
    lost = c.lost + surplus capacity (c.pending ++ p ∷ []);
  }
  operate c take_front = record { pending = drop 1 c.pending; latest = c.latest; lost = 0 }

  unfoldable pub operate_all : Channel → List Operation → Channel
  operate_all c [] = c
  operate_all c (o ∷ os) = operate_all (operate c o) os
