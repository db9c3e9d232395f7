-- ===== src/Mqtt/Behind.antt =====
-- How much of the queues lies behind the key that the worker of src/mqtt_client.cpp looks at.
use smartmeter_gateway.Prelude.{
  ℕ, ◌+◌, ◌*◌, ◌≤◌, true, false, List, [], ◌∷◌, ◌≡◌, ap, sym, ◌∙◌, some, if◌then◌else◌, arith,
  Bytes, length, bytes_eq, bytes_eq_iff, bytes_lt, Bool-cases, inl, inr,
}
use smartmeter_gateway.SortedMap.Order.{bytes_lt_irrefl, bytes_lt_trans, bytes_lt-eq}
use smartmeter_gateway.SortedMap.{lookup, insert, get_or, first_key, next_key}

abbrev pub Queues : Type 0
Queues = List (Bytes × List Bytes)

-- Two steps for each message and one for its queue.
abbrev pub steps_of : List Bytes → ℕ
steps_of q = 2 * length q + 1

abbrev pub total : Queues → ℕ
total [] = 0
total ((j, q) ∷ m) = steps_of q + total m

abbrev pub behind : Bytes → Queues → ℕ
behind t [] = 0
behind t ((j, q) ∷ m) = (if bytes_lt t j then steps_of q else 0) + behind t m

-- The queue at the key itself does not count.
pub behind-insert : (t : Bytes) (q : List Bytes) (m : Queues) → behind t (insert t q m) ≡ behind t m
unfolding insert
behind-insert t q [] = ground (arith, bytes_lt_irrefl t)
behind-insert t q ((j, w) ∷ m) =
    ground (arith, bytes_lt_irrefl t, bytes_lt-eq t j, behind-insert t q m)

pub behind_le_total : (t : Bytes) (m : Queues) → behind t m ≤ total m
behind_le_total t [] = omega arith
behind_le_total t ((j, q) ∷ m) = ground (arith, behind_le_total t m)

behind_mono : (t j : Bytes) (m : Queues) → bytes_lt t j ≡ true → behind j m ≤ behind t m
behind_mono t j [] h = omega arith
behind_mono t j ((i, q) ∷ m) h = ground (arith, behind_mono t j m h, bytes_lt_trans t j i h)

next_key_lt : (t j : Bytes) (m : Queues) → next_key t m ≡ some j → bytes_lt t j ≡ true
unfolding next_key
next_key_lt t j [] e = absurd (ground arith)
next_key_lt t j ((i, q) ∷ m) e = ground (arith, next_key_lt t j m)

eq_of_not_lt : (t i j : Bytes) → bytes_lt t i ≡ false → bytes_lt t j ≡ true → bytes_eq i j ≡ false
eq_of_not_lt t i j h k = elim (Bool-cases (bytes_eq i j)) [
  | inr n ↦ n
  | inl e ↦ absurd (let same = (bytes_eq_iff i j).0 e in ground arith)
]

-- The next key, its queue and what lies behind it lie behind a key.
pub behind-next_key :
    (t j : Bytes) (m : Queues)
    → next_key t m ≡ some j
    → steps_of (get_or j m []) + behind j m ≤ behind t m
unfolding next_key get_or lookup
behind-next_key t j [] e = absurd (ground arith)
behind-next_key t j ((i, q) ∷ m) e = elim (Bool-cases (bytes_lt t i)) [
  | inl h ↦
      let same : i ≡ j = ground arith in
      let eq = (bytes_eq_iff i j).1 same in
      ground (arith, eq, bytes_lt-eq j i eq, behind_mono t j m (sym (ap (bytes_lt t) same) ∙ h))
  | inr h ↦
      let later : next_key t m ≡ some j = ground arith in
      let lt = next_key_lt t j m later in
      let ne = eq_of_not_lt t i j h lt in
      let nlt : bytes_lt j i ≡ false = ground (arith, bytes_lt_trans t j i lt) in
      ground (arith, ne, nlt, behind-next_key t j m later)
]

pub behind-first_key :
    (j : Bytes) (m : Queues)
    → first_key m ≡ some j
    → steps_of (get_or j m []) + behind j m ≤ total m
unfolding first_key get_or lookup
behind-first_key j [] e = absurd (ground arith)
behind-first_key j ((i, q) ∷ m) e =
    let same : i ≡ j = ground arith in
    let eq = (bytes_eq_iff i j).1 same in
    ground (arith, eq, bytes_lt-eq j i eq, behind_le_total j m)
