-- ===== src/SortedMap.antt =====
-- `std::map` with `std::string` keys, as the source uses it: a list of entries in key order. The
-- laws of `lookup` hold for every list; the order decides only in which order a loop visits.
pub mod Order
use smartmeter_gateway.Prelude.{
  List, [], ◌∷◌, ◌≡◌, refl, Option, none, some, if◌then◌else◌, arith, Bytes, bytes_eq, bytes_eq_iff,
  bytes_eq_refl, bytes_lt, ap,
}

module _ {ℓ} {V : Type ℓ} where
  unfoldable pub lookup : Bytes → List (Bytes × V) → Option V
  lookup k [] = none
  lookup k ((j, v) ∷ m) = if bytes_eq j k then some v else lookup k m

  unfoldable pub insert : Bytes → V → List (Bytes × V) → List (Bytes × V)
  insert k v [] = (k, v) ∷ []
  insert k v ((j, w) ∷ m) =
      if bytes_eq j k
      then (k, v) ∷ m
      else if bytes_lt k j
      then (k, v) ∷ (j, w) ∷ m
      else (j, w) ∷ insert k v m

  -- `m[k]`, for a mapped type whose default value is `d`.
  unfoldable pub get_or : Bytes → List (Bytes × V) → V → V
  unfolding lookup
  get_or k m d = elim (lookup k m) [ none ↦ d | some v ↦ v ]

  -- `begin()`: the first key.
  unfoldable pub first_key : List (Bytes × V) → Option Bytes
  first_key [] = none
  first_key ((j, v) ∷ m) = some j

  -- `++it` at key `k`: the next key in order.
  unfoldable pub next_key : Bytes → List (Bytes × V) → Option Bytes
  next_key k [] = none
  next_key k ((j, v) ∷ m) = if bytes_lt k j then some j else next_key k m

  pub lookup-insert :
      (k j : Bytes) (v : V) (m : List (Bytes × V))
      → lookup j (insert k v m) ≡ (if bytes_eq k j then some v else lookup j m)
  unfolding lookup insert
  lookup-insert k j v [] = refl
  lookup-insert k j v ((i, w) ∷ m) =
      ground (arith, bytes_eq_iff k j, bytes_eq_iff i k, bytes_eq_iff i j, lookup-insert k j v m)

  pub get_or-insert :
      (k j : Bytes) (v d : V) (m : List (Bytes × V))
      → get_or j (insert k v m) d ≡ (if bytes_eq k j then v else get_or j m d)
  unfolding get_or
  get_or-insert k j v d m = ground (arith, lookup-insert k j v m)

  pub get_or-insert_self :
      (k : Bytes) (v d : V) (m : List (Bytes × V)) → get_or k (insert k v m) d ≡ v
  get_or-insert_self k v d m = rw (get_or-insert k k v d m, bytes_eq_refl k)

  pub get_or-absent :
      (k : Bytes) (d : V) (m : List (Bytes × V)) → lookup k m ≡ none → get_or k m d ≡ d
  unfolding get_or
  get_or-absent k d m e = ap (λ (o : Option V). elim o [ none ↦ d | some v ↦ v ]) e
