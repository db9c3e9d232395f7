-- ===== src/SortedMap/Order.antt =====
-- The keys of a `std::map` in strictly rising order, as `insert` keeps them.
use smartmeter_gateway.Prelude.{
  true, false, List, [], ◌∷◌, ◌≡◌, refl, none, some, inl, inr, arith, Bytes, bytes_eq, bytes_eq_iff,
  bytes_lt, Bool-cases,
}
use smartmeter_gateway.SortedMap.{insert, lookup, next_key, first_key}

pub bytes_lt_irrefl : (a : Bytes) → bytes_lt a a ≡ false
unfolding bytes_lt
bytes_lt_irrefl [] = refl
bytes_lt_irrefl (x ∷ xs) = ground (arith, bytes_lt_irrefl xs)

pub bytes_lt_trans :
    (a b c : Bytes) → bytes_lt a b ≡ true → bytes_lt b c ≡ true → bytes_lt a c ≡ true
unfolding bytes_lt
bytes_lt_trans [] [] c p q = absurd (ground arith)
bytes_lt_trans [] (y ∷ ys) [] p q = absurd (ground arith)
bytes_lt_trans [] (y ∷ ys) (z ∷ zs) p q = refl
bytes_lt_trans (x ∷ xs) [] c p q = absurd (ground arith)
bytes_lt_trans (x ∷ xs) (y ∷ ys) [] p q = absurd (ground arith)
bytes_lt_trans (x ∷ xs) (y ∷ ys) (z ∷ zs) p q = ground (arith, bytes_lt_trans xs ys zs)

pub bytes_lt-eq : (t j : Bytes) → bytes_eq j t ≡ true → bytes_lt t j ≡ false
bytes_lt-eq t j e = rw ((bytes_eq_iff j t).0 e) (bytes_lt_irrefl t)

pub bytes_lt_total :
    (a b : Bytes) → bytes_eq a b ≡ false → bytes_lt b a ≡ false → bytes_lt a b ≡ true
unfolding bytes_lt bytes_eq
bytes_lt_total [] [] e h = absurd (ground arith)
bytes_lt_total [] (y ∷ ys) e h = refl
bytes_lt_total (x ∷ xs) [] e h = absurd (ground arith)
bytes_lt_total (x ∷ xs) (y ∷ ys) e h = ground (arith, bytes_lt_total xs ys)

module _ {V : Type 0} where
  -- All keys lie behind one.
  abbrev pub IsAbove : Bytes → List (Bytes × V) → Type 0
  IsAbove k [] = Unit
  IsAbove k ((j, v) ∷ m) = (bytes_lt k j ≡ true) × IsAbove k m

  abbrev pub IsOrdered : List (Bytes × V) → Type 0
  IsOrdered [] = Unit
  IsOrdered ((k, v) ∷ m) = IsAbove k m × IsOrdered m

  IsAbove-trans :
      (i k : Bytes) (m : List (Bytes × V)) → bytes_lt i k ≡ true → IsAbove k m → IsAbove i m
  IsAbove-trans i k [] h a = tt
  IsAbove-trans i k ((j, v) ∷ m) h a = (bytes_lt_trans i k j h a.0, IsAbove-trans i k m h a.1)

  insert-IsAbove :
      (i k : Bytes) (v : V) (m : List (Bytes × V))
      → bytes_lt i k ≡ true
      → IsAbove i m
      → IsAbove i (insert k v m)
  unfolding insert
  insert-IsAbove i k v [] h a = (h, tt)
  insert-IsAbove i k v ((j, w) ∷ m) h a = elim (Bool-cases (bytes_eq j k)) [
    | inl e ↦ rw e (h, a.1)
    | inr e ↦ elim (Bool-cases (bytes_lt k j)) [
      | inl l ↦ rw (e, l) (h, a)
      | inr l ↦ rw (e, l) (a.0, insert-IsAbove i k v m h a.1)
    ]
  ]

  pub insert-IsOrdered :
      (k : Bytes) (v : V) (m : List (Bytes × V)) → IsOrdered m → IsOrdered (insert k v m)
  unfolding insert
  insert-IsOrdered k v [] o = (tt, tt)
  insert-IsOrdered k v ((j, w) ∷ m) o = elim (Bool-cases (bytes_eq j k)) [
    | inl e ↦ rw e (rw (← (bytes_eq_iff j k).0 e) o)
    | inr e ↦ elim (Bool-cases (bytes_lt k j)) [
      | inl l ↦ rw (e, l) ((l, IsAbove-trans k j m l o.0), o)
      | inr l ↦
          rw (e, l)
            (insert-IsAbove j k v m (bytes_lt_total j k e l) o.0, insert-IsOrdered k v m o.1)
    ]
  ]

  pub lookup-IsAbove : (k : Bytes) (m : List (Bytes × V)) → IsAbove k m → lookup k m ≡ none
  unfolding lookup
  lookup-IsAbove k [] a = refl
  lookup-IsAbove k ((j, v) ∷ m) a = ground (arith, a.0, bytes_lt-eq k j, lookup-IsAbove k m a.1)

-- No key lies between a key and the next one, before the first one, or behind the last one.
module _ {V : Type 0} where
  pub lookup-next_key :
      (t u j : Bytes) (m : List (Bytes × V))
      → IsOrdered m
      → next_key t m ≡ some u
      → bytes_lt t j ≡ true
      → bytes_lt j u ≡ true
      → lookup j m ≡ none
  unfolding next_key lookup
  lookup-next_key t u j [] o e h k = refl
  lookup-next_key t u j ((i, v) ∷ m) o e h k = elim (Bool-cases (bytes_lt t i)) [
    | inl l ↦
        let below : bytes_lt j i ≡ true = ground arith in
        ground (arith, bytes_lt-eq j i, lookup-IsAbove j m (IsAbove-trans j i m below o.0))
    | inr l ↦ ground (arith, bytes_eq_iff i j, lookup-next_key t u j m o.1)
  ]

  pub lookup-next_key-none :
      (t j : Bytes) (m : List (Bytes × V))
      → next_key t m ≡ none
      → bytes_lt t j ≡ true
      → lookup j m ≡ none
  unfolding next_key lookup
  lookup-next_key-none t j [] e h = refl
  lookup-next_key-none t j ((i, v) ∷ m) e h =
      ground (arith, bytes_eq_iff i j, lookup-next_key-none t j m)

  pub lookup-first_key :
      (u j : Bytes) (m : List (Bytes × V))
      → IsOrdered m
      → first_key m ≡ some u
      → bytes_lt j u ≡ true
      → lookup j m ≡ none
  unfolding first_key lookup
  lookup-first_key u j [] o e k = refl
  lookup-first_key u j ((i, v) ∷ m) o e k =
      let below : bytes_lt j i ≡ true = ground arith in
      ground (arith, bytes_lt-eq j i, lookup-IsAbove j m (IsAbove-trans j i m below o.0))

  pub lookup-first_key-none :
      (j : Bytes) (m : List (Bytes × V)) → first_key m ≡ none → lookup j m ≡ none
  unfolding first_key lookup
  lookup-first_key-none j [] e = refl
  lookup-first_key-none j (x ∷ m) e = absurd cc
