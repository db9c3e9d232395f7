-- ===== src/Mqtt/Window.antt =====
-- The newest messages of a queue, and the number of the others.
use mathlib.Core.List.{append-nil}
use smartmeter_gateway.Prelude.{
  ℕ, zero, suc, ◌+◌, ◌-◌, ◌≤◌, ◌<◌, List, [], ◌∷◌, ◌++◌, ◌≡◌, refl, ap, sym, ◌∙◌, inl, inr, arith,
  Bool-cases, ltb, Bytes, length, length-append, if◌then◌else◌,
}
use smartmeter_gateway.Mqtt.{pop}
use smartmeter_gateway.Mqtt.Channel.{last_of, surplus, drop}

pub surplus-add :
    (n : ℕ) (q : List Bytes) (p : Bytes)
    → 0 < n
    → length q ≤ n
    → surplus n (q ++ p ∷ []) ≡ (if ltb (length q) n then 0 else 1)
unfolding surplus
surplus-add n q p h b = ground (arith, length-append q (p ∷ []))

drop_one : (k : ℕ) (x : Bytes) (xs : List Bytes) → k ≡ 1 → drop k (x ∷ xs) ≡ xs
drop_one k x xs e = rw e

drop_none : (k : ℕ) (xs : List Bytes) → k ≡ 0 → drop k xs ≡ xs
drop_none k xs e = rw e

-- A new message and a queue within its bound lose the oldest message if the queue is full.
pub last_of-add :
    (n : ℕ) (q : List Bytes) (p : Bytes)
    → 0 < n
    → length q ≤ n
    → last_of n (q ++ p ∷ []) ≡ (if ltb (length q) n then q else pop q) ++ p ∷ []
unfolding last_of
last_of-add n [] p h b = drop_none (1 - n) (p ∷ []) (omega arith) ∙ ground arith
last_of-add n (x ∷ xs) p h b = elim (Bool-cases (ltb (length (x ∷ xs)) n)) [
  | inl room ↦
      rw room (drop_none _ (x ∷ (xs ++ p ∷ [])) (ground (arith, length-append xs (p ∷ []))))
  | inr full ↦ rw full (drop_one _ x (xs ++ p ∷ []) (ground (arith, length-append xs (p ∷ []))))
]

pub pop_eq : (q : List Bytes) → pop q ≡ drop 1 q
pop_eq [] = refl
pop_eq (x ∷ xs) = refl

length-drop : (k : ℕ) (xs : List Bytes) → length (drop k xs) ≡ length xs - k
length-drop zero xs = omega arith
length-drop (suc k) [] = omega arith
length-drop (suc k) (x ∷ xs) = omega (arith, length-drop k xs)

drop-append : (k : ℕ) (xs ys : List Bytes) → k ≤ length xs → drop k xs ++ ys ≡ drop k (xs ++ ys)
drop-append zero xs ys h = refl
drop-append (suc k) [] ys h = absurd (omega arith)
drop-append (suc k) (x ∷ xs) ys h = drop-append k xs ys (omega arith)

drop_eq : (i k : ℕ) (xs : List Bytes) → i ≡ k → drop i xs ≡ drop k xs
drop_eq i k xs e = ap (λ (z : ℕ). drop z xs) e

drop_nil : (i : ℕ) → drop i [] ≡ []
drop_nil zero = refl
drop_nil (suc i) = refl

drop-drop : (i k : ℕ) (xs : List Bytes) → drop i (drop k xs) ≡ drop (k + i) xs
drop-drop i zero xs = drop_eq i (0 + i) xs (omega arith)
drop-drop i (suc k) [] = drop_nil i ∙ sym (drop_nil (suc k + i))
drop-drop i (suc k) (x ∷ xs) =
    drop-drop i k xs ∙ drop_eq (suc (k + i)) (suc k + i) (x ∷ xs) (omega arith)

-- What has been dropped does not come back.
pub last_of-last_of :
    (n : ℕ) (xs ys : List Bytes) → last_of n (last_of n xs ++ ys) ≡ last_of n (xs ++ ys)
unfolding last_of
last_of-last_of n xs ys =
    let k = length xs - n in
    let ahead = drop-append k xs ys (omega arith) in
    let len = length-drop k (xs ++ ys) in
    ap (λ (zs : List Bytes). drop (length zs - n) zs) ahead
    ∙ drop-drop (length (drop k (xs ++ ys)) - n) k (xs ++ ys)
    ∙ drop_eq _ (length (xs ++ ys) - n) (xs ++ ys) (omega (arith, len, length-append xs ys))

pub length-last_of : (n : ℕ) (xs : List Bytes) → length (last_of n xs) ≤ n
unfolding last_of
length-last_of n xs = omega (arith, length-drop (length xs - n) xs)

pub last_of_all : (n : ℕ) (xs : List Bytes) → length xs ≤ n → xs ≡ last_of n (xs ++ [])
unfolding last_of
last_of_all n xs h =
    sym (append-nil xs) ∙ drop_eq 0 _ (xs ++ []) (omega (arith, length-append xs []))

pub surplus_none : (n : ℕ) (xs : List Bytes) → length xs ≤ n → surplus n (xs ++ []) ≡ 0
unfolding surplus
surplus_none n xs h = omega (arith, length-append xs [])

pub surplus-last_of :
    (n : ℕ) (xs ys : List Bytes)
    → surplus n xs + surplus n (last_of n xs ++ ys) ≡ surplus n (xs ++ ys)
unfolding last_of surplus
surplus-last_of n xs ys = omega (
  arith,
  length-append xs ys,
  length-append (drop (length xs - n) xs) ys,
  length-drop (length xs - n) xs,
)
