-- ===== src/Slave/Stores.antt =====
-- A series of stores into a mapping: what it leaves where its ranges do not clash.
use smartmeter_gateway.Prelude.{
  ℕ, ◌+◌, ◌⊎◌, inl, inr, Bool, true, ◌&&◌, ◌||◌, List, [], ◌∷◌, ◌≡◌, ◌∙◌, arith, leb, ◌==◌, length,
  All,
}
use smartmeter_gateway.Pack.{Mapping, store, scale_word}
use smartmeter_gateway.Pack.Memory.{read, read-store, read_congr, store_out}

-- A value's words, or the scale factor for a number of decimals.
pub data Store : Type 0 where
  value : ℕ → List ℕ → Store
  scale : ℕ → ℕ → Store

abbrev pub start_of : Store → ℕ
start_of (value a ws) = a
start_of (scale a d) = a

abbrev pub words : Store → List ℕ
words (value a ws) = ws
words (scale a d) = scale_word d ∷ []

unfoldable pub store_all : Mapping → List Store → Mapping
store_all m [] = m
store_all m (s ∷ ss) = store_all (store m (start_of s) (words s)) ss

abbrev pub Holds : Mapping → Store → Type 0
Holds m s = read m (start_of s) (length (words s)) ≡ words s

abbrev apart : Store → Store → Bool
apart s t =
    leb (start_of s + length (words s)) (start_of t)
    || leb (start_of t + length (words t)) (start_of s)

-- The later store `t` does not disturb `s`: their ranges are apart, or both write the same scale
-- factor.
abbrev pub clear : Store → Store → Bool
clear (scale a d) (scale b e) = apart (scale a d) (scale b e) || (a == b && d == e)
clear s t = apart s t

abbrev pub clear_all : Store → List Store → Bool
clear_all s [] = true
clear_all s (t ∷ ts) = clear s t && clear_all s ts

abbrev pub separate : List Store → Bool
separate [] = true
separate (s ∷ ss) = clear_all s ss && separate ss

apart-Holds :
    (m : Mapping) (s t : Store)
    → apart s t ≡ true
    → Holds m s
    → Holds (store m (start_of t) (words t)) s
apart-Holds m s t c h =
    read_congr (store m (start_of t) (words t)) m (start_of s) (length (words s))
      (λ b p q. store_out m (start_of t) (words t) b (ground arith))
    ∙ h

store-Holds : (m : Mapping) (s : Store) → Holds (store m (start_of s) (words s)) s
store-Holds m s = read-store m (start_of s) (words s)

clear-Holds :
    (m : Mapping) (s t : Store)
    → clear s t ≡ true
    → Holds m s
    → Holds (store m (start_of t) (words t)) s
clear-Holds m (scale a d) (scale b e) c h = elim (same c) [
  | inl far ↦ apart-Holds m (scale a d) (scale b e) far h
  | inr (p, q) ↦ rw (p, q) (store-Holds m (scale b e))
]
  where
    same :
        clear (scale a d) (scale b e) ≡ true
        → (apart (scale a d) (scale b e) ≡ true) ⊎ ((a ≡ b) × (d ≡ e))
    same c = ground arith
clear-Holds m (value a ws) t c h = apart-Holds m (value a ws) t c h
clear-Holds m (scale a d) (value b ws) c h = apart-Holds m (scale a d) (value b ws) c h

store_all-keeps :
    (ss : List Store) (m : Mapping) (s : Store)
    → clear_all s ss ≡ true
    → Holds m s
    → Holds (store_all m ss) s
unfolding store_all
store_all-keeps [] m s c h = h
store_all-keeps (t ∷ ts) m s c h =
    store_all-keeps ts (store m (start_of t) (words t)) s (ground arith)
      (clear-Holds m s t (ground arith) h)

-- Where no store disturbs an earlier one, all of them are found in the end.
pub store_all-Holds :
    (ss : List Store) (m : Mapping) → separate ss ≡ true → All (Holds (store_all m ss)) ss
unfolding store_all
store_all-Holds [] m c = tt
store_all-Holds (s ∷ ss) m c = (
  store_all-keeps ss (store m (start_of s) (words s)) s (ground arith) (store-Holds m s),
  store_all-Holds ss (store m (start_of s) (words s)) (ground arith),
)
