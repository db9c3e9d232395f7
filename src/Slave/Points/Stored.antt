-- ===== src/Slave/Points/Stored.antt =====
-- The stores that make the points of a model read as they should.
use smartmeter_gateway.Prelude.{
  ℕ, ◌+◌, ◌%◌, ◌^◌, ◌≤◌, ◌<◌, ◌⊎◌, inl, inr, Bool, true, false, ◌||◌, ◌&&◌, List, [], ◌∷◌, ◌++◌,
  ◌≡◌, refl, ap, ◌∙◌, All, Option, none, some, if◌then◌else◌, arith, leb, ltb, ◌==◌, length,
  Bool-cases,
}
use smartmeter_gateway.Real.{RealOps}
use smartmeter_gateway.MeterTypes.{Values}
use smartmeter_gateway.Pack.{Mapping, pack_integer, scale_word}
use smartmeter_gateway.Pack.Memory.{read, store_out, read_congr}
use smartmeter_gateway.Pack.Integer.{value_of, value_of-pack_integer_32}
use smartmeter_gateway.Slave.Stores.{Store, value, scale, start_of, words, store_all, Holds}
use smartmeter_gateway.Slave.Points.{
  Encoding, float32, scaled_int16, scaled_uint32, Point, HasWords, covers, is_covered, decimal,
}

-- The first store at an address.
abbrev pub find_store : ℕ → List Store → Option Store
find_store a [] = none
find_store a (s ∷ ss) = if start_of s == a then some s else find_store a ss

-- The first series of stores has all those of the second.
abbrev pub HasAll : List Store → List Store → Type 0
HasAll ss ts = All (λ t. find_store (start_of t) ss ≡ some t) ts

found-Holds :
    (a : ℕ) (t : Store) (ss : List Store) (m : Mapping)
    → find_store a ss ≡ some t
    → All (Holds m) ss
    → Holds m t
found-Holds a t [] m e h = absurd cc
found-Holds a t (s ∷ ss) m e h = elim (Bool-cases (start_of s == a)) [
  | inl here ↦ let same : s ≡ t = ground arith in rw (← same) h.0
  | inr there ↦ found-Holds a t ss m (ground arith) h.1
]

pub HasAll-Holds :
    (ss ts : List Store) (m : Mapping) → HasAll ss ts → All (Holds m) ss → All (Holds m) ts
HasAll-Holds ss [] m a h = tt
HasAll-Holds ss (t ∷ ts) m a h = (found-Holds (start_of t) t ss m a.0 h, HasAll-Holds ss ts m a.1 h)

-- Whether one of the stores writes a register.
abbrev touched : ℕ → Store → Bool
touched b s = leb (start_of s) b && ltb b (start_of s + length (words s))

abbrev pub touches : ℕ → List Store → Bool
touches b [] = false
touches b (s ∷ ss) = touched b s || touches b ss

pub store_all_untouched :
    (ss : List Store) (m : Mapping) (b : ℕ) → touches b ss ≡ false → store_all m ss b ≡ m b
unfolding store_all
store_all_untouched [] m b h = refl
store_all_untouched (s ∷ ss) m b h =
    store_all_untouched ss _ b (ground arith) ∙ store_out m (start_of s) (words s) b (ground arith)

found-untouched :
    (a b : ℕ) (t : Store) (ss : List Store)
    → find_store a ss ≡ some t
    → touches b ss ≡ false
    → touched b t ≡ false
found-untouched a b t [] e h = absurd cc
found-untouched a b t (s ∷ ss) e h = elim (Bool-cases (start_of s == a)) [
  | inl here ↦ let same : s ≡ t = ground arith in rw (← same) (ground arith)
  | inr there ↦ found-untouched a b t ss (ground arith) (ground arith)
]

pub HasAll-untouched :
    (ss ts : List Store) (b : ℕ) → HasAll ss ts → touches b ss ≡ false → touches b ts ≡ false
HasAll-untouched ss [] b a h = refl
HasAll-untouched ss (t ∷ ts) b a h =
    ground (arith, found-untouched (start_of t) b t ss a.0 h, HasAll-untouched ss ts b a.1 h)

All-split {ℓ κ} :
    {A : Type ℓ} (P : A → Type κ) (xs ys : List A) → All P (xs ++ ys) → All P xs × All P ys
All-split P [] ys h = (tt, h)
All-split P (x ∷ xs) ys h = let both = All-split P xs ys h.1 in ((h.0, both.0), both.1)

module _ (ops : RealOps) where
  open ops use {Real, to_signed, to_unsigned, float_abcd}

  abbrev encoded : ℕ → Real → Encoding → List Store
  encoded a x float32 = value a ((float_abcd x).0 ∷ (float_abcd x).1 ∷ []) ∷ []
  encoded a x (scaled_int16 sf d) = value a (to_signed 16 (decimal ops x d) ∷ []) ∷ scale sf d ∷ []
  encoded a x (scaled_uint32 sf d) =
      value a (pack_integer 4 (to_unsigned 32 (decimal ops x d))) ∷ scale sf d ∷ []

  abbrev pub point_stores : Values Real → List (Point ops) → List Store
  point_stores v [] = []
  point_stores v (p ∷ ps) = encoded p.address (p.quantity v) p.encoding ++ point_stores v ps

  scale_word_lem : (d : ℕ) → d < 65536 → (scale_word d + d) % 65536 ≡ 0
  scale_word_lem d h = omega arith

  -- The scale factors of a table fit a register.
  abbrev HasSmallScale : Encoding → Type 0
  HasSmallScale float32 = Unit
  HasSmallScale (scaled_int16 sf d) = d < 65536
  HasSmallScale (scaled_uint32 sf d) = d < 65536

  abbrev pub HasSmallScales : List (Point ops) → Type 0
  HasSmallScales ps = All (λ p. HasSmallScale p.encoding) ps

  first_word : (m : Mapping) (a w : ℕ) → read m a 1 ≡ w ∷ [] → m a ≡ w
  unfolding read
  first_word m a w h = ground arith

  wide :
      (m : Mapping) (a v : ℕ)
      → read m a (length (pack_integer 4 v)) ≡ pack_integer 4 v
      → value_of (read m a 2) ≡ v % 2 ^ 32
  unfolding pack_integer
  wide m a v h = ap value_of h ∙ value_of-pack_integer_32 v

  encoded-HasWords :
      (m : Mapping) (a : ℕ) (x : Real) (e : Encoding)
      → HasSmallScale e
      → All (Holds m) (encoded a x e)
      → HasWords ops m a x e
  encoded-HasWords m a x float32 s k = k.0
  encoded-HasWords m a x (scaled_int16 sf n) s k =
      (first_word m a _ k.0, rw (first_word m sf _ k.1.0) (scale_word_lem n s))
  encoded-HasWords m a x (scaled_uint32 sf n) s k =
      (wide m a _ k.0, rw (first_word m sf _ k.1.0) (scale_word_lem n s))

  pub stores-HasWords :
      (v : Values Real) (ps : List (Point ops)) (m : Mapping)
      → HasSmallScales ps
      → All (Holds m) (point_stores v ps)
      → All (λ p. HasWords ops m p.address (p.quantity v) p.encoding) ps
  stores-HasWords v [] m d h = tt
  stores-HasWords v (p ∷ ps) m d h =
      let both = All-split (Holds m) (encoded p.address (p.quantity v) p.encoding) _ h in
      (
        encoded-HasWords m p.address (p.quantity v) p.encoding d.0 both.0,
        stores-HasWords v ps m d.1 both.1,
      )

  touched_wide : (a b v : ℕ) → touched b (value a (pack_integer 4 v)) ≡ leb a b && ltb b (a + 2)
  unfolding pack_integer
  touched_wide a b v = refl

  touched_scale : (sf b n : ℕ) → touched b (scale sf n) ≡ b == sf
  touched_scale sf b n = ground arith

  encoded-untouched :
      (a b : ℕ) (x : Real) (e : Encoding) (ss : List Store)
      → covers ops a b e ≡ false
      → touches b ss ≡ false
      → touches b (encoded a x e ++ ss) ≡ false
  encoded-untouched a b x float32 ss c r = ground (arith, r)
  encoded-untouched a b x (scaled_int16 sf n) ss c r = ground (arith, r)
  encoded-untouched a b x (scaled_uint32 sf n) ss c r =
      ground (arith, r, touched_wide a b (to_unsigned 32 (decimal ops x n)), touched_scale sf b n)

  pub point_stores-untouched :
      (v : Values Real) (ps : List (Point ops)) (b : ℕ)
      → is_covered ops b ps ≡ false
      → touches b (point_stores v ps) ≡ false
  point_stores-untouched v [] b h = refl
  point_stores-untouched v (p ∷ ps) b h =
      encoded-untouched p.address b (p.quantity v) p.encoding _ (ground arith)
        (point_stores-untouched v ps b (ground arith))

  -- Reading a point depends on the registers that it covers only.
  HasWords-congr :
      (m m' : Mapping) (a : ℕ) (x : Real) (e : Encoding)
      → ((b : ℕ) → covers ops a b e ≡ true → m b ≡ m' b)
      → HasWords ops m' a x e
      → HasWords ops m a x e
  HasWords-congr m m' a x float32 same h = read_congr m m' a 2 (λ b p q. same b (ground arith)) ∙ h
  HasWords-congr m m' a x (scaled_int16 sf n) same h =
      (same a (ground arith) ∙ h.0, rw (same sf (ground arith)) h.1)
  HasWords-congr m m' a x (scaled_uint32 sf n) same h = (
    ap value_of (read_congr m m' a 2 (λ b p q. same b (ground arith))) ∙ h.0,
    rw (same sf (ground arith)) h.1,
  )

  pub points-congr :
      (v : Values Real) (ps : List (Point ops)) (m m' : Mapping)
      → ((b : ℕ) → is_covered ops b ps ≡ true → m b ≡ m' b)
      → All (λ p. HasWords ops m' p.address (p.quantity v) p.encoding) ps
      → All (λ p. HasWords ops m p.address (p.quantity v) p.encoding) ps
  points-congr v [] m m' same h = tt
  points-congr v (p ∷ ps) m m' same h = (
    HasWords-congr m m' p.address (p.quantity v) p.encoding (λ b c. same b (ground arith)) h.0,
    points-congr v ps m m' (λ b c. same b (ground arith)) h.1,
  )

  -- Every register that a table covers lies in a range.
  abbrev lies : ℕ → ℕ → ℕ → Encoding → Bool
  lies lo hi a float32 = leb lo a && leb (a + 2) hi
  lies lo hi a (scaled_int16 sf d) = leb lo a && ltb a hi && leb lo sf && ltb sf hi
  lies lo hi a (scaled_uint32 sf d) = leb lo a && leb (a + 2) hi && leb lo sf && ltb sf hi

  abbrev pub lie : ℕ → ℕ → List (Point ops) → Bool
  lie lo hi [] = true
  lie lo hi (p ∷ ps) = lies lo hi p.address p.encoding && lie lo hi ps

  covers_out :
      (lo hi a b : ℕ) (e : Encoding)
      → lies lo hi a e ≡ true
      → (b < lo) ⊎ (hi ≤ b)
      → covers ops a b e ≡ false
  covers_out lo hi a b float32 l h = ground arith
  covers_out lo hi a b (scaled_int16 sf d) l h = ground arith
  covers_out lo hi a b (scaled_uint32 sf d) l h = ground arith

  pub is_covered_out :
      (lo hi b : ℕ) (ps : List (Point ops))
      → lie lo hi ps ≡ true
      → (b < lo) ⊎ (hi ≤ b)
      → is_covered ops b ps ≡ false
  is_covered_out lo hi b [] l h = refl
  is_covered_out lo hi b (p ∷ ps) l h = ground (
    arith,
    covers_out lo hi p.address b p.encoding (ground arith) h,
    is_covered_out lo hi b ps (ground arith) h,
  )
