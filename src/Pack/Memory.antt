-- ===== src/Pack/Memory.antt =====
-- Reads behind writes, and reading registers back.
use smartmeter_gateway.Prelude.{
  ℕ, zero, suc, ◌+◌, ◌≤◌, ◌<◌, ◌⊎◌, inl, List, [], ◌∷◌, ◌≡◌, ◌≢◌, refl, ◌∙◌, arith, length,
}
use smartmeter_gateway.Pack.{Mapping, write, store}

-- The contents of `n` registers from an address on.
unfoldable pub read : Mapping → ℕ → ℕ → List ℕ
read m a zero = []
read m a (suc n) = m a ∷ read m (a + 1) n

pub write_self : (m : Mapping) (a w : ℕ) → write m a w a ≡ w
unfolding write
write_self m a w = ground arith

pub write_ne : (m : Mapping) (a w b : ℕ) → b ≢ a → write m a w b ≡ m b
unfolding write
write_ne m a w b h = ground arith

-- A store leaves every register outside its range alone.
pub store_out :
    (m : Mapping) (a : ℕ) (ws : List ℕ) (b : ℕ)
    → (b < a) ⊎ (a + length ws ≤ b)
    → store m a ws b ≡ m b
unfolding store
store_out m a [] b h = refl
store_out m a (w ∷ ws) b h =
    store_out (write m a w) (a + 1) ws b (omega arith) ∙ write_ne m a w b (omega arith)

-- What was stored is what is read back.
pub read-store : (m : Mapping) (a : ℕ) (ws : List ℕ) → read (store m a ws) a (length ws) ≡ ws
unfolding read store
read-store m a [] = refl
read-store m a (w ∷ ws) =
    rw (store_out (write m a w) (a + 1) ws a (inl (omega arith)), write_self m a w)
      (rw (read-store (write m a w) (a + 1) ws))

-- Reading depends on the registers read only.
pub read_congr :
    (m m' : Mapping) (a n : ℕ)
    → ((b : ℕ) → a ≤ b → b < a + n → m b ≡ m' b)
    → read m a n ≡ read m' a n
unfolding read
read_congr m m' a zero h = refl
read_congr m m' a (suc n) h =
    rw (h a (omega arith) (omega arith))
      (rw (read_congr m m' (a + 1) n (λ b p q. h b (omega arith) (omega arith))))
