-- ===== src/Slave/Texts.antt =====
-- A series of string writes of src/meter_slave.cpp: what it leaves in the registers of the strings,
-- and outside of them.
use smartmeter_gateway.Prelude.{
  ℕ, ◌+◌, ◌*◌, ◌≤◌, ◌<◌, ◌⊎◌, inl, inr, Bool, true, ◌&&◌, ◌||◌, List, [], ◌∷◌, ◌≡◌, refl, ◌∙◌, ap,
  arith, leb, ltb, Bool-cases, Bytes, some, length, All,
}
use smartmeter_gateway.Real.{RealOps}
use smartmeter_gateway.Register.{Register, string}
use smartmeter_gateway.Pack.{Mapping, store, pack_text, pack_to_modbus, text}
use smartmeter_gateway.Pack.Memory.{read, read_congr, store_out}
use smartmeter_gateway.Pack.Text.{
  read_text, IsChar, length-pack_text, until_nul, bytes_of, until_nul-pack_text, read-pack_text,
}
use smartmeter_gateway.Slave.{Filling, filled, fill_texts}

abbrev pub Text : Type 0
Text = Register × Bytes

abbrev pub IsString : Text → Type 0
IsString (reg, s) = reg.type ≡ string

-- The string fits its register.
abbrev pub Fits : Text → Type 0
Fits (reg, s) = length s ≤ reg.nb * 2

abbrev pub IsText : Text → Type 0
IsText (reg, s) = All IsChar s

abbrev pub Reads : Mapping → Text → Type 0
Reads m (reg, s) = read_text m reg ≡ s

abbrev pub apart : Register → Register → Bool
apart r t = leb (r.addr + r.nb) t.addr || leb (t.addr + t.nb) r.addr

abbrev pub apart_all : Register → List Text → Bool
apart_all r [] = true
apart_all r ((t, s) ∷ ws) = apart r t && apart_all r ws

abbrev pub separate : List Text → Bool
separate [] = true
separate ((r, s) ∷ ws) = apart_all r ws && separate ws

abbrev pub within : ℕ → ℕ → List Text → Bool
within lo hi [] = true
within lo hi ((r, s) ∷ ws) = leb lo r.addr && leb (r.addr + r.nb) hi && within lo hi ws

pub text_all : Mapping → List Text → Mapping
text_all m [] = m
text_all m ((r, s) ∷ ws) = text_all (store m r.addr (pack_text r s)) ws

pub filled_fits :
    (ops : RealOps) (r : Register) (s : Bytes) (f : Filling)
    → r.type ≡ string
    → length s ≤ r.nb * 2
    → filled (pack_to_modbus ops (some f.mapping) r (text s)) f
      ≡ record { mapping = store f.mapping r.addr (pack_text r s); handler = f.handler }
unfolding filled pack_to_modbus
filled_fits ops r s f h fits = rw h (ground arith)

pub fill_texts-eq-text_all :
    (ops : RealOps) (ws : List Text) (f : Filling)
    → All IsString ws
    → All Fits ws
    → fill_texts ops ws f ≡ record { mapping = text_all f.mapping ws; handler = f.handler }
unfolding fill_texts text_all
fill_texts-eq-text_all ops [] f h fits = refl
fill_texts-eq-text_all ops ((r, s) ∷ ws) f h fits =
    rw (filled_fits ops r s f h.0 fits.0) (fill_texts-eq-text_all ops ws _ h.1 fits.1)

pub text_all_keeps :
    (ws : List Text) (m : Mapping) (r : Register)
    → All Fits ws
    → apart_all r ws ≡ true
    → read (text_all m ws) r.addr r.nb ≡ read m r.addr r.nb
unfolding text_all
text_all_keeps [] m r fits a = refl
text_all_keeps ((t, s) ∷ ws) m r fits a =
    text_all_keeps ws (store m t.addr (pack_text t s)) r fits.1 (ground arith)
    ∙ read_congr (store m t.addr (pack_text t s)) m r.addr r.nb (λ b p q.
      store_out m t.addr (pack_text t s) b (let n = length-pack_text t s fits.0 in ground arith))

pub text_all-Reads :
    (ws : List Text) (m : Mapping)
    → All Fits ws
    → All IsText ws
    → separate ws ≡ true
    → All (Reads (text_all m ws)) ws
unfolding text_all
text_all-Reads [] m fits h sep = tt
text_all-Reads ((r, s) ∷ ws) m fits h sep = (
  ap (λ (x : List ℕ). until_nul (bytes_of x))
        (text_all_keeps ws (store m r.addr (pack_text r s)) r fits.1 (ground arith)
          ∙ read-pack_text m r s fits.0)
      ∙ until_nul-pack_text r s h.0,
  text_all-Reads ws (store m r.addr (pack_text r s)) fits.1 h.1 (ground arith),
)

-- Outside the registers of the texts nothing changes.
pub text_all_out :
    (ws : List Text) (m : Mapping) (lo hi b : ℕ)
    → All Fits ws
    → within lo hi ws ≡ true
    → (b < lo) ⊎ (hi ≤ b)
    → text_all m ws b ≡ m b
unfolding text_all
text_all_out [] m lo hi b fits w h = refl
text_all_out ((r, s) ∷ ws) m lo hi b fits w h =
    text_all_out ws (store m r.addr (pack_text r s)) lo hi b fits.1 (ground arith) h
    ∙ store_out m r.addr (pack_text r s) b (let n = length-pack_text r s fits.0 in ground arith)

filled_long_same :
    (ops : RealOps) (r : Register) (s : Bytes) (f : Filling)
    → r.type ≡ string
    → ltb (r.nb * 2) (length s) ≡ true
    → (filled (pack_to_modbus ops (some f.mapping) r (text s)) f).mapping ≡ f.mapping
unfolding filled pack_to_modbus
filled_long_same ops r s f h long = rw h (rw long)

-- A string write stays within its register, whether it is accepted or refused.
filled_text_out :
    (ops : RealOps) (r : Register) (s : Bytes) (f : Filling) (a : ℕ)
    → r.type ≡ string
    → (a < r.addr) ⊎ (r.addr + r.nb ≤ a)
    → (filled (pack_to_modbus ops (some f.mapping) r (text s)) f).mapping a ≡ f.mapping a
filled_text_out ops r s f a t h = elim (Bool-cases (ltb (r.nb * 2) (length s))) [
  | inl long ↦ ap (λ (m : Mapping). m a) (filled_long_same ops r s f t long)
  | inr fits ↦
      let short : length s ≤ r.nb * 2 = ground arith in
      rw (filled_fits ops r s f t short) (
        store_out f.mapping r.addr (pack_text r s) a
          (let n = length-pack_text r s short in ground arith))
]

pub fill_texts_out :
    (ops : RealOps) (ws : List Text) (f : Filling) (lo hi a : ℕ)
    → All IsString ws
    → within lo hi ws ≡ true
    → (a < lo) ⊎ (hi ≤ a)
    → (fill_texts ops ws f).mapping a ≡ f.mapping a
unfolding fill_texts
fill_texts_out ops [] f lo hi a t w h = refl
fill_texts_out ops ((r, s) ∷ ws) f lo hi a t w h =
    fill_texts_out ops ws _ lo hi a t.1 (ground arith) h
    ∙ filled_text_out ops r s f a t.0 (ground arith)
