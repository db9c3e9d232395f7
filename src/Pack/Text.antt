-- ===== src/Pack/Text.antt =====
-- Strings in registers: what `packToModbus` stores is read back as the string.
use smartmeter_gateway.Prelude.{
  ℕ, zero, suc, ◌+◌, ◌-◌, ◌*◌, ◌/◌, ◌%◌, ◌≤◌, ◌<◌, List, [], ◌∷◌, ◌++◌, ◌≡◌, refl, ◌∙◌, ap, subst,
  arith, ◌==◌, if◌then◌else◌, Bytes, length, length-append, All,
}
use smartmeter_gateway.ModbusError.{ok, err, einval, custom}
use smartmeter_gateway.Real.{RealOps}
use smartmeter_gateway.Register.{Register, string}
use smartmeter_gateway.Pack.{Mapping, store, text_words, zeros, pack_text, pack_value, text}
use smartmeter_gateway.Pack.Memory.{read, read-store}

-- How a client reads a string: two bytes from each register, up to the first NUL.
unfoldable pub bytes_of : List ℕ → Bytes
bytes_of [] = []
bytes_of (w ∷ ws) = w / 256 ∷ w % 256 ∷ bytes_of ws

unfoldable pub until_nul : Bytes → Bytes
until_nul [] = []
until_nul (c ∷ cs) = if c == 0 then [] else c ∷ until_nul cs

abbrev pub read_text : Mapping → Register → Bytes
read_text m reg = until_nul (bytes_of (read m reg.addr reg.nb))

-- A character that a C string can hold.
abbrev pub IsChar : ℕ → Type 0
IsChar c = (0 < c) × (c < 256)

length-text_words : (s : Bytes) → length (text_words s) ≡ (length s + 1) / 2
unfolding text_words
length-text_words [] = omega arith
length-text_words (a ∷ []) = omega arith
length-text_words (a ∷ b ∷ s) = omega (arith, length-text_words s)

length-zeros : (n : ℕ) → length (zeros n) ≡ n
unfolding zeros
length-zeros zero = refl
length-zeros (suc n) = ap suc (length-zeros n)

-- The writes fill the register's range exactly.
pub length-pack_text :
    (reg : Register) (s : Bytes) → length s ≤ reg.nb * 2 → length (pack_text reg s) ≡ reg.nb
unfolding pack_text
length-pack_text reg s h = omega (
  arith,
  length-append (text_words s) (zeros (reg.nb - (length s + 1) / 2)),
  length-text_words s,
  length-zeros (reg.nb - (length s + 1) / 2),
)

until_nul-zeros : (n : ℕ) → until_nul (bytes_of (zeros n)) ≡ []
unfolding until_nul bytes_of zeros
until_nul-zeros zero = refl
until_nul-zeros (suc n) = refl

until_nul-pack :
    (s : Bytes) (n : ℕ) → All IsChar s → until_nul (bytes_of (text_words s ++ zeros n)) ≡ s
unfolding until_nul bytes_of text_words
until_nul-pack [] n h = until_nul-zeros n
until_nul-pack (a ∷ []) n h = ground (arith, h)
until_nul-pack (a ∷ b ∷ s) n h = ground (arith, until_nul-pack s n h.1.1, h.0, h.1.0)

pub until_nul-pack_text :
    (reg : Register) (s : Bytes) → All IsChar s → until_nul (bytes_of (pack_text reg s)) ≡ s
unfolding pack_text
until_nul-pack_text reg s h = until_nul-pack s _ h

-- The register's range holds the packed string.
pub read-pack_text :
    (m : Mapping) (reg : Register) (s : Bytes)
    → length s ≤ reg.nb * 2
    → read (store m reg.addr (pack_text reg s)) reg.addr reg.nb ≡ pack_text reg s
read-pack_text m reg s fits =
    subst (λ n. read (store m reg.addr (pack_text reg s)) reg.addr n ≡ pack_text reg s)
      (length-pack_text reg s fits) (read-store m reg.addr (pack_text reg s))

module _ (ops : RealOps) where
  -- A string of non-NUL characters that fits its register is stored so that it reads back as
  -- itself; a longer one is refused with EINVAL.
  pub read_text-pack_value :
      (m : Mapping) (reg : Register) (s : Bytes)
      → All IsChar s
      → (length s ≤ reg.nb * 2
          → (m' : Mapping) × (pack_value ops m reg string (text s) ≡ ok m')
            × (read_text m' reg ≡ s))
        × (reg.nb * 2 < length s → pack_value ops m reg string (text s) ≡ err (custom einval))
  unfolding pack_value
  read_text-pack_value m reg s h = (
    λ fits. (
      store m reg.addr (pack_text reg s),
      ground arith,
      ap (λ (ws : List ℕ). until_nul (bytes_of ws)) (read-pack_text m reg s fits)
          ∙ until_nul-pack_text reg s h,
    ),
    λ long. ground arith,
  )
