-- ===== src/Pack.antt =====
-- include/modbus_utils.h: values packed into Modbus registers. A mapping is the contents of
-- `tab_registers` by address; the hosts are little-endian, as `memcpy` in `packInteger` relies on.
pub mod Memory
pub mod Integer
pub mod Text
use smartmeter_gateway.Prelude.{
  ℕ, zero, suc, ◌+◌, ◌-◌, ◌*◌, ◌/◌, ◌%◌, ◌^◌, Bool, true, false, List, [], ◌∷◌, ◌++◌, Option, none,
  some, ◌==◌, ltb, if◌then◌else◌, Bytes, length,
}
use mathlib.Core.List.{reverse}
use smartmeter_gateway.ModbusError.{Result, ok, err, einval, custom}
use smartmeter_gateway.Real.{RealOps}
use smartmeter_gateway.Register.{
  Register, RegType, uint16, int16, uint32, uint64, float, string, unknown,
}

abbrev pub Mapping : Type 0
Mapping = ℕ → ℕ

unfoldable pub write : Mapping → ℕ → ℕ → Mapping
write m a w b = if b == a then w else m b

-- Consecutive registers from an address on.
unfoldable pub store : Mapping → ℕ → List ℕ → Mapping
store m a [] = m
store m a (w ∷ ws) = store (write m a w) (a + 1) ws

-- `memcpy` of an integer of `n` bytes into `buf`.
unfoldable pub memory_of : ℕ → ℕ → Bytes
memory_of zero v = []
memory_of (suc n) v = v % 256 ∷ memory_of n (v / 256)

-- The loop of `packInteger`: `(hi << 8) | lo` for each pair of bytes, low byte first.
unfoldable pub words_of : Bytes → List ℕ
words_of (lo ∷ hi ∷ rest) = (hi * 256 + lo) ∷ words_of rest
words_of _ = []

-- `packInteger<T>` for a type of `n` bytes: what it leaves in `dest`.
unfoldable pub pack_integer : ℕ → ℕ → List ℕ
unfolding memory_of words_of
pack_integer n v = reverse (words_of (memory_of n v))

-- The loop over the characters of a string, two to a register, high byte first.
unfoldable pub text_words : Bytes → List ℕ
text_words (hi ∷ lo ∷ rest) = (hi * 256 + lo) ∷ text_words rest
text_words (hi ∷ []) = hi * 256 ∷ []
text_words [] = []

unfoldable pub zeros : ℕ → List ℕ
zeros zero = []
zeros (suc n) = 0 ∷ zeros n

-- The writes of the STRING case: the text, then zeros up to the size of the register.
unfoldable pub pack_text : Register → Bytes → List ℕ
unfolding text_words zeros
pack_text reg value = text_words value ++ zeros (reg.nb - (length value + 1) / 2)

-- `static_cast<uint16_t>(-static_cast<int16_t>(decimals))`; the callers pass 0 to 3.
abbrev pub scale_word : ℕ → ℕ
scale_word decimals = (65536 - decimals % 65536) % 65536

module _ (ops : RealOps) where
  open ops use {Real}

  -- The argument of `packToModbus<T>`: `T` is an integer type, a floating-point type or a string.
  -- An integer is its bit pattern.
  pub data Value : Type 0 where
    integer : ℕ → Value
    real : Real → Value
    text : Bytes → Value

  -- One case of the switch for each register type. A type that does not fit `T` writes nothing.
  unfoldable pub pack_value : Mapping → Register → RegType → Value → Result Mapping
  pack_value m reg int16 (integer v) = ok (write m reg.addr (v % 65536))
  pack_value m reg uint16 (integer v) = ok (write m reg.addr (v % 65536))
  pack_value m reg uint32 (integer v) = ok (store m reg.addr (pack_integer 4 (v % 2 ^ 32)))
  pack_value m reg uint64 (integer v) = ok (store m reg.addr (pack_integer 8 (v % 2 ^ 64)))
  pack_value m reg float (real x) =
      ok (store m reg.addr ((ops.float_abcd x).0 ∷ (ops.float_abcd x).1 ∷ []))
  pack_value m reg string (text value) =
      if ltb (reg.nb * 2) (length value)
      then err (custom einval)
      else ok (store m reg.addr (pack_text reg value))
  pack_value m reg unknown v = err (custom einval)
  pack_value m reg _ v = ok m

  -- `packToModbus(dest, reg, value)`; `none` stands for a null mapping or null `tab_registers`.
  unfoldable pub pack_to_modbus : Option Mapping → Register → Value → Result Mapping
  unfolding pack_value
  pack_to_modbus none reg v = err (custom einval)
  pack_to_modbus (some m) reg v = pack_value m reg reg.type v

  -- `std::round(realValue * std::pow(10, decimals))`.
  abbrev pub scaled : Real → ℕ → Real
  scaled x decimals = ops.round (ops.mul x (ops.pow (ops.literal 10 0) decimals))

  -- The registers of a value that is encoded as an integer.
  unfoldable pub scaled_words : RegType → Real → ℕ → Result (List ℕ)
  scaled_words int16 x d = ok (ops.to_signed 16 (scaled x d) ∷ [])
  scaled_words uint16 x d = ok (ops.to_unsigned 16 (scaled x d) ∷ [])
  scaled_words uint32 x d = ok (pack_integer 4 (ops.to_unsigned 32 (scaled x d)))
  scaled_words uint64 x d = ok (pack_integer 8 (ops.to_unsigned 64 (scaled x d)))
  scaled_words _ x d = err (custom einval)

  -- `packToModbus(dest, reg, sf, realValue, decimals)`.
  unfoldable pub pack_scaled : Option Mapping → Register → Register → Real → ℕ → Result Mapping
  unfolding scaled_words
  pack_scaled none reg sf x d = err (custom einval)
  pack_scaled (some m) reg sf x d = elim (scaled_words reg.type x d) [
    | ok ws ↦ ok (write (store m reg.addr ws) sf.addr (scale_word d))
    | err e ↦ err e
  ]
