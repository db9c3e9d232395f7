-- ===== src/Real.antt =====
-- `double` as the source uses it: the operations of the language, of <cmath> and of libmodbus on it
-- are a parameter. Laws are asked for only where a theorem needs them.
pub mod Whole
use smartmeter_gateway.Prelude.{ℕ, Bool, Option, Bytes}

pub record RealOps : Type 1 where
  pub Real : Type 0
  -- A literal `n / 10 ^ d` of the source, and the arithmetic.
  pub literal : ℕ → ℕ → Real
  pub add : Real → Real → Real
  pub mul : Real → Real → Real
  pub div : Real → Real → Real
  pub neg : Real → Real
  pub less : Real → Real → Bool
  pub less_eq : Real → Real → Bool
  -- <cmath>.
  pub abs : Real → Real
  pub sqrt : Real → Real
  pub tan : Real → Real
  pub sin : Real → Real
  pub acos : Real → Real
  pub round : Real → Real
  pub pow : Real → ℕ → Real
  -- `std::stod`: none where it throws.
  pub stod : Bytes → Option Real
  -- `static_cast` to a signed or an unsigned integer type of the given number of bits, as the bit
  -- pattern. Outside the range of the type the behaviour of the source is undefined; the parameter
  -- is then the pattern that the processor leaves.
  pub to_signed : ℕ → Real → ℕ
  pub to_unsigned : ℕ → Real → ℕ
  -- The two registers, high one first, that `modbus_set_float_abcd` writes for
  -- `static_cast<float>(x)`.
  pub float_abcd : Real → ℕ × ℕ
