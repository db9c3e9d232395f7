-- ===== src/Real/Whole.antt =====
-- Whole numbers in place of doubles, for evaluations on concrete data.
use smartmeter_gateway.Prelude.{
  ℕ, ◌+◌, ◌*◌, ◌-◌, ◌/◌, ◌%◌, ◌^◌, Bool, [], ◌∷◌, Option, none, some, ◌&&◌, leb, ltb, if◌then◌else◌,
  Bytes,
}
use smartmeter_gateway.Real.{RealOps}

abbrev is_digit : ℕ → Bool
is_digit c = leb b'0' c && leb c b'9'

-- The digits at the start of a text behind a value.
abbrev decimal_from : ℕ → Bytes → ℕ
decimal_from n [] = n
decimal_from n (c ∷ s) =
    let rest = decimal_from (n * 10 + (c - b'0')) s in if is_digit c then rest else n

abbrev decimal : Bytes → Option ℕ
decimal [] = none
decimal (c ∷ s) = if is_digit c then some (decimal_from 0 (c ∷ s)) else none

-- Whole numbers in place of doubles.
abbrev pub whole : RealOps
whole = record {
  Real = ℕ;
  literal = λ n d. n / 10 ^ d;
  add = λ x y. x + y;
  mul = λ x y. x * y;
  div = λ x y. x / y;
  neg = λ x. 0;
  less = ltb;
  less_eq = leb;
  abs = λ x. x;
  sqrt = λ x. x;
  tan = λ x. x;
  sin = λ x. x;
  acos = λ x. x;
  round = λ x. x;
  pow = λ x n. x ^ n;
  stod = decimal;
  to_signed = λ bits x. x % 2 ^ bits;
  to_unsigned = λ bits x. x % 2 ^ bits;
  float_abcd = λ x. (x / 65536 % 65536, x % 65536);
}
