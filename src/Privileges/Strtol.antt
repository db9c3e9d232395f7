-- ===== src/Privileges/Strtol.antt =====
-- The C library as include/privileges.h uses it: `c_str` and `strtol` in base 10.
use smartmeter_gateway.Prelude.{
  ℕ, ◌+◌, ◌*◌, ◌-◌, ◌^◌, Bool, true, ◌&&◌, ◌||◌, [], ◌∷◌, Option, none, some, ◌==◌, leb, ltb,
  if◌then◌else◌, Bytes,
}

-- The characters before the first NUL.
unfoldable pub c_str : Bytes → Bytes
c_str [] = []
c_str (c ∷ s) = let rest = c_str s in if c == 0 then [] else c ∷ rest

-- `isspace` in the C locale.
abbrev pub is_space : ℕ → Bool
is_space c = c == 32 || (leb 9 c && leb c 13)

abbrev pub is_digit : ℕ → Bool
is_digit c = leb b'0' c && leb c b'9'

abbrev pub all_digits : Bytes → Bool
all_digits [] = true
all_digits (c ∷ s) = is_digit c && all_digits s

abbrev pub decimal_from : ℕ → Bytes → ℕ
decimal_from n [] = n
decimal_from n (c ∷ s) = decimal_from (n * 10 + (c - b'0')) s

-- `LONG_MAX` for a `long` of 64 bits, which a larger number becomes.
abbrev pub long_max : ℕ
long_max = 2 ^ 63 - 1

abbrev pub clamp : ℕ → ℕ
clamp n = if ltb long_max n then long_max else n

-- At least one digit and nothing behind the digits.
abbrev pub magnitude : Bytes → Option ℕ
magnitude [] = none
magnitude (c ∷ s) = if all_digits (c ∷ s) then some (clamp (decimal_from 0 (c ∷ s))) else none

-- A negative number is refused; -0 is 0.
abbrev pub negated : Option ℕ → Option ℕ
negated none = none
negated (some n) = if n == 0 then some 0 else none

unfoldable pub signed : Bytes → Option ℕ
signed [] = none
signed (c ∷ s) =
    if c == b'-'
    then negated (magnitude s)
    else if c == b'+'
    then magnitude s
    else magnitude (c ∷ s)

-- The number that `strtol` reads, if it reads the whole text (`*endptr == '\0'`) and the number is
-- not negative. For a text without digits `endptr` is its start, where the text has a character
-- unless it is empty.
unfoldable pub number : Bytes → Option ℕ
unfolding signed
number [] = none
number (c ∷ s) = let rest = number s in if is_space c then rest else signed (c ∷ s)

abbrev empty_is_zero : Bytes → Option ℕ → Option ℕ
empty_is_zero [] n = some 0
empty_is_zero (c ∷ s) n = n

unfoldable pub numeric_id : Bytes → Option ℕ
numeric_id s = empty_is_zero s (number s)
