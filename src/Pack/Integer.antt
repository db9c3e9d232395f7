-- ===== src/Pack/Integer.antt =====
-- `packInteger`: the words are the value's, most significant first.
use smartmeter_gateway.Prelude.{ℕ, ◌+◌, ◌*◌, ◌/◌, ◌%◌, ◌^◌, List, [], ◌∷◌, ◌≡◌, arith}
use smartmeter_gateway.Pack.{pack_integer}

-- The value of some registers, the first one most significant.
unfoldable pub value_from : ℕ → List ℕ → ℕ
value_from acc [] = acc
value_from acc (w ∷ ws) = value_from (acc * 65536 + w) ws

abbrev pub value_of : List ℕ → ℕ
value_of = value_from 0

pub pack_integer_two : (v : ℕ) → pack_integer 4 v ≡ (v / 65536 % 65536) ∷ v % 65536 ∷ []
unfolding pack_integer
pack_integer_two v = ground arith

pub value_of-pack_integer_32 : (v : ℕ) → value_of (pack_integer 4 v) ≡ v % 2 ^ 32
unfolding pack_integer value_from
value_of-pack_integer_32 v = omega arith

pub value_of-pack_integer_64 : (v : ℕ) → value_of (pack_integer 8 v) ≡ v % 2 ^ 64
unfolding pack_integer value_from
value_of-pack_integer_64 v = omega arith
