-- ===== src/Lines.antt =====
-- The string functions that the telegram parser of src/meter_master.cpp uses: std::getline,
-- std::remove, std::string::find with substr, std::regex_search for its two patterns, std::stoul.
pub mod Match
pub mod Version
use smartmeter_gateway.Prelude.{
  ℕ, ◌+◌, ◌*◌, ◌-◌, ◌%◌, ◌^◌, Bool, true, false, not, ◌&&◌, ◌||◌, List, [], ◌∷◌, ◌++◌, Option, none,
  some, ◌==◌, ltb, leb, if◌then◌else◌, Bytes,
}

-- `std::getline` until it fails, with the characters read so far of the line.
unfoldable pub last_line : Bytes → List Bytes
last_line [] = []
last_line (x ∷ xs) = (x ∷ xs) ∷ []

unfoldable pub lines_from : Bytes → Bytes → List Bytes
unfolding last_line
lines_from line [] = last_line line
lines_from line (c ∷ s) =
    if c == b'\n' then line ∷ lines_from [] s else lines_from (line ++ c ∷ []) s

-- `line.erase(std::remove(…, '\r'), line.end())`.
unfoldable pub without_cr : Bytes → Bytes
without_cr [] = []
without_cr (c ∷ s) = if c == b'\r' then without_cr s else c ∷ without_cr s

-- `value_unit.substr(0, value_unit.find("*"))`.
unfoldable pub before_star : Bytes → Bytes
before_star [] = []
before_star (c ∷ s) = if c == b'*' then [] else c ∷ before_star s

-- A pattern as a sequence of pieces: one character of a class, a greedy repetition, or the end.
pub data Piece : Type 0 where
  one many : (ℕ → Bool) → Piece
  at_end : Piece

-- `class+` with what follows it: as many characters as possible, fewer if the rest fails.
unfoldable pub match_many : (ℕ → Bool) → (Bytes → Option (List Bytes)) → Bytes → Option (List Bytes)
match_many p follow [] = none
match_many p follow (c ∷ s) =
    let longer = match_many p follow s in
    if not (p c) then none else elim longer [
      | some (m ∷ ms) ↦ some ((c ∷ m) ∷ ms)
      | some [] ↦ none
      | none ↦ elim (follow s) [ some ms ↦ some ((c ∷ []) ∷ ms) | none ↦ none ]
    ]

-- A match at the start of the text: what each piece has matched.
unfoldable pub match_pieces : List Piece → Bytes → Option (List Bytes)
match_pieces [] s = some []
match_pieces (one p ∷ ps) [] = none
match_pieces (one p ∷ ps) (c ∷ s) =
    if not (p c)
    then none
    else elim (match_pieces ps s) [ some ms ↦ some ((c ∷ []) ∷ ms) | none ↦ none ]
match_pieces (many p ∷ ps) s = match_many p (match_pieces ps) s
match_pieces (at_end ∷ ps) [] = match_pieces ps []
match_pieces (at_end ∷ ps) (c ∷ s) = none

abbrev pub char : ℕ → Piece
char x = one (λ c. c == x)

abbrev pub is_digit : ℕ → Bool
is_digit c = leb b'0' c && leb c b'9'

abbrev pub is_alnum : ℕ → Bool
is_alnum c = is_digit c || (leb b'A' c && leb c b'Z') || (leb b'a' c && leb c b'z')

-- `.` matches all but line terminators, which a line here no longer holds.
abbrev pub is_any : ℕ → Bool
is_any c = not (c == b'\n' || c == b'\r')

-- The two groups of a match.
pub record Groups : Type 0 where
  pub group1 : Bytes
  pub group2 : Bytes

abbrev pub digits : Piece
digits = many is_digit

abbrev pub any : Piece
any = one is_any

-- `^([0-9]-0:[0-9]+.[0-9]+.[0-9]+\*255)\(([^)]+)\)`
abbrev pub obex_regex : List Piece
obex_regex =
    one is_digit
    ∷ char b'-'
    ∷ char b'0'
    ∷ char b':'
    ∷ digits
    ∷ any
    ∷ digits
    ∷ any
    ∷ digits
    ∷ char b'*'
    ∷ char b'2'
    ∷ char b'5'
    ∷ char b'5'
    ∷ char b'('
    ∷ many (λ c. not (c == b')'))
    ∷ char b')'
    ∷ []

unfoldable pub obex_groups : List Bytes → Option Groups
obex_groups (a ∷ m ∷ z ∷ d ∷ b1 ∷ s1 ∷ b2 ∷ s2 ∷ b3 ∷ x ∷ t ∷ f ∷ g ∷ o ∷ v ∷ _) = some (record {
  group1 =
      a ++ (m ++ (z ++ (d ++ (b1 ++ (s1 ++ (b2 ++ (s2 ++ (b3 ++ (x ++ (t ++ (f ++ (g))))))))))));
  group2 = v;
})
obex_groups _ = none

unfoldable pub found : (List Bytes → Option Groups) → Option (List Bytes) → Option Groups
found groups none = none
found groups (some ms) = groups ms

unfoldable pub search_obex : Bytes → Option Groups
unfolding obex_groups found
search_obex line = found obex_groups (match_pieces obex_regex line)

-- `^(\/[A-Za-z0-9]+)_([A-Za-z0-9]+)$`
abbrev pub version_regex : List Piece
version_regex = char b'/' ∷ many is_alnum ∷ char b'_' ∷ many is_alnum ∷ at_end ∷ []

unfoldable pub version_groups : List Bytes → Option Groups
version_groups (s ∷ a ∷ u ∷ v ∷ _) = some (record { group1 = s ++ a; group2 = v })
version_groups _ = none

unfoldable pub search_version : Bytes → Option Groups
unfolding version_groups found
search_version line = found version_groups (match_pieces version_regex line)

abbrev is_space : ℕ → Bool
is_space c = c == b' ' || (leb 9 c && leb c 13)

-- The value of a hexadecimal digit.
unfoldable pub hex_digit : ℕ → Option ℕ
hex_digit c =
    if is_digit c
    then some (c - b'0')
    else if leb b'A' c && leb c b'F'
    then some (c - b'A' + 10)
    else if leb b'a' c && leb c b'f'
    then some (c - b'a' + 10)
    else none

-- The digits at the start of a text behind a value.
unfoldable pub hex_value : ℕ → Bytes → ℕ
hex_value n [] = n
hex_value n (c ∷ s) = elim (hex_digit c) [ some d ↦ hex_value (n * 16 + d) s | none ↦ n ]

unfoldable pub hex_number : Bytes → Option ℕ
unfolding hex_digit hex_value
hex_number [] = none
hex_number (c ∷ s) = elim (hex_digit c) [ some d ↦ some (hex_value d s) | none ↦ none ]

-- A prefix `0x` counts only in front of a digit.
unfoldable pub hex_prefixed : Bytes → Option ℕ
unfolding hex_number
hex_prefixed (z ∷ x ∷ s) =
    if z == b'0' && (x == b'x' || x == b'X')
    then elim (hex_number s) [ some n ↦ some n | none ↦ some 0 ]
    else hex_number (z ∷ x ∷ s)
hex_prefixed s = hex_number s

-- Negation of an `unsigned long`.
abbrev negated : ℕ → ℕ
negated n = (2 ^ 64 - n) % 2 ^ 64

abbrev in_range : Option ℕ → Option ℕ
in_range none = none
in_range (some n) = if ltb n (2 ^ 64) then some n else none

unfoldable pub hex_signed : Bytes → Option ℕ
unfolding hex_prefixed
hex_signed [] = none
hex_signed (c ∷ s) =
    if c == b'+'
    then in_range (hex_prefixed s)
    else if c == b'-'
    then elim (in_range (hex_prefixed s)) [ some n ↦ some (negated n) | none ↦ none ]
    else in_range (hex_prefixed (c ∷ s))

-- `std::stoul(s, nullptr, 16)` with an `unsigned long` of 64 bits: none where it throws.
unfoldable pub stoul_hex : Bytes → Option ℕ
unfolding hex_signed
stoul_hex [] = none
stoul_hex (c ∷ s) = let rest = stoul_hex s in if is_space c then rest else hex_signed (c ∷ s)
