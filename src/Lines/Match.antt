-- ===== src/Lines/Match.antt =====
-- How the string functions act on a text that was printed line by line, and what the pattern of a
-- data line finds in one.
use mathlib.Core.List.{append_assoc}
use smartmeter_gateway.Prelude.{
  ℕ, Bool, true, false, not, List, [], ◌∷◌, ◌++◌, ◌≡◌, ◌≢◌, ap, refl, Option, none, some, arith,
  Bytes, All, ◌==◌,
}
use smartmeter_gateway.Lines.{
  lines_from, without_cr, Piece, one, many, char, match_many, match_pieces, is_digit, obex_regex,
  obex_groups, search_obex, found,
}

abbrev pub IsPlain : Bytes → Type 0
IsPlain s = All (λ c. (c ≢ b'\n') × (c ≢ b'\r')) s

-- A line and its end, with a text behind it.
abbrev pub crlf : Bytes → Bytes → Bytes
crlf line rest = line ++ b'\r' ∷ b'\n' ∷ rest

broken_lines :
    (line l s : Bytes)
    → IsPlain l
    → lines_from line (crlf l s) ≡ (line ++ (l ++ b'\r' ∷ [])) ∷ lines_from [] s
unfolding lines_from
broken_lines line [] s h = refl
broken_lines line (c ∷ l) s h =
    ground
      (arith, broken_lines (line ++ c ∷ []) l s h.1, append_assoc line (c ∷ []) (l ++ b'\r' ∷ []))

pub lines_from-crlf :
    (l s : Bytes) → IsPlain l → lines_from [] (crlf l s) ≡ (l ++ b'\r' ∷ []) ∷ lines_from [] s
lines_from-crlf l s h = broken_lines [] l s h

pub without_cr_plain : (l : Bytes) → IsPlain l → without_cr (l ++ b'\r' ∷ []) ≡ l
unfolding without_cr
without_cr_plain [] h = refl
without_cr_plain (c ∷ l) h = ground (arith, without_cr_plain l h.1)

-- A greedy repetition takes a run of its class, if what follows the run does not go on with it.
pub match_many-run :
    (p : ℕ → Bool) (follow : Bytes → Option (List Bytes)) (c : ℕ) (m rest : Bytes) (ms : List Bytes)
    → All (λ x. p x ≡ true) (c ∷ m)
    → match_many p follow rest ≡ none
    → follow rest ≡ some ms
    → match_many p follow (c ∷ (m ++ rest)) ≡ some ((c ∷ m) ∷ ms)
unfolding match_many
match_many-run p follow c [] rest ms h e f = ground arith
match_many-run p follow c (d ∷ m) rest ms h e f =
    let ih = match_many-run p follow d m rest ms h.1 e f in ground (arith, ih)

pub match_many_stop :
    (p : ℕ → Bool) (follow : Bytes → Option (List Bytes)) (c : ℕ) (s : Bytes)
    → p c ≡ false
    → match_many p follow (c ∷ s) ≡ none
unfolding match_many
match_many_stop p follow c s h = ground arith

pub match_many_run :
    (p : ℕ → Bool) (follow : Bytes → Option (List Bytes)) (m rest : Bytes) (ms : List Bytes)
    → All (λ x. p x ≡ true) m
    → m ≢ []
    → match_many p follow rest ≡ none
    → follow rest ≡ some ms
    → match_many p follow (m ++ rest) ≡ some (m ∷ ms)
match_many_run p follow [] rest ms h n e f = absurd (n refl)
match_many_run p follow (c ∷ m) rest ms h n e f = match_many-run p follow c m rest ms h e f

-- A text of decimal digits.
pub record IsNumber (s : Bytes) : Type 0 where
  pub digits : All (λ c. is_digit c ≡ true) s
  pub some_digit : s ≢ []

-- What may stand between the parentheses.
pub record IsValue (s : Bytes) : Type 0 where
  pub inside : All (λ c. not (c == b')') ≡ true) s
  pub some_char : s ≢ []

-- An OBIS code, as its medium and its three numbers.
pub record ObisCode : Type 0 where
  pub medium : ℕ
  pub measure : Bytes
  pub mode : Bytes
  pub tariff : Bytes

pub record IsObisCode (c : ObisCode) : Type 0 where
  pub medium : is_digit c.medium ≡ true
  pub measure : IsNumber c.measure
  pub mode : IsNumber c.mode
  pub tariff : IsNumber c.tariff

-- The code as it stands in a telegram, with a text behind it.
unfoldable pub print_code : ObisCode → Bytes → Bytes
print_code c rest =
    c.medium
    ∷ b'-'
    ∷ b'0'
    ∷ b':'
    ∷ (c.measure ++ b'.' ∷ (c.mode ++ b'.' ∷ (c.tariff ++ b'*' ∷ b'2' ∷ b'5' ∷ b'5' ∷ rest)))

abbrev pub value_text : Bytes → Bytes
value_text v = v ++ b')' ∷ []

match_value :
    (v : Bytes)
    → IsValue v
    → match_pieces (many (λ c. not (c == b')')) ∷ char b')' ∷ []) (value_text v)
      ≡ some (v ∷ (b')' ∷ []) ∷ [])
unfolding match_pieces
match_value v h =
    match_many_run (λ c. not (c == b')')) (match_pieces (char b')' ∷ [])) v (b')' ∷ [])
      ((b')' ∷ []) ∷ []) h.inside h.some_char (match_many_stop _ _ b')' [] refl) refl

abbrev behind : Bytes → Bytes
behind v = b'*' ∷ b'2' ∷ b'5' ∷ b'5' ∷ b'(' ∷ value_text v

match_number :
    (ps : List Piece) (n : Bytes) (c : ℕ) (s : Bytes) (ms : List Bytes)
    → IsNumber n
    → is_digit c ≡ false
    → match_pieces ps (c ∷ s) ≡ some ms
    → match_pieces (many is_digit ∷ ps) (n ++ c ∷ s) ≡ some (n ∷ ms)
unfolding match_pieces
match_number ps n c s ms h d e =
    match_many_run is_digit (match_pieces ps) n (c ∷ s) ms h.digits h.some_digit
      (match_many_stop is_digit (match_pieces ps) c s d) e

pub match_one :
    (p : ℕ → Bool) (ps : List Piece) (c : ℕ) (s : Bytes) (ms : List Bytes)
    → p c ≡ true
    → match_pieces ps s ≡ some ms
    → match_pieces (one p ∷ ps) (c ∷ s) ≡ some ((c ∷ []) ∷ ms)
unfolding match_pieces
match_one p ps c s ms h e = ground arith

abbrev pub pieces_of : ObisCode → Bytes → List Bytes
pieces_of c v =
    (c.medium ∷ [])
    ∷ (b'-' ∷ [])
    ∷ (b'0' ∷ [])
    ∷ (b':' ∷ [])
    ∷ c.measure
    ∷ (b'.' ∷ [])
    ∷ c.mode
    ∷ (b'.' ∷ [])
    ∷ c.tariff
    ∷ (b'*' ∷ [])
    ∷ (b'2' ∷ [])
    ∷ (b'5' ∷ [])
    ∷ (b'5' ∷ [])
    ∷ (b'(' ∷ [])
    ∷ v
    ∷ (b')' ∷ [])
    ∷ []

match_obex :
    (c : ObisCode) (v : Bytes)
    → IsObisCode c
    → IsValue v
    → match_pieces obex_regex (print_code c (b'(' ∷ value_text v)) ≡ some (pieces_of c v)
unfolding print_code
match_obex c v h w = match_one _ _ _ _ _ h.medium (
    match_one _ _ _ _ _ refl (
      match_one _ _ _ _ _ refl (
        match_one _ _ _ _ _ refl (
          match_number _ _ _ _ _ h.measure refl (
            match_one _ _ _ _ _ refl (
              match_number _ _ _ _ _ h.mode refl (
                match_one _ _ _ _ _ refl (
                  match_number _ _ _ _ _ h.tariff refl (
                    match_one _ _ _ _ _ refl (
                      match_one _ _ _ _ _ refl (
                        match_one _ _ _ _ _ refl (
                          match_one _ _ _ _ _ refl
                            (match_one _ _ _ _ _ refl (match_value v w))))))))))))))

-- A printed data line is found with its code and its value.
pub search_obex-print_code :
    (c : ObisCode) (v : Bytes)
    → IsObisCode c
    → IsValue v
    → search_obex (print_code c (b'(' ∷ value_text v))
      ≡ some (record { group1 = print_code c []; group2 = v })
unfolding search_obex print_code obex_groups found
search_obex-print_code c v h w = ap (found obex_groups) (match_obex c v h w)
