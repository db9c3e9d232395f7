-- ===== src/Master/Readings/Print.antt =====
-- A printed telegram is read back: the values are those of its data lines, in their order. What a
-- telegram looks like is stated here independently of the parser.
use smartmeter_gateway.Prelude.{
  ℕ, true, false, List, [], ◌∷◌, ◌++◌, ◌≡◌, ◌∙◌, fun_ext, ap, refl, Option, some, arith, Bytes, All,
  ◌>>=◌,
}
use smartmeter_gateway.Real.{RealOps}
use smartmeter_gateway.Config.{GridConfig}
use smartmeter_gateway.Lines.{lines_from, search_obex, is_digit}
use smartmeter_gateway.Lines.Match.{
  ObisCode, IsObisCode, IsValue, print_code, value_text, search_obex-print_code, IsPlain, crlf,
  lines_from-crlf, without_cr_plain,
}
use smartmeter_gateway.Master.Readings.{
  Reading, is_blank, assign, assign_groups, read_text, read_line, read_lines, values_of, derive,
  initial,
}

-- A data line: an OBIS code and the text in parentheses.
pub record Entry : Type 0 where
  pub code : ObisCode
  pub value : Bytes

pub record IsEntry (e : Entry) : Type 0 where
  pub code : IsObisCode e.code
  pub value : IsValue e.value
  pub plain : IsPlain e.value

abbrev pub entry_line : Entry → Bytes
entry_line e = print_code e.code (b'(' ∷ value_text e.value)

unfoldable pub print_entries : List Entry → Bytes
print_entries [] = crlf (b'!' ∷ []) []
print_entries (e ∷ es) = crlf (entry_line e) (print_entries es)

-- The identification, an empty line, the data lines and the end.
abbrev pub print_telegram : Bytes → List Entry → Bytes
print_telegram ident es = crlf (b'/' ∷ ident) (crlf [] (print_entries es))

pub IsPlain-append : (s t : Bytes) → IsPlain s → IsPlain t → IsPlain (s ++ t)
IsPlain-append [] t h k = k
IsPlain-append (c ∷ s) t h k = (h.0, IsPlain-append s t h.1 k)

number-IsPlain : (s : Bytes) → All (λ c. is_digit c ≡ true) s → IsPlain s
number-IsPlain [] h = tt
number-IsPlain (c ∷ s) h = ((ground arith, ground arith), number-IsPlain s h.1)

pub entry_line-IsPlain : (e : Entry) → IsEntry e → IsPlain (entry_line e)
unfolding print_code
entry_line-IsPlain e h =
    let value = IsPlain-append e.value (b')' ∷ []) h.plain (ground arith) in
    let tariff =
      IsPlain-append e.code.tariff (b'*' ∷ b'2' ∷ b'5' ∷ b'5' ∷ b'(' ∷ value_text e.value)
        (number-IsPlain _ h.code.tariff.digits) (ground (arith, value)) in
    let mode =
      IsPlain-append e.code.mode
        (b'.' ∷ (e.code.tariff ++ b'*' ∷ b'2' ∷ b'5' ∷ b'5' ∷ b'(' ∷ value_text e.value))
        (number-IsPlain _ h.code.mode.digits) (ground (arith, tariff)) in
    let measure =
      IsPlain-append e.code.measure
        (b'.'
          ∷ (e.code.mode
              ++ b'.' ∷ (e.code.tariff ++ b'*' ∷ b'2' ∷ b'5' ∷ b'5' ∷ b'(' ∷ value_text e.value)))
        (number-IsPlain _ h.code.measure.digits) (ground (arith, mode)) in
    ground (arith, measure, h.code.medium)

pub search_entry :
    (e : Entry)
    → IsEntry e
    → search_obex (entry_line e) ≡ some (record { group1 = print_code e.code []; group2 = e.value })
search_entry e h = search_obex-print_code e.code e.value h.code h.value

entry_line-blank : (e : Entry) → IsEntry e → is_blank (entry_line e) ≡ false
unfolding print_code
entry_line-blank e h = ground (arith, h.code.medium)

module _ (ops : RealOps) where
  -- What the data lines say, one after the other; none at a number that cannot be read.
  unfoldable pub assign_all : List Entry → Reading ops.Real → Option (Reading ops.Real)
  assign_all [] r = some r
  assign_all (e ∷ es) r = assign ops (print_code e.code []) e.value r >>= (λ r'. assign_all es r')

  read_line-cr :
      (l : Bytes) (r : Reading ops.Real)
      → IsPlain l
      → read_line ops (l ++ b'\r' ∷ []) r ≡ read_text ops l r
  unfolding read_line
  read_line-cr l r h = ap (λ x. read_text ops x r) (without_cr_plain l h)

  read_text_blank :
      (l : Bytes) (r : Reading ops.Real) → is_blank l ≡ true → read_text ops l r ≡ some r
  unfolding read_text
  read_text_blank l r b = rw b

  read_text_entry :
      (e : Entry) (r : Reading ops.Real)
      → IsEntry e
      → read_text ops (entry_line e) r ≡ assign ops (print_code e.code []) e.value r
  unfolding read_text assign_groups
  read_text_entry e r h =
      rw (entry_line-blank e h) (ap (λ x. assign_groups ops x r) (search_entry e h))

  -- A line of a printed telegram, and what follows it.
  read_lines-crlf :
      (l s : Bytes) (r : Reading ops.Real) (o : Option (Reading ops.Real))
      → IsPlain l
      → read_text ops l r ≡ o
      → read_lines ops (lines_from [] (crlf l s)) r
        ≡ (o >>= (λ r'. read_lines ops (lines_from [] s) r'))
  unfolding read_lines
  read_lines-crlf l s r o h e =
      ap (λ ls. read_lines ops ls r) (lines_from-crlf l s h)
      ∙ ap (λ x. x >>= (λ r'. read_lines ops (lines_from [] s) r')) (read_line-cr l r h ∙ e)

  read_entries :
      (es : List Entry) (r : Reading ops.Real)
      → All IsEntry es
      → read_lines ops (lines_from [] (print_entries es)) r ≡ assign_all es r
  unfolding print_entries assign_all
  read_entries [] r h =
      read_lines-crlf (b'!' ∷ []) [] r (some r) (ground arith) (read_text_blank (b'!' ∷ []) r refl)
      ∙ (unfold lines_from read_lines in refl)
  read_entries (e ∷ es) r h =
      read_lines-crlf (entry_line e) (print_entries es) r _ (entry_line-IsPlain e h.0)
        (read_text_entry e r h.0)
      ∙ ap (λ f. assign ops (print_code e.code []) e.value r >>= f)
          (fun_ext (λ r'. read_entries es r' h.1))

  pub values_of-print_telegram :
      (grid : GridConfig ops.Real) (g : ops.Real) (now : ℕ) (ident : Bytes) (es : List Entry)
      → IsPlain ident
      → All IsEntry es
      → values_of ops grid g now (print_telegram ident es)
        ≡ (assign_all es (initial ops g) >>= (λ r. some (derive ops grid now r)))
  unfolding values_of
  values_of-print_telegram grid g now ident es h k =
      ap (λ o. o >>= (λ r. some (derive ops grid now r)))
        (read_lines-crlf (b'/' ∷ ident) (crlf [] (print_entries es)) (initial ops g)
            (some (initial ops g)) (ground (arith, h)) (read_text_blank (b'/' ∷ ident) _ refl)
          ∙ (read_lines-crlf [] (print_entries es) (initial ops g) (some (initial ops g)) tt
                (read_text_blank [] _ refl)
              ∙ read_entries es (initial ops g) k))
