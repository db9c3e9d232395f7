-- ===== src/Master/Readings/Malformed.antt =====
-- A line that is no data line makes `updateValuesAndJson` fail, wherever it stands.
use smartmeter_gateway.Prelude.{
  ℕ, false, List, [], ◌∷◌, ◌++◌, ◌≡◌, ◌∙◌, ap, refl, Option, none, some, ◌>>=◌, Bytes, inl, inr,
  Bool-cases, ◌==◌,
}
use smartmeter_gateway.Real.{RealOps}
use smartmeter_gateway.Config.{GridConfig}
use smartmeter_gateway.Lines.{lines_from, search_obex}
use smartmeter_gateway.Lines.Match.{IsPlain, lines_from-crlf, without_cr_plain, crlf}
use smartmeter_gateway.Master.Readings.{
  Reading, is_blank, read_text, read_line, read_lines, assign_groups, values_of, derive, initial,
}

-- The lines of a text that ends in a line break do not depend on what follows it.
lines_from-break :
    (line s t : Bytes)
    → (ls : List Bytes) × (lines_from line (s ++ b'\n' ∷ t) ≡ ls ++ lines_from [] t)
unfolding lines_from
lines_from-break line [] t = (line ∷ [], refl)
lines_from-break line (c ∷ s) t = elim (Bool-cases (c == b'\n')) [
  | inl h ↦ let (ls, e) = lines_from-break [] s t in (line ∷ ls, rw (h, e))
  | inr h ↦ let (ls, e) = lines_from-break (line ++ c ∷ []) s t in (ls, rw (h, e))
]

-- A line that the parser neither passes over nor can match.
pub record IsMalformed (l : Bytes) : Type 0 where
  pub plain : IsPlain l
  pub text : is_blank l ≡ false
  pub unmatched : search_obex l ≡ none

module _ (ops : RealOps) where
  fails :
      (o : Option (Reading ops.Real)) (f : Reading ops.Real → Option (Reading ops.Real))
      → ((r : Reading ops.Real) → f r ≡ none)
      → (o >>= f) ≡ none
  fails none f h = refl
  fails (some r) f h = h r

  read_lines_fail :
      (ls ms : List Bytes) (r : Reading ops.Real)
      → ((r' : Reading ops.Real) → read_lines ops ms r' ≡ none)
      → read_lines ops (ls ++ ms) r ≡ none
  unfolding read_lines
  read_lines_fail [] ms r h = h r
  read_lines_fail (l ∷ ls) ms r h =
      fails (read_line ops l r) (λ r'. read_lines ops (ls ++ ms) r')
        (λ r'. read_lines_fail ls ms r' h)

  read_lines_malformed :
      (l s : Bytes) (r : Reading ops.Real)
      → IsMalformed l
      → read_lines ops (lines_from [] (crlf l s)) r ≡ none
  unfolding read_lines read_line read_text
  read_lines_malformed l s r h =
      rw (lines_from-crlf l s h.plain, without_cr_plain l h.plain, h.text, h.unmatched)
        (unfold assign_groups in refl)

  -- A line that the parser does not pass over and that its pattern does not match makes it fail,
  -- whatever text that ends in a line break stands before it and whatever follows its line end.
  pub values_of_malformed :
      (grid : GridConfig ops.Real) (g : ops.Real) (now : ℕ) (before l after : Bytes)
      → IsMalformed l
      → values_of ops grid g now (before ++ b'\n' ∷ crlf l after) ≡ none
  unfolding values_of
  values_of_malformed grid g now before l after h =
      let (ls, e) = lines_from-break [] before (crlf l after) in
      let failed = read_lines_fail ls _ (initial ops g) (λ r. read_lines_malformed l after r h) in
      ap (λ x. read_lines ops x (initial ops g) >>= (λ r. some (derive ops grid now r))) e
      ∙ ap (λ o. o >>= (λ r. some (derive ops grid now r))) failed
