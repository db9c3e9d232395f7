-- ===== src/Lines/Version.antt =====
-- What the pattern of the identification line finds in one.
use mathlib.Core.List.{append-nil}
use smartmeter_gateway.Prelude.{
  true, [], ◌∷◌, ◌++◌, ◌≡◌, ◌≢◌, ap, refl, subst, some, Bytes, All, ◌==◌,
}
use smartmeter_gateway.Lines.{
  many, char, at_end, match_many, match_pieces, is_alnum, version_regex, version_groups,
  search_version, found,
}
use smartmeter_gateway.Lines.Match.{match_many_run, match_many_stop, match_one}

-- A text of letters and digits.
pub record IsName (s : Bytes) : Type 0 where
  pub alnum : All (λ c. is_alnum c ≡ true) s
  pub some_char : s ≢ []

match_last : (v : Bytes) → IsName v → match_pieces (many is_alnum ∷ at_end ∷ []) v ≡ some (v ∷ [])
unfolding match_pieces match_many
match_last v w =
    subst (λ s. match_many is_alnum (match_pieces (at_end ∷ [])) s ≡ some (v ∷ [])) (append-nil v)
      (match_many_run is_alnum (match_pieces (at_end ∷ [])) v [] [] w.alnum w.some_char refl refl)

match_version :
    (n v : Bytes)
    → IsName n
    → IsName v
    → match_pieces version_regex (b'/' ∷ (n ++ b'_' ∷ v))
      ≡ some ((b'/' ∷ []) ∷ n ∷ (b'_' ∷ []) ∷ v ∷ [])
unfolding match_pieces
match_version n v h w =
    match_one (λ c. c == b'/') (many is_alnum ∷ char b'_' ∷ many is_alnum ∷ at_end ∷ []) b'/'
      (n ++ b'_' ∷ v) _ refl
      (match_many_run is_alnum (match_pieces (char b'_' ∷ many is_alnum ∷ at_end ∷ [])) n (b'_' ∷ v)
        _ h.alnum h.some_char
        (match_many_stop is_alnum (match_pieces (char b'_' ∷ many is_alnum ∷ at_end ∷ [])) b'_' v
          refl)
        (match_one (λ c. c == b'_') (many is_alnum ∷ at_end ∷ []) b'_' v (v ∷ []) refl
          (match_last v w)))

-- An identification line is found with its version.
pub search_version-found :
    (n v : Bytes)
    → IsName n
    → IsName v
    → search_version (b'/' ∷ (n ++ b'_' ∷ v)) ≡ some (record { group1 = b'/' ∷ n; group2 = v })
unfolding search_version version_groups found
search_version-found n v h w = ap (found version_groups) (match_version n v h w)
