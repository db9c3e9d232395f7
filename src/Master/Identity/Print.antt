-- ===== src/Master/Identity/Print.antt =====
-- The device data of a printed telegram are read back.
use smartmeter_gateway.Prelude.{
  true, false, List, [], ◌∷◌, ◌++◌, ◌≡◌, ◌∙◌, ap, refl, some, ◌>>=◌, arith, Bytes, All,
}
use smartmeter_gateway.MeterTypes.{Device}
use smartmeter_gateway.Lines.{lines_from, is_alnum}
use smartmeter_gateway.Lines.Match.{print_code, IsPlain, crlf, lines_from-crlf, without_cr_plain}
use smartmeter_gateway.Lines.Version.{IsName, search_version-found}
use smartmeter_gateway.Master.Readings.Print.{
  Entry, IsEntry, entry_line, print_entries, print_telegram, entry_line-IsPlain, search_entry,
  IsPlain-append,
}
use smartmeter_gateway.Master.Identity.{
  no_device, is_skipped, is_version, set_data, set_version, read_device_text, read_device_lines,
  complete, device_of,
}

-- What the data lines say, one after the other.
unfoldable pub note_all : List Entry → Device → Device
note_all [] d = d
note_all (e ∷ es) d =
    note_all es (set_data (record { group1 = print_code e.code []; group2 = e.value }) d)

name-IsPlain : (s : Bytes) → All (λ c. is_alnum c ≡ true) s → IsPlain s
name-IsPlain [] h = tt
name-IsPlain (c ∷ s) h = ((ground arith, ground arith), name-IsPlain s h.1)

entry_line_kind :
    (e : Entry)
    → IsEntry e
    → (is_skipped (entry_line e) ≡ false) × (is_version (entry_line e) ≡ false)
unfolding print_code
entry_line_kind e h = (ground (arith, h.code.medium), ground (arith, h.code.medium))

entry_text :
    (e : Entry) (d : Device)
    → IsEntry e
    → read_device_text (entry_line e) d
      ≡ some (set_data (record { group1 = print_code e.code []; group2 = e.value }) d)
unfolding read_device_text
entry_text e d h =
    let (skipped, version) = entry_line_kind e h in
    rw (skipped, version) (ap (λ o. o >>= (λ g. some (set_data g d))) (search_entry e h))

device_lines :
    (l s : Bytes) (d d' : Device)
    → IsPlain l
    → read_device_text l d ≡ some d'
    → read_device_lines (lines_from [] (crlf l s)) d ≡ read_device_lines (lines_from [] s) d'
unfolding read_device_lines
device_lines l s d d' h e =
    ap (λ ls. read_device_lines ls d) (lines_from-crlf l s h)
    ∙ ap (λ o. o >>= (λ x. read_device_lines (lines_from [] s) x))
        (ap (λ t. read_device_text t d) (without_cr_plain l h) ∙ e)

device_entries :
    (es : List Entry) (d : Device)
    → All IsEntry es
    → read_device_lines (lines_from [] (print_entries es)) d ≡ some (note_all es d)
unfolding print_entries note_all
device_entries [] d h =
    device_lines (b'!' ∷ []) [] d d (ground arith) (unfold read_device_text in refl)
    ∙ (unfold lines_from read_device_lines in refl)
device_entries (e ∷ es) d h =
    device_lines (entry_line e) (print_entries es) d _ (entry_line-IsPlain e h.0)
      (entry_text e d h.0)
    ∙ device_entries es _ h.1

version_text :
    (n v : Bytes)
    → IsName n
    → IsName v
    → read_device_text (b'/' ∷ (n ++ b'_' ∷ v)) no_device
      ≡ some (record no_device { fw_version = v })
unfolding read_device_text set_version
version_text n v h w = rw (search_version-found n v h w)

ident-IsPlain : (n v : Bytes) → IsName n → IsName v → IsPlain (b'/' ∷ (n ++ b'_' ∷ v))
ident-IsPlain n v h w =
    let rest =
      IsPlain-append n (b'_' ∷ v) (name-IsPlain n h.alnum)
        (ground (arith, name-IsPlain v w.alnum)) in
    ground (arith, rest)

pub device_of-print_telegram :
    (project_version commit_hash n v : Bytes) (es : List Entry)
    → IsName n
    → IsName v
    → All IsEntry es
    → device_of project_version commit_hash (print_telegram (n ++ b'_' ∷ v) es)
      ≡ some
          (complete project_version commit_hash (note_all es (record no_device { fw_version = v })))
unfolding device_of
device_of-print_telegram project_version commit_hash n v es h w k =
    ap (λ o. o >>= (λ d. some (complete project_version commit_hash d)))
      (device_lines (b'/' ∷ (n ++ b'_' ∷ v)) (crlf [] (print_entries es)) no_device _
          (ident-IsPlain n v h w) (version_text n v h w)
        ∙ (device_lines [] (print_entries es) (record no_device { fw_version = v })
              (record no_device { fw_version = v }) tt (unfold read_device_text in refl)
            ∙ device_entries es _ k))
