-- ===== src/Master/Readings/Tests.antt =====
-- Telegrams on concrete data, and the theorems at inputs that meet their hypotheses.
use smartmeter_gateway.Prelude.{
  ℕ, false, [], ◌∷◌, ◌++◌, ◌≡◌, ◌∙◌, refl, some, none, arith, Bytes, codes, bytes_eq,
}
use smartmeter_gateway.Real.Whole.{whole}
use smartmeter_gateway.Config.{GridConfig}
use smartmeter_gateway.MeterTypes.{Values}
use smartmeter_gateway.Lines.{before_star, search_obex, match_pieces, match_many, found}
use smartmeter_gateway.Lines.Match.{IsPlain, crlf, print_code}
use smartmeter_gateway.Master.Readings.{
  values_of, derive, initial, assign, assign_target, target_of, set_number, set_field,
}
use smartmeter_gateway.Master.Readings.Print.{
  Entry, IsEntry, print_telegram, assign_all, values_of-print_telegram,
}
use smartmeter_gateway.Master.Readings.Energy.{values_of_indeterminate}
use smartmeter_gateway.Master.Readings.Malformed.{IsMalformed, values_of_malformed}

abbrev grid : GridConfig ℕ
grid = record { power_factor = 1; frequency = 50; is_leading = false }

abbrev pub ident : Bytes
ident = codes "EBZ5DD3BZ06ETA_107"

abbrev data_line : Bytes → Bytes → Bytes → Bytes → Entry
data_line x y z v = record {
  code = record { medium = b'1'; measure = x; mode = y; tariff = z };
  value = v;
}

abbrev pub voltage : Entry
voltage = data_line (codes "32") (codes "7") (codes "0") (codes "231.5*V")

abbrev energy : Entry
energy = data_line (codes "1") (codes "8") (codes "0") (codes "22557.1*kWh")

ident-IsPlain : IsPlain ident
ident-IsPlain = ground arith

pub voltage-IsEntry : IsEntry voltage
voltage-IsEntry = record {
  code = record {
    medium = refl;
    measure = record { digits = ground arith; some_digit = λ e. cc };
    mode = record { digits = ground arith; some_digit = λ e. cc };
    tariff = record { digits = ground arith; some_digit = λ e. cc };
  };
  value = record { inside = ground arith; some_char = λ e. cc };
  plain = ground arith;
}

abbrev pub no_energy : Values ℕ
no_energy = derive whole grid 1 (record (initial whole 7) { voltage1 = 231 })

pub read_no_energy : values_of whole grid 7 1 (print_telegram ident (voltage ∷ [])) ≡ some no_energy
unfolding assign_all assign target_of print_code assign_target set_number set_field before_star
    bytes_eq
read_no_energy =
    values_of-print_telegram whole grid 7 1 ident (voltage ∷ []) ident-IsPlain (voltage-IsEntry, tt)
    ∙ refl

values_of_indeterminate_example : no_energy.active_energy_import ≡ 7
unfolding print_code bytes_eq
values_of_indeterminate_example =
    values_of_indeterminate whole grid 7 1 ident (voltage ∷ []) no_energy ident-IsPlain
      (voltage-IsEntry, tt) (refl, tt) refl read_no_energy

abbrev bad_line : Bytes
bad_line = codes "1-0:1.8.0*255 22557"

bad_line-IsMalformed : IsMalformed bad_line
unfolding search_obex match_pieces match_many found
bad_line-IsMalformed = record { plain = ground arith; text = refl; unmatched = refl }

values_of_malformed_example :
    values_of whole grid 7 1 (codes "/EBZ_1\n" ++ b'\n' ∷ crlf bad_line (codes "!\r\n")) ≡ none
values_of_malformed_example =
    values_of_malformed whole grid 7 1 (codes "/EBZ_1\n") bad_line (codes "!\r\n")
      bad_line-IsMalformed
