-- ===== src/Master/Readings.antt =====
-- src/meter_master.cpp, `updateValuesAndJson`: the loop over the lines of a telegram, and the
-- values that are derived from what it reads. `double` and its operations are a parameter.
pub mod Print
pub mod Energy
pub mod Malformed
pub mod Tests
use smartmeter_gateway.Prelude.{
  ℕ, Bool, true, ◌||◌, List, [], ◌∷◌, Option, none, some, ◌>>=◌, ◌==◌, if◌then◌else◌, Bytes,
  bytes_eq, codes,
}
use smartmeter_gateway.Real.{RealOps}
use smartmeter_gateway.Config.{GridConfig}
use smartmeter_gateway.MeterTypes.{Phase, Values}
use smartmeter_gateway.Lines.{lines_from, without_cr, before_star, Groups, search_obex, stoul_hex}

-- The local variable `activeEnergy` and the fields of `values` that the loop writes.
pub record Reading (R : Type 0) : Type 0 where
  pub active_energy : R
  pub active_power : R
  pub power1 : R
  pub power2 : R
  pub power3 : R
  pub voltage1 : R
  pub voltage2 : R
  pub voltage3 : R
  pub active_sensor_time : ℕ

-- The fields that hold a `double`.
pub data Field : Type 0 where
  active_energy active_power power1 power2 power3 voltage1 voltage2 voltage3 : Field

-- The chain of tests on the OBIS code, and what each branch writes.
pub data Target : Type 0 where
  number : Field → Target
  sensor_time nothing : Target

unfoldable pub target_of : Bytes → Target
target_of obis =
    if bytes_eq obis (codes "1-0:1.8.0*255")
    then number active_energy
    else if bytes_eq obis (codes "1-0:16.7.0*255")
    then number active_power
    else if bytes_eq obis (codes "1-0:36.7.0*255")
    then number power1
    else if bytes_eq obis (codes "1-0:56.7.0*255")
    then number power2
    else if bytes_eq obis (codes "1-0:76.7.0*255")
    then number power3
    else if bytes_eq obis (codes "1-0:32.7.0*255")
    then number voltage1
    else if bytes_eq obis (codes "1-0:52.7.0*255")
    then number voltage2
    else if bytes_eq obis (codes "1-0:72.7.0*255")
    then number voltage3
    else if bytes_eq obis (codes "0-0:96.8.0*255")
    then sensor_time
    else nothing

-- The lines that both parsers of the telegram pass over.
abbrev pub is_blank : Bytes → Bool
is_blank [] = true
is_blank (c ∷ s) = c == b'/' || c == b'!'

module _ (ops : RealOps) where
  open ops use {Real, literal, add, mul, div, neg, less, abs, sqrt, tan, sin, acos, stod}

  abbrev zero_real : Real
  zero_real = literal 0 0

  abbrev one_real : Real
  one_real = literal 1 0

  -- What the fields hold before the loop: `activeEnergy` is not initialised.
  abbrev pub initial : Real → Reading Real
  initial indeterminate = record {
    active_energy = indeterminate;
    active_power = zero_real;
    power1 = zero_real;
    power2 = zero_real;
    power3 = zero_real;
    voltage1 = zero_real;
    voltage2 = zero_real;
    voltage3 = zero_real;
    active_sensor_time = 0;
  }

  unfoldable pub set_field : Field → Real → Reading Real → Reading Real
  set_field active_energy x r = record r { active_energy = x }
  set_field active_power x r = record r { active_power = x }
  set_field power1 x r = record r { power1 = x }
  set_field power2 x r = record r { power2 = x }
  set_field power3 x r = record r { power3 = x }
  set_field voltage1 x r = record r { voltage1 = x }
  set_field voltage2 x r = record r { voltage2 = x }
  set_field voltage3 x r = record r { voltage3 = x }

  -- `std::stod(value_unit.substr(0, pos))` into a field; none where it throws.
  unfoldable pub set_number : Field → Bytes → Reading Real → Option (Reading Real)
  unfolding set_field
  set_number f s r = stod (before_star s) >>= (λ x. some (set_field f x r))

  unfoldable pub set_time : Bytes → Reading Real → Option (Reading Real)
  set_time s r = stoul_hex (before_star s) >>= (λ n. some (record r { active_sensor_time = n }))

  unfoldable pub assign_target : Target → Bytes → Reading Real → Option (Reading Real)
  assign_target (number f) value r = set_number f value r
  assign_target sensor_time value r = set_time value r
  assign_target nothing value r = some r

  unfoldable pub assign : Bytes → Bytes → Reading Real → Option (Reading Real)
  assign obis value r = assign_target (target_of obis) value r

  unfoldable pub assign_groups : Option Groups → Reading Real → Option (Reading Real)
  assign_groups none r = none
  assign_groups (some g) r = assign g.group1 g.group2 r

  -- One line; none where the body of the loop throws.
  unfoldable pub read_text : Bytes → Reading Real → Option (Reading Real)
  read_text line r = if is_blank line then some r else assign_groups (search_obex line) r

  unfoldable pub read_line : Bytes → Reading Real → Option (Reading Real)
  read_line line r = read_text (without_cr line) r

  unfoldable pub read_lines : List Bytes → Reading Real → Option (Reading Real)
  read_lines [] r = some r
  read_lines (line ∷ rest) r = read_line line r >>= (λ r'. read_lines rest r')

  abbrev apparent : Real → Real → Real
  apparent active pf = abs (div active pf)

  abbrev reactive : Real → Real → Real → Real
  reactive sign active pf = mul (mul sign (tan (acos (abs pf)))) active

  abbrev pp_voltage_of : Real → Real → Real
  pp_voltage_of va vb = sqrt (add (add (mul va va) (mul vb vb)) (mul va vb))

  abbrev third : Real → Real → Real → Real
  third a b c = div (add (add a b) c) (literal 3 0)

  abbrev if_real : Bool → Real → Real → Real
  if_real b x y = if b then x else y

  abbrev power_sign : Real → Real
  power_sign pf = if_real (less zero_real pf) one_real (neg one_real)

  -- A phase from its power, its voltage and the voltage of the next phase.
  unfoldable pub derive_phase : GridConfig Real → Real → Real → Real → Phase Real
  derive_phase grid power voltage next =
      let pf = grid.power_factor in
      let active = mul power (power_sign pf) in
      record {
        ph_voltage = voltage;
        pp_voltage = pp_voltage_of voltage next;
        current = abs (div active (mul voltage pf));
        active_power = active;
        reactive_power = reactive (if_real grid.is_leading (neg one_real) one_real) active pf;
        apparent_power = apparent active pf;
        power_factor = pf;
      }

  -- The part behind the loop.
  unfoldable pub derive : GridConfig Real → ℕ → Reading Real → Values Real
  unfolding derive_phase
  derive grid now r =
      let pf = grid.power_factor in
      let leading = grid.is_leading in
      let active = mul r.active_power (power_sign pf) in
      let apparent_energy = abs (div r.active_energy pf) in
      let reactive_energy = mul (sin (acos (abs pf))) apparent_energy in
      let a = derive_phase grid r.power1 r.voltage1 r.voltage2 in
      let b = derive_phase grid r.power2 r.voltage2 r.voltage3 in
      let c = derive_phase grid r.power3 r.voltage3 r.voltage1 in
      record {
        time = now;
        active_sensor_time = r.active_sensor_time;
        active_energy_import = if_real (less zero_real pf) r.active_energy zero_real;
        active_energy_export = if_real (less pf zero_real) r.active_energy zero_real;
        reactive_energy_import = if_real leading zero_real reactive_energy;
        reactive_energy_export = if_real leading reactive_energy zero_real;
        apparent_energy_import = if_real leading zero_real apparent_energy;
        apparent_energy_export = if_real leading apparent_energy zero_real;
        ph_voltage = third a.ph_voltage b.ph_voltage c.ph_voltage;
        pp_voltage = third a.pp_voltage b.pp_voltage c.pp_voltage;
        current = add (add a.current b.current) c.current;
        active_power = active;
        reactive_power = reactive (if_real leading (neg one_real) one_real) active pf;
        apparent_power = apparent active pf;
        power_factor = pf;
        frequency = grid.frequency;
        phase1 = a;
        phase2 = b;
        phase3 = c;
      }

  -- The values of a telegram; none where the code returns EPROTO.
  unfoldable pub values_of : GridConfig Real → Real → ℕ → Bytes → Option (Values Real)
  values_of grid indeterminate now telegram =
      read_lines (lines_from [] telegram) (initial indeterminate)
      >>= (λ r. some (derive grid now r))
