-- ===== src/Master/Readings/Energy.antt =====
-- The local variable `activeEnergy` of `updateValuesAndJson` starts indeterminate: when its first
-- value reaches the result, and when not.
use smartmeter_gateway.Prelude.{
  ℕ, Bool, true, false, List, [], ◌∷◌, ◌≡◌, ◌≢◌, ◌∙◌, sym, ap, refl, Option, none, some, ◌>>=◌,
  arith, Bytes, All, codes, bytes_eq, inl, inr, Bool-cases,
}
use smartmeter_gateway.Real.{RealOps}
use smartmeter_gateway.MeterTypes.{Values}
use smartmeter_gateway.Config.{GridConfig}
use smartmeter_gateway.Lines.Match.{print_code, IsPlain}
use smartmeter_gateway.Master.Readings.{
  Reading, Field, active_energy, active_power, power1, power2, power3, voltage1, voltage2, voltage3,
  set_field, set_number, set_time, assign, assign_target, Target, number, sensor_time, nothing,
  target_of, values_of, derive, initial,
}
use smartmeter_gateway.Master.Readings.Print.{
  Entry, IsEntry, assign_all, print_telegram, values_of-print_telegram,
}

abbrev pub energy_code : Bytes
energy_code = codes "1-0:1.8.0*255"

-- The line for the imported energy.
abbrev pub is_energy : Entry → Bool
is_energy e = bytes_eq (print_code e.code []) energy_code

pub data HasEnergy : List Entry → Type 0 where
  here : (e : Entry) (es : List Entry) → is_energy e ≡ true → HasEnergy (e ∷ es)
  there : (e : Entry) (es : List Entry) → HasEnergy es → HasEnergy (e ∷ es)

energy_target :
    (obis : Bytes) → bytes_eq obis energy_code ≡ true → target_of obis ≡ number active_energy
unfolding target_of
energy_target obis h = rw h

other_target :
    (obis : Bytes) → bytes_eq obis energy_code ≡ false → target_of obis ≢ number active_energy
unfolding target_of
other_target obis h = ground arith

module _ (ops : RealOps) where
  -- A reading with another energy.
  abbrev with_energy : ops.Real → Reading ops.Real → Reading ops.Real
  with_energy x r = record r { active_energy = x }

  -- A call that treats readings which differ in the energy alike.
  abbrev Ignores : (Reading ops.Real → Option (Reading ops.Real)) → Type 0
  Ignores f =
      (x : ops.Real) (r : Reading ops.Real)
      → f (with_energy x r) ≡ (f r >>= (λ r'. some (with_energy x r')))

  -- The code reads a number and stores it.
  stored-Ignores :
      {A : Type 0} (f : A → Reading ops.Real → Reading ops.Real) (o : Option A)
      → ((a : A) (x : ops.Real) (r : Reading ops.Real)
          → f a (with_energy x r) ≡ with_energy x (f a r))
      → Ignores (λ r. o >>= (λ a. some (f a r)))
  stored-Ignores f none h x r = refl
  stored-Ignores f (some a) h x r = ap some (h a x r)

  set_field-commute :
      (f : Field)
      → f ≢ active_energy
      → (a x : ops.Real) (r : Reading ops.Real)
      → set_field ops f a (with_energy x r) ≡ with_energy x (set_field ops f a r)
  unfolding set_field
  set_field-commute active_energy n a x r = absurd (n refl)
  set_field-commute active_power n a x r = refl
  set_field-commute power1 n a x r = refl
  set_field-commute power2 n a x r = refl
  set_field-commute power3 n a x r = refl
  set_field-commute voltage1 n a x r = refl
  set_field-commute voltage2 n a x r = refl
  set_field-commute voltage3 n a x r = refl

  set_number-Ignores : (f : Field) (v : Bytes) → f ≢ active_energy → Ignores (set_number ops f v)
  unfolding set_number
  set_number-Ignores f v h = stored-Ignores (set_field ops f) _ (set_field-commute f h)

  assign_target-Ignores :
      (t : Target) (v : Bytes) → t ≢ number active_energy → Ignores (assign_target ops t v)
  unfolding assign_target set_time
  assign_target-Ignores (number f) v h x r = set_number-Ignores f v (λ e. h (ap number e)) x r
  assign_target-Ignores sensor_time v h x r =
      stored-Ignores (λ n r. record r { active_sensor_time = n }) _ (λ a x r. refl) x r
  assign_target-Ignores nothing v h x r = refl

  assign-Ignores :
      (obis v : Bytes) → bytes_eq obis energy_code ≡ false → Ignores (assign ops obis v)
  unfolding assign
  assign-Ignores obis v h = assign_target-Ignores (target_of obis) v (other_target obis h)

  assign_energy :
      (obis v : Bytes) (x : ops.Real) (r : Reading ops.Real)
      → bytes_eq obis energy_code ≡ true
      → assign ops obis v (with_energy x r) ≡ assign ops obis v r
  unfolding assign assign_target set_number set_field
  assign_energy obis v x r h = rw (energy_target obis h)

  chain :
      (f : Reading ops.Real → Option (Reading ops.Real)) (x : ops.Real)
      (o : Option (Reading ops.Real))
      → Ignores f
      → ((o >>= (λ r'. some (with_energy x r'))) >>= f)
        ≡ ((o >>= f) >>= (λ r'. some (with_energy x r')))
  chain f x none h = refl
  chain f x (some r) h = h x r

  forget :
      (f : Reading ops.Real → Option (Reading ops.Real)) (x : ops.Real)
      (o : Option (Reading ops.Real))
      → ((r : Reading ops.Real) → f (with_energy x r) ≡ f r)
      → ((o >>= (λ r'. some (with_energy x r'))) >>= f) ≡ (o >>= f)
  forget f x none h = refl
  forget f x (some r) h = h r

  -- Without an energy line, the energy goes through unread.
  assign_all-Ignores :
      (es : List Entry) → All (λ e. is_energy e ≡ false) es → Ignores (assign_all ops es)
  unfolding assign_all
  assign_all-Ignores [] h x r = refl
  assign_all-Ignores (e ∷ es) h x r =
      ap (λ o. o >>= (λ r'. assign_all ops es r')) (assign-Ignores _ e.value h.0 x r)
      ∙ chain (λ r'. assign_all ops es r') x _ (assign_all-Ignores es h.1)

  -- With one, the energy at the start does not matter.
  assign_all-HasEnergy :
      (es : List Entry) (x : ops.Real) (r : Reading ops.Real)
      → HasEnergy es
      → assign_all ops es (with_energy x r) ≡ assign_all ops es r
  unfolding assign_all
  assign_all-HasEnergy _ x r (here e es h) =
      ap (λ o. o >>= (λ r'. assign_all ops es r')) (assign_energy _ e.value x r h)
  assign_all-HasEnergy _ x r (there e es h) = elim (Bool-cases (is_energy e)) [
    | inl now ↦ ap (λ o. o >>= (λ r'. assign_all ops es r')) (assign_energy _ e.value x r now)
    | inr later ↦
        ap (λ o. o >>= (λ r'. assign_all ops es r')) (assign-Ignores _ e.value later x r)
        ∙ forget (λ r'. assign_all ops es r') x _ (λ r'. assign_all-HasEnergy es x r' h)
  ]

  -- A printed telegram of well-formed lines, one of them with the code 1-0:1.8.0*255, is read alike
  -- whatever `activeEnergy` holds at first.
  pub values_of-HasEnergy :
      (grid : GridConfig ops.Real) (x y : ops.Real) (now : ℕ) (ident : Bytes) (es : List Entry)
      → IsPlain ident
      → All IsEntry es
      → HasEnergy es
      → values_of ops grid x now (print_telegram ident es)
        ≡ values_of ops grid y now (print_telegram ident es)
  values_of-HasEnergy grid x y now ident es p k h =
      values_of-print_telegram ops grid x now ident es p k
      ∙ (ap (λ o. o >>= (λ r. some (derive ops grid now r)))
            (assign_all-HasEnergy es x (initial ops y) h)
          ∙ sym (values_of-print_telegram ops grid y now ident es p k))

  abbrev energy_or : ops.Real → Option (Values ops.Real) → ops.Real
  energy_or x none = x
  energy_or x (some v) = v.active_energy_import

  energy-passed :
      (grid : GridConfig ops.Real) (x : ops.Real) (now : ℕ) (v : Values ops.Real)
      (o : Option (Reading ops.Real))
      → ops.less (ops.literal 0 0) grid.power_factor ≡ true
      → ((o >>= (λ r. some (with_energy x r))) >>= (λ r. some (derive ops grid now r))) ≡ some v
      → v.active_energy_import ≡ x
  unfolding derive
  energy-passed grid x now v none pf h = ap (energy_or x) (sym h)
  energy-passed grid x now v (some r) pf h = sym (ap (energy_or x) h) ∙ rw pf

  -- If no line of a printed telegram of well-formed lines has that code, the power factor is positive
  -- and the telegram is accepted, the imported energy is what `activeEnergy` holds at first.
  pub values_of_indeterminate :
      (grid : GridConfig ops.Real) (x : ops.Real) (now : ℕ) (ident : Bytes) (es : List Entry)
      (v : Values ops.Real)
      → IsPlain ident
      → All IsEntry es
      → All (λ e. is_energy e ≡ false) es
      → ops.less (ops.literal 0 0) grid.power_factor ≡ true
      → values_of ops grid x now (print_telegram ident es) ≡ some v
      → v.active_energy_import ≡ x
  values_of_indeterminate grid x now ident es v p k n pf h =
      energy-passed grid x now v (assign_all ops es (initial ops x)) pf (
        ap (λ o. o >>= (λ r. some (derive ops grid now r)))
          (sym (assign_all-Ignores es n x (initial ops x)))
        ∙ (sym (values_of-print_telegram ops grid x now ident es p k) ∙ h))
