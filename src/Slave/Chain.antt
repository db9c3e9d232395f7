-- ===== src/Slave/Chain.antt =====
-- What a SunSpec client sees: it checks the marker at 40000 and walks from model to model. The walk
-- is the client's, not the program's; the theorems say that it works at any time.
use smartmeter_gateway.Prelude.{
  ℕ, zero, suc, ◌+◌, ◌≤◌, ◌<◌, ◌⊎◌, inl, Bool, true, false, List, [], ◌∷◌, ◌≡◌, refl, ◌∙◌, arith,
  ◌==◌, Option, none, some, if◌then◌else◌,
}
use mathlib.Core.Option
use smartmeter_gateway.Real.{RealOps}
use smartmeter_gateway.Register.{with_offset}
use smartmeter_gateway.Pack.{Mapping, write, store, pack_to_modbus, pack_integer}
use smartmeter_gateway.Pack.Memory.{read}
use smartmeter_gateway.Slave.{Filling, filled, modbus_registers}
use smartmeter_gateway.Slave.Listener.{fill_static, fill_model}

-- The models that a client finds from an address on: their ids and lengths, up to the end marker.
unfoldable pub walk : ℕ → Mapping → ℕ → Option (List (ℕ × ℕ))
walk zero m a = none
walk (suc fuel) m a =
    let rest = walk fuel m (a + 2 + m (a + 1)) in
    if m a == 0xFFFF then some [] else Option.map (λ l. (m a, m (a + 1)) ∷ l) rest

-- The registers of the chain.
pub record IsStatic (use_float : Bool) (m : Mapping) : Type 0 where
  pub marker : (m 40000 ≡ 0x5375) × (m 40001 ≡ 0x6e53)
  pub common : (m 40002 ≡ 1) × (m 40003 ≡ 65)
  pub model : m 40069 ≡ (if use_float then 213 else 203)
  pub size : m 40070 ≡ (if use_float then 124 else 105)
  pub end : m (if use_float then 40195 else 40176) ≡ 0xFFFF

-- On these registers a client recognises the device and finds the common model and the configured
-- meter model, and no other.
pub walk_static :
    (use_float : Bool) (m : Mapping)
    → IsStatic use_float m
    → (read m 40000 2 ≡ 0x5375 ∷ 0x6e53 ∷ [])
      × (walk 3 m 40002 ≡ some ((1, 65) ∷ (if use_float then (213, 124) else (203, 105)) ∷ []))
unfolding walk read
walk_static true m h =
    (rw (h.marker.0, h.marker.1), rw (h.common.0, h.common.1, h.model, h.size, h.end))
walk_static false m h =
    (rw (h.marker.0, h.marker.1), rw (h.common.0, h.common.1, h.model, h.size, h.end))

pub fill_static-IsStatic :
    (ops : RealOps) (use_float : Bool) (slave_id : ℕ) (f : Filling)
    → IsStatic use_float (fill_static ops use_float slave_id f).mapping
unfolding fill_static fill_model filled pack_to_modbus write store pack_integer with_offset
fill_static-IsStatic ops true slave_id f = record {
  marker = (refl, refl);
  common = (refl, refl);
  model = refl;
  size = refl;
  end = refl;
}
fill_static-IsStatic ops false slave_id f = record {
  marker = (refl, refl);
  common = (refl, refl);
  model = refl;
  size = refl;
  end = refl;
}

-- The registers that no update touches.
abbrev pub Kept : Bool → ℕ → Type 0
Kept use_float a =
    (a < 40004)
    ⊎ (40068 ≤ a) × (a ≤ 40070)
    ⊎ ((if use_float then 40195 else 40176) ≤ a) × (a < modbus_registers)

pub IsStatic-congr :
    (use_float : Bool) (m m' : Mapping)
    → ((a : ℕ) → Kept use_float a → m' a ≡ m a)
    → IsStatic use_float m
    → IsStatic use_float m'
IsStatic-congr true m m' same h = record {
  marker =
      (same 40000 (inl (omega arith)) ∙ h.marker.0, same 40001 (inl (omega arith)) ∙ h.marker.1);
  common =
      (same 40002 (inl (omega arith)) ∙ h.common.0, same 40003 (inl (omega arith)) ∙ h.common.1);
  model = same 40069 (omega arith) ∙ h.model;
  size = same 40070 (omega arith) ∙ h.size;
  end = same 40195 (omega arith) ∙ h.end;
}
IsStatic-congr false m m' same h = record {
  marker =
      (same 40000 (inl (omega arith)) ∙ h.marker.0, same 40001 (inl (omega arith)) ∙ h.marker.1);
  common =
      (same 40002 (inl (omega arith)) ∙ h.common.0, same 40003 (inl (omega arith)) ∙ h.common.1);
  model = same 40069 (omega arith) ∙ h.model;
  size = same 40070 (omega arith) ∙ h.size;
  end = same 40176 (omega arith) ∙ h.end;
}
