-- ===== src/Slave/Discovery.antt =====
-- The chain of models stays discoverable along every history of updates.
use smartmeter_gateway.Prelude.{
  ℕ, inl, inr, Bool, true, false, List, [], ◌∷◌, ◌≡◌, refl, ◌∙◌, arith, Bool-cases, Option-cases,
  subst, Option, none, some, if◌then◌else◌,
}
use smartmeter_gateway.ModbusError.{ok}
use smartmeter_gateway.Real.{RealOps}
use smartmeter_gateway.MeterTypes.{Values, Device}
use smartmeter_gateway.SignalHandler.{is_running}
use smartmeter_gateway.Pack.{Mapping}
use smartmeter_gateway.Pack.Memory.{read}
use smartmeter_gateway.Slave.{
  Slave, fresh, copied, fill_texts, fill_values, device_texts, modbus_registers, update_values,
  update_device,
}
use smartmeter_gateway.Slave.Updates.{copy_registers_lem}
use smartmeter_gateway.Slave.Models.{is_served_out, fill_values-IsFilled}
use smartmeter_gateway.Slave.Listener.{Server, Environment, start_listener, listen, with_static}
use smartmeter_gateway.Slave.Chain.{
  walk, IsStatic, walk_static, fill_static-IsStatic, Kept, IsStatic-congr,
}
use smartmeter_gateway.Slave.Texts.{fill_texts_out}

abbrev HasStatic : Bool → Option Mapping → Type 0
HasStatic use_float none = ⊥
HasStatic use_float (some m) = IsStatic use_float m

-- A slave that answers on the network has a mapping with the chain in it.
abbrev pub HasChain : Slave → Type 0
HasChain s = HasStatic s.use_float_model s.regs

module _ (ops : RealOps) where
  pub data Update : Type 0 where
    values : Bool → Values ops.Real → Update
    device : Bool → Device → Update

  unfoldable pub apply : Update → Slave → Slave
  apply (values allocated v) s = update_values ops allocated v s
  apply (device allocated d) s = update_device ops allocated d s

  unfoldable pub apply_all : List Update → Slave → Slave
  apply_all [] s = s
  apply_all (u ∷ us) s = apply_all us (apply u s)

  pub apply-model : (u : Update) (s : Slave) → (apply u s).use_float_model ≡ s.use_float_model
  unfolding apply update_values update_device
  apply-model (values allocated v) s = ground arith
  apply-model (device allocated d) s = ground arith

  -- The mapping behind an update is the old one, or a copy of it that was filled.
  pub update_values-regs :
      (P : Option Mapping → Type 0) (allocated : Bool) (v : Values ops.Real) (s : Slave)
      → P s.regs
      → ((old : Mapping)
          → s.regs ≡ some old
          → P (some (fill_values ops s.use_float_model v (copied s old)).mapping))
      → P (update_values ops allocated v s).regs
  unfolding update_values
  update_values-regs P allocated v s same change = elim (Bool-cases (is_running s.handler)) [
    | inr h ↦ rw h same
    | inl h ↦ elim (Option-cases s.regs) [
      | inl e ↦ rw h (rw e same)
      | inr (old, e) ↦ elim (Bool-cases allocated) [
        | inl t ↦ rw h (rw e (rw t (change old e)))
        | inr t ↦ rw h (rw e (rw t same))
      ]
    ]
  ]

  pub update_device-regs :
      (P : Option Mapping → Type 0) (allocated : Bool) (d : Device) (s : Slave)
      → P s.regs
      → ((old : Mapping)
          → s.regs ≡ some old
          → P (some (fill_texts ops (device_texts d) (copied s old)).mapping))
      → P (update_device ops allocated d s).regs
  unfolding update_device
  update_device-regs P allocated d s same change = elim (Bool-cases (is_running s.handler)) [
    | inr h ↦ rw h same
    | inl h ↦ elim (Bool-cases s.device_updated) [
      | inl u ↦ rw (h, u) same
      | inr u ↦ elim (Option-cases s.regs) [
        | inl e ↦ rw (h, u) (rw e same)
        | inr (old, e) ↦ elim (Bool-cases allocated) [
          | inl t ↦ rw (h, u) (rw e (rw t (change old e)))
          | inr t ↦ rw (h, u) (rw e (rw t same))
        ]
      ]
    ]
  ]

  device-Kept :
      (d : Device) (s : Slave) (old : Mapping) (use_float : Bool) (a : ℕ)
      → Kept use_float a
      → (fill_texts ops (device_texts d) (copied s old)).mapping a ≡ old a
  device-Kept d s old true a k =
      fill_texts_out ops (device_texts d) (copied s old) 40004 40068 a (ground arith) refl
        (omega arith)
      ∙ copy_registers_lem modbus_registers old fresh a (omega arith)
  device-Kept d s old false a k =
      fill_texts_out ops (device_texts d) (copied s old) 40004 40068 a (ground arith) refl
        (omega arith)
      ∙ copy_registers_lem modbus_registers old fresh a (omega arith)

  values-Kept :
      (v : Values ops.Real) (s : Slave) (old : Mapping) (use_float : Bool) (a : ℕ)
      → Kept use_float a
      → (fill_values ops use_float v (copied s old)).mapping a ≡ old a
  values-Kept v s old true a k =
      (fill_values-IsFilled ops true v (copied s old)).rest_same a
        (is_served_out ops true a (omega arith))
      ∙ copy_registers_lem modbus_registers old fresh a (omega arith)
  values-Kept v s old false a k =
      (fill_values-IsFilled ops false v (copied s old)).rest_same a
        (is_served_out ops false a (omega arith))
      ∙ copy_registers_lem modbus_registers old fresh a (omega arith)

  apply-HasStatic :
      (u : Update) (s : Slave) → HasChain s → HasStatic s.use_float_model (apply u s).regs
  unfolding apply
  apply-HasStatic (values allocated v) s h =
      update_values-regs (HasStatic s.use_float_model) allocated v s h (λ old e.
        IsStatic-congr s.use_float_model old _ (values-Kept v s old s.use_float_model)
          (subst (HasStatic s.use_float_model) e h))
  apply-HasStatic (device allocated d) s h =
      update_device-regs (HasStatic s.use_float_model) allocated d s h (λ old e.
        IsStatic-congr s.use_float_model old _ (device-Kept d s old s.use_float_model)
          (subst (HasStatic s.use_float_model) e h))

  apply-HasChain : (u : Update) (s : Slave) → HasChain s → HasChain (apply u s)
  apply-HasChain u s h = rw (apply-model u s) (apply-HasStatic u s h)

  apply_all-HasChain : (us : List Update) (s : Slave) → HasChain s → HasChain (apply_all us s)
  unfolding apply_all
  apply_all-HasChain [] s h = h
  apply_all-HasChain (u ∷ us) s h = apply_all-HasChain us (apply u s) (apply-HasChain u s h)

  apply_all-model :
      (us : List Update) (s : Slave) → (apply_all us s).use_float_model ≡ s.use_float_model
  unfolding apply_all
  apply_all-model [] s = refl
  apply_all-model (u ∷ us) s = apply_all-model us (apply u s) ∙ apply-model u s

  -- What a client finds in a mapping: the marker "SunS", then the common model and the configured
  -- meter model, then the end.
  pub record IsDiscovered (use_float : Bool) (s : Slave) : Type 0 where
    pub mapping : Mapping
    pub regs_is : s.regs ≡ some mapping
    pub marker : read mapping 40000 2 ≡ 0x5375 ∷ 0x6e53 ∷ []
    pub models :
        walk 3 mapping 40002 ≡ some ((1, 65) ∷ (if use_float then (213, 124) else (203, 105)) ∷ [])

  HasChain-IsDiscovered :
      (s : Slave) (use_float : Bool) (o : Option Mapping)
      → s.regs ≡ o
      → HasStatic use_float o
      → IsDiscovered use_float s
  HasChain-IsDiscovered s use_float none e h = absurd h
  HasChain-IsDiscovered s use_float (some m) e h = record {
    mapping = m;
    regs_is = e;
    marker = (walk_static use_float m h).0;
    models = (walk_static use_float m h).1;
  }

  listen-slave :
      (tcp : Bool) (env : Environment) (s : Server) → (listen ops tcp env s).1.slave ≡ s.slave
  unfolding listen
  listen-slave tcp env s = ground arith

  with_static-HasChain :
      (slave_id : ℕ) (s : Server) (m : Mapping) → HasChain (with_static ops slave_id s m).slave
  with_static-HasChain slave_id s m = fill_static-IsStatic ops s.slave.use_float_model slave_id _

  -- What a started listener leaves in the slave.
  abbrev Started : Server → Slave → Type 0
  Started s t = HasChain t × (t.use_float_model ≡ s.slave.use_float_model)

  start_listener-Started :
      (tcp : Bool) (slave_id : ℕ) (env : Environment) (s : Server)
      → (start_listener ops tcp slave_id env s).0 ≡ ok tt
      → Started s (start_listener ops tcp slave_id env s).1.slave
  unfolding start_listener
  start_listener-Started tcp slave_id env s h = elim (Option-cases s.slave.regs) [
    | inr (m, e) ↦ rw e (
        rw (listen-slave tcp env (with_static ops slave_id s m))
          (with_static-HasChain slave_id s m, refl))
    | inl e ↦ elim (Bool-cases env.allocated) [
      | inl t ↦ rw e (
          rw t (
            rw (listen-slave tcp env (with_static ops slave_id s fresh))
              (with_static-HasChain slave_id s fresh, refl)))
      | inr t ↦ absurd (ground arith)
    ]
  ]

  -- Once the listener has started, a client finds the configured chain of models, whatever updates
  -- of values and device data have come in the meantime, failed ones included.
  pub started-IsDiscovered :
      (tcp : Bool) (slave_id : ℕ) (env : Environment) (s : Server) (us : List Update)
      → (start_listener ops tcp slave_id env s).0 ≡ ok tt
      → IsDiscovered s.slave.use_float_model
          (apply_all us (start_listener ops tcp slave_id env s).1.slave)
  started-IsDiscovered tcp slave_id env s us e =
      let (chain, model) = start_listener-Started tcp slave_id env s e in
      let later = apply_all-HasChain us _ chain in
      HasChain-IsDiscovered _ s.slave.use_float_model _ refl (
        subst (λ b. HasStatic b (apply_all us (start_listener ops tcp slave_id env s).1.slave).regs)
          (apply_all-model us _ ∙ model) later)
