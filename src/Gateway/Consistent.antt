-- ===== src/Gateway/Consistent.antt =====
-- The registers of the meter model all hold the values of one telegram.
use smartmeter_gateway.Prelude.{
  Bool-cases, ltb, ◌&&◌, ℕ, ◌≤◌, ◌<◌, ◌⊎◌, inl, inr, Bool, true, false, List, ◌≡◌, sym, subst, refl,
  ◌∙◌, arith, Option, none, some, Bytes,
}
use smartmeter_gateway.Real.{RealOps}
use smartmeter_gateway.Config.{MeterMasterConfig}
use smartmeter_gateway.MeterTypes.{Values, Device}
use smartmeter_gateway.SignalHandler.{SignalHandler}
use smartmeter_gateway.Register.M20x
use smartmeter_gateway.Pack.{Mapping}
use smartmeter_gateway.Master.Json.{Object}
use smartmeter_gateway.Master.Port.{Effect, opened, closed, availability, values_sent, device_sent}
use smartmeter_gateway.Master.Loop.Kept.{AreValuesRead}
use smartmeter_gateway.Slave.{
  Slave, copied, fresh, fill_values, fill_texts, device_texts, modbus_registers,
}
use smartmeter_gateway.Slave.Points.{HoldsValues, is_served, points}
use smartmeter_gateway.Slave.Points.Stored.{points-congr}
use smartmeter_gateway.Slave.Models.{block_end, is_served_out, fill_values-IsFilled}
use smartmeter_gateway.Slave.Updates.{copy_registers_lem}
use smartmeter_gateway.Slave.Texts.{fill_texts_out}
use smartmeter_gateway.Slave.Discovery.{
  values, device, apply, apply-model, update_values-regs, update_device-regs,
}
use smartmeter_gateway.Gateway.{Event, update_slave, run, started}
use smartmeter_gateway.Gateway.Faithful.{
  Reached, at_first, values_given, device_given, flag_set, FromTelegram, AreReached, run-IsFaithful,
}

range_cases : (lo hi a : ℕ) → ((lo < a) × (a < hi)) ⊎ ((a ≤ lo) ⊎ (hi ≤ a))
range_cases lo hi a = elim (Bool-cases (ltb lo a && ltb a hi)) [
  | inl inside ↦ inl (ground arith)
  | inr outside ↦ inr (ground arith)
]

module _ (ops : RealOps) where
  -- A device update writes no register behind the common model.
  device_same :
      (d : Device) (s : Slave) (old : Mapping) (a : ℕ)
      → 40068 ≤ a
      → a < modbus_registers
      → (fill_texts ops (device_texts d) (copied s old)).mapping a ≡ old a
  device_same d s old a p q =
      fill_texts_out ops (device_texts d) (copied s old) 40004 40068 a (ground arith) refl
        (omega arith)
      ∙ copy_registers_lem modbus_registers old fresh a q

module _ (ops : RealOps) (cfg : MeterMasterConfig ops.Real) (project_version commit_hash : Bytes)
    (use_float : Bool) (before : Mapping) where
  -- A register of the model's block that belongs to no point.
  abbrev IsUnserved : ℕ → Type 0
  IsUnserved a =
      (M20x.l.addr < a) × (a < block_end ops use_float) × (is_served ops use_float a ≡ false)

  -- The registers of the model are all as before, or the points read as the values of one framed
  -- telegram, and the other registers are as before.
  abbrev pub IsConsistent : Mapping → Type 0
  IsConsistent m =
      ((a : ℕ) → M20x.l.addr < a → a < block_end ops use_float → m a ≡ before a)
      ⊎ ((v : Values ops.Real) × AreValuesRead ops cfg project_version commit_hash (some v)
          × HoldsValues ops use_float m v
          × ((a : ℕ) → IsUnserved a → m a ≡ before a))

  unserved_before : (m : Mapping) → IsConsistent m → (a : ℕ) → IsUnserved a → m a ≡ before a
  unserved_before m (inl same) a (p, q, u) = same a p q
  unserved_before m (inr (v, r, h, same)) a u = same a u

  abbrev IsConsistentIn : Option Mapping → Type 0
  IsConsistentIn none = ⊥
  IsConsistentIn (some m) = IsConsistent m

  in_mapping : (b : Bool) (a : ℕ) → a < block_end ops b → a < modbus_registers
  in_mapping true a h = omega arith
  in_mapping false a h = omega arith

  served_in :
      (a : ℕ) → is_served ops use_float a ≡ true → (M20x.l.addr < a) × (a < block_end ops use_float)
  served_in a h = elim (range_cases M20x.l.addr (block_end ops use_float) a) [
    | inl inside ↦ inside
    | inr outside ↦ absurd (let out = is_served_out ops use_float a outside in cc)
  ]

  device-IsConsistent :
      (d : Device) (s : Slave) (old : Mapping)
      → IsConsistent old
      → IsConsistent (fill_texts ops (device_texts d) (copied s old)).mapping
  device-IsConsistent d s old (inl same) =
      inl (λ a p q. device_same ops d s old a (omega arith) (in_mapping use_float a q) ∙ same a p q)
  device-IsConsistent d s old (inr (v, r, h, same)) = inr (
    v,
    r,
    points-congr ops v (points ops use_float) _ old
        (λ a c.
          let (p, q) = served_in a c in
          device_same ops d s old a (omega arith) (in_mapping use_float a q))
        h,
    λ a (p, q, u).
        device_same ops d s old a (omega arith) (in_mapping use_float a q) ∙ same a (p, q, u),
  )

  values-IsConsistent :
      (v : Values ops.Real) (s : Slave) (old : Mapping)
      → s.use_float_model ≡ use_float
      → AreValuesRead ops cfg project_version commit_hash (some v)
      → IsConsistent old
      → IsConsistent (fill_values ops s.use_float_model v (copied s old)).mapping
  values-IsConsistent v s old m r k =
      let filled = fill_values-IsFilled ops use_float v (copied s old) in
      rw m (
        inr (
          v,
          r,
          filled.holds,
          λ a (p, q, u).
              filled.rest_same a u
              ∙ copy_registers_lem modbus_registers old fresh a (in_mapping use_float a q)
              ∙ unserved_before old k a (p, q, u),
        ))

  abbrev Good : Slave → Type 0
  Good s = (s.use_float_model ≡ use_float) × IsConsistentIn s.regs

  update_slave-Good :
      (allocated : Bool) (e : Effect ops.Real) (h : SignalHandler) (s : Slave)
      → FromTelegram ops cfg project_version commit_hash e
      → Good s
      → Good (update_slave ops allocated e h s)
  unfolding update_slave apply
  update_slave-Good allocated (values_sent (some v)) h s f (m, k) =
      let s' : Slave = record s { handler = h } in
      (
        apply-model ops (values allocated v) s' ∙ m,
        update_values-regs ops IsConsistentIn allocated v s' k
            (λ old e. values-IsConsistent v s' old m f (subst IsConsistentIn e k)),
      )
  update_slave-Good allocated (device_sent (some d)) h s f (m, k) =
      let s' : Slave = record s { handler = h } in
      (
        apply-model ops (device allocated d) s' ∙ m,
        update_device-regs ops IsConsistentIn allocated d s' k
            (λ old e. device-IsConsistent d s' old (subst IsConsistentIn e k)),
      )
  update_slave-Good allocated (values_sent none) h s f g = g
  update_slave-Good allocated (device_sent none) h s f g = g
  update_slave-Good allocated (availability b) h s f g = g
  update_slave-Good allocated (opened fd) h s f g = g
  update_slave-Good allocated (closed fd) h s f g = g

  Reached-Good :
      (first s : Slave) → Reached ops cfg project_version commit_hash first s → Good first → Good s
  unfolding update_slave
  Reached-Good first s at_first g = g
  Reached-Good first _ (values_given {s} allocated v h r f) g =
      update_slave-Good allocated (values_sent (some v)) h s f (Reached-Good first s r g)
  Reached-Good first _ (device_given {s} allocated d h r f) g =
      update_slave-Good allocated (device_sent (some d)) h s f (Reached-Good first s r g)
  Reached-Good first _ (flag_set {s} h r) g = Reached-Good first s r g

module _ (ops : RealOps) (cfg : MeterMasterConfig ops.Real) (project_version commit_hash : Bytes)
    (dump : Object ops.Real → Bytes) (topic : Bytes) (hash : Bytes → ℕ) (queue_size : ℕ) where
  -- What a run leaves in the slave: a mapping, if it started with one.
  pub record HasConsistent (first : Slave) (before : Mapping) (o : Option Slave) : Type 0 where
    pub slave : Slave
    pub slave_is : o ≡ some slave
    pub mapping : Mapping
    pub regs_is : slave.regs ≡ some mapping
    pub consistent :
        IsConsistent ops cfg project_version commit_hash first.use_float_model before mapping

  Reached-HasConsistent :
      (first s : Slave) (before : Mapping) (o : Option Mapping)
      → s.regs ≡ o
      → (s.use_float_model ≡ first.use_float_model)
        × IsConsistentIn ops cfg project_version commit_hash first.use_float_model before o
      → HasConsistent first before (some s)
  Reached-HasConsistent first s before none e (m, k) = absurd k
  Reached-HasConsistent first s before (some mapping) e (m, k) = record {
    slave = s;
    slave_is = refl;
    mapping = mapping;
    regs_is = e;
    consistent = k;
  }

  AreReached-HasConsistent :
      (first : Slave) (before : Mapping) (o : Option Slave)
      → first.regs ≡ some before
      → AreReached ops cfg project_version commit_hash (some first) o
      → HasConsistent first before o
  AreReached-HasConsistent first before none e r = absurd r
  AreReached-HasConsistent first before (some s) e r =
      Reached-HasConsistent first s before s.regs refl (
        Reached-Good ops cfg project_version commit_hash first.use_float_model before first s r (
          refl,
          subst (IsConsistentIn ops cfg project_version commit_hash first.use_float_model before)
              (sym e) (inl (λ a p q. refl)),
        ))

  -- In every run of the started program with a slave that has a mapping, the slave keeps one in
  -- which the registers of the configured meter model are either all as at the start, or every
  -- point of the model that the gateway serves reads, at its address and in its encoding and unit,
  -- as the value of one framed telegram, and the other registers of the model (per-phase energies
  -- and event bits) are as at the start; failed updates included.
  pub run-HasConsistent :
      (first : Slave) (before : Mapping) (es : List (Event ops.Real))
      → first.regs ≡ some before
      → HasConsistent first before
          (run ops cfg project_version commit_hash dump topic hash queue_size
            (started (some first))
            es).slave
  run-HasConsistent first before es e =
      AreReached-HasConsistent first before _ e
        (run-IsFaithful ops cfg project_version commit_hash dump topic hash queue_size (some first)
          es).updates
