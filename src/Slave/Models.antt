-- ===== src/Slave/Models.antt =====
-- The two SunSpec meter models that `updateValues` fills: every point that is served reads as its
-- value behind an update, and no other register changes.
use smartmeter_gateway.Prelude.{
  ℕ, ◌+◌, ◌≤◌, ◌⊎◌, inl, inr, Bool, true, false, List, [], ◌∷◌, ◌≡◌, refl, arith, All,
}
use smartmeter_gateway.ModbusError.{ok, err}
use smartmeter_gateway.Real.{RealOps}
use smartmeter_gateway.MeterTypes.{Values}
use smartmeter_gateway.Register.{RegType, int16, uint32, float}
use smartmeter_gateway.Register.M20x
use smartmeter_gateway.Register.M21x
use smartmeter_gateway.Pack.{pack_to_modbus, pack_scaled, scaled_words, store, pack_integer}
use smartmeter_gateway.Slave.{Filling, filled, fill_floats, fill_scaled, fill_values}
use smartmeter_gateway.Slave.Stores.{Store, value, scale, store_all, separate, store_all-Holds}
use smartmeter_gateway.Slave.Points.{float_points, scaled_points, HoldsValues, is_served}
use smartmeter_gateway.Slave.Points.Stored.{
  HasAll, HasAll-Holds, HasAll-untouched, store_all_untouched, point_stores, HasSmallScales,
  stores-HasWords, point_stores-untouched, is_covered_out,
}
use smartmeter_gateway.Slave.Writes.{
  FloatWrite, ScaledWrite, float_writes, scaled_writes, sunspec_units,
}

module _ (ops : RealOps) where
  abbrev pub float_words : ops.Real → List ℕ
  float_words x = (ops.float_abcd x).0 ∷ (ops.float_abcd x).1 ∷ []

  abbrev float_stores : List (FloatWrite ops) → List Store
  float_stores [] = []
  float_stores (w ∷ ws) = value w.reg.addr (float_words w.value) ∷ float_stores ws

  fill_floats-eq-stores :
      (ws : List (FloatWrite ops)) (f : Filling)
      → All (λ w. w.reg.type ≡ float) ws
      → fill_floats ops ws f
        ≡ record { mapping = store_all f.mapping (float_stores ws); handler = f.handler }
  unfolding fill_floats store_all pack_to_modbus filled
  fill_floats-eq-stores [] f h = refl
  fill_floats-eq-stores (w ∷ ws) f h = rw h.0 (fill_floats-eq-stores ws _ h.1)

  -- The integer that encodes a value, as registers of the given type.
  abbrev pub integer_words : RegType → ops.Real → ℕ → List ℕ
  integer_words t x d = elim (scaled_words ops t x d) [ ok ws ↦ ws | err e ↦ [] ]

  abbrev scaled_stores : List (ScaledWrite ops) → List Store
  scaled_stores [] = []
  scaled_stores (w ∷ ws) =
      value w.reg.addr (integer_words w.reg.type w.value w.decimals)
      ∷ scale w.sf.addr w.decimals
      ∷ scaled_stores ws

  abbrev IsInteger : RegType → Type 0
  IsInteger t = (t ≡ int16) ⊎ (t ≡ uint32)

  fill_scaled-eq-stores :
      (ws : List (ScaledWrite ops)) (f : Filling)
      → All (λ w. IsInteger w.reg.type) ws
      → fill_scaled ops ws f
        ≡ record { mapping = store_all f.mapping (scaled_stores ws); handler = f.handler }
  unfolding fill_scaled store_all pack_scaled filled store
  fill_scaled-eq-stores [] f h = refl
  fill_scaled-eq-stores (w ∷ ws) f h = elim h.0 [
    | inl e ↦ rw e (fill_scaled-eq-stores ws _ h.1)
    | inr e ↦ rw e (fill_scaled-eq-stores ws _ h.1)
  ]

  floats_are_float : (v : Values ops.Real) → All (λ w. w.reg.type ≡ float) (float_writes ops v)
  unfolding float_writes
  floats_are_float v = ground arith

  scaled_are_integer : (v : Values ops.Real) → All (λ w. IsInteger w.reg.type) (scaled_writes ops v)
  unfolding scaled_writes
  scaled_are_integer v = ground arith

  floats_separate : (v : Values ops.Real) → separate (float_stores (float_writes ops v)) ≡ true
  unfolding float_writes
  floats_separate v = refl

  scaled_separate : (v : Values ops.Real) → separate (scaled_stores (scaled_writes ops v)) ≡ true
  unfolding scaled_writes scaled_words pack_integer
  scaled_separate v = refl

  floats_have_all :
      (v : Values ops.Real)
      → HasAll
          (float_stores (float_writes ops (sunspec_units ops v)))
          (point_stores ops v (float_points ops))
  unfolding float_writes sunspec_units
  floats_have_all v = ground arith

  floats_are_points :
      (v : Values ops.Real)
      → HasAll
          (point_stores ops v (float_points ops))
          (float_stores (float_writes ops (sunspec_units ops v)))
  unfolding float_writes sunspec_units
  floats_are_points v = ground arith

  scaled_have_all :
      (v : Values ops.Real)
      → HasAll
          (scaled_stores (scaled_writes ops (sunspec_units ops v)))
          (point_stores ops v (scaled_points ops))
  unfolding scaled_writes sunspec_units scaled_words
  scaled_have_all v = ground arith

  scaled_are_points :
      (v : Values ops.Real)
      → HasAll
          (point_stores ops v (scaled_points ops))
          (scaled_stores (scaled_writes ops (sunspec_units ops v)))
  unfolding scaled_writes sunspec_units scaled_words
  scaled_are_points v = ground arith

  float_scales : HasSmallScales ops (float_points ops)
  float_scales = ground arith

  scaled_scales : HasSmallScales ops (scaled_points ops)
  scaled_scales = ground arith

  -- The registers behind the model's header, up to the end marker.
  abbrev pub block_end : Bool → ℕ
  block_end true = M21x.l.addr + 1 + M21x.size
  block_end false = M20x.l.addr + 1 + M20x.size

  pub is_served_out :
      (use_float : Bool) (a : ℕ)
      → (a ≤ M20x.l.addr) ⊎ (block_end use_float ≤ a)
      → is_served ops use_float a ≡ false
  is_served_out true a h =
      is_covered_out ops (M20x.l.addr + 1) (block_end true) a (float_points ops) refl (omega arith)
  is_served_out false a h =
      is_covered_out ops (M20x.l.addr + 1) (block_end false) a (scaled_points ops) refl
        (omega arith)

  -- Every point reads as its value, and no other register has changed.
  pub record IsFilled (use_float : Bool) (v : Values ops.Real) (f g : Filling) : Type 0 where
    pub handler_same : g.handler ≡ f.handler
    pub holds : HoldsValues ops use_float g.mapping v
    pub rest_same : (a : ℕ) → is_served ops use_float a ≡ false → g.mapping a ≡ f.mapping a

  pub fill_values-IsFilled :
      (use_float : Bool) (v : Values ops.Real) (f : Filling)
      → IsFilled use_float v f (fill_values ops use_float v f)
  unfolding fill_values
  fill_values-IsFilled true v f =
      let u = sunspec_units ops v in
      let ss = float_stores (float_writes ops u) in
      let ps = float_points ops in
      let e = fill_floats-eq-stores (float_writes ops u) f (floats_are_float u) in
      rw e (record {
        handler_same = refl;
        holds = stores-HasWords ops v ps _ float_scales (
            HasAll-Holds ss (point_stores ops v ps) _ (floats_have_all v)
              (store_all-Holds ss f.mapping (floats_separate u)));
        rest_same = λ a h. store_all_untouched ss f.mapping a (
            HasAll-untouched (point_stores ops v ps) ss a (floats_are_points v)
              (point_stores-untouched ops v ps a h));
      })
  fill_values-IsFilled false v f =
      let u = sunspec_units ops v in
      let ss = scaled_stores (scaled_writes ops u) in
      let ps = scaled_points ops in
      let e = fill_scaled-eq-stores (scaled_writes ops u) f (scaled_are_integer u) in
      rw e (record {
        handler_same = refl;
        holds = stores-HasWords ops v ps _ scaled_scales (
            HasAll-Holds ss (point_stores ops v ps) _ (scaled_have_all v)
              (store_all-Holds ss f.mapping (scaled_separate u)));
        rest_same = λ a h. store_all_untouched ss f.mapping a (
            HasAll-untouched (point_stores ops v ps) ss a (scaled_are_points v)
              (point_stores-untouched ops v ps a h));
      })
