-- ===== src/Slave/Stopping.antt =====
-- What the updates of src/meter_slave.cpp do to the shutdown flag: nothing but one `shutdown`.
use smartmeter_gateway.Prelude.{
  ℕ, inl, inr, Bool, true, false, not, List, [], ◌∷◌, refl, if_both, option_both,
}
use smartmeter_gateway.ModbusError.{
  Result, ok, err, ModbusError, Severity, fatal, transient, custom, enomem,
}
use smartmeter_gateway.ModbusError
use smartmeter_gateway.Real.{RealOps}
use smartmeter_gateway.MeterTypes.{Values, Device}
use smartmeter_gateway.Register.{Register}
use smartmeter_gateway.SignalHandler.{SignalHandler, is_running}
use smartmeter_gateway.SignalHandler.Stopping.{MayStop, MayStop-trans}
use smartmeter_gateway.Pack.{Mapping}
use smartmeter_gateway.Slave.Writes.{
  FloatWrite, ScaledWrite, sunspec_units, float_writes, scaled_writes,
}
use smartmeter_gateway.Slave.{
  Slave, Filling, filled, fill_floats, fill_scaled, fill_texts, fill_values, update_values,
  update_device, handle_result, handle_error, copied, device_texts,
}

handle_error-MayStop : (sev : Severity) (h : SignalHandler) → MayStop h (handle_error sev h)
unfolding handle_error
handle_error-MayStop fatal h = inr refl
handle_error-MayStop transient h = inl refl
handle_error-MayStop ModbusError.shutdown h = inl refl

filled-MayStop : (r : Result Mapping) (f : Filling) → MayStop f.handler (filled r f).handler
unfolding filled handle_result
filled-MayStop (ok m) f = inl refl
filled-MayStop (err e) f = handle_error-MayStop e.severity f.handler

module _ (ops : RealOps) where
  fill_floats-MayStop :
      (ws : List (FloatWrite ops)) (f : Filling) → MayStop f.handler (fill_floats ops ws f).handler
  unfolding fill_floats
  fill_floats-MayStop [] f = inl refl
  fill_floats-MayStop (w ∷ ws) f =
      MayStop-trans f.handler _ _ (filled-MayStop _ f) (fill_floats-MayStop ws _)

  fill_scaled-MayStop :
      (ws : List (ScaledWrite ops)) (f : Filling) → MayStop f.handler (fill_scaled ops ws f).handler
  unfolding fill_scaled
  fill_scaled-MayStop [] f = inl refl
  fill_scaled-MayStop (w ∷ ws) f =
      MayStop-trans f.handler _ _ (filled-MayStop _ f) (fill_scaled-MayStop ws _)

  fill_texts-MayStop :
      (ws : List (Register × List ℕ)) (f : Filling)
      → MayStop f.handler (fill_texts ops ws f).handler
  unfolding fill_texts
  fill_texts-MayStop [] f = inl refl
  fill_texts-MayStop ((r, s) ∷ ws) f =
      MayStop-trans f.handler _ _ (filled-MayStop _ f) (fill_texts-MayStop ws _)

  fill_values-MayStop :
      (use_float : Bool) (v : Values ops.Real) (f : Filling)
      → MayStop f.handler (fill_values ops use_float v f).handler
  unfolding fill_values
  fill_values-MayStop true v f = fill_floats-MayStop (float_writes ops (sunspec_units ops v)) f
  fill_values-MayStop false v f = fill_scaled-MayStop (scaled_writes ops (sunspec_units ops v)) f

  abbrev Stops : Slave → Slave → Type 0
  Stops s x = MayStop s.handler x.handler

  pub update_values-MayStop :
      (allocated : Bool) (v : Values ops.Real) (s : Slave)
      → Stops s (update_values ops allocated v s)
  unfolding update_values handle_result
  update_values-MayStop allocated v s =
      if_both (Stops s) (not (is_running s.handler)) _ _ (inl refl) (
        option_both (Stops s) s.regs _ _ (handle_error-MayStop (custom enomem).severity s.handler)
          (λ old.
            if_both (Stops s) (not allocated) _ _
              (handle_error-MayStop (custom enomem).severity s.handler)
              (fill_values-MayStop s.use_float_model v (copied s old))))

  pub update_device-MayStop :
      (allocated : Bool) (d : Device) (s : Slave) → Stops s (update_device ops allocated d s)
  unfolding update_device handle_result
  update_device-MayStop allocated d s =
      if_both (Stops s) (not (is_running s.handler)) _ _ (inl refl) (
        if_both (Stops s) s.device_updated _ _ (inl refl) (
          option_both (Stops s) s.regs _ _ (handle_error-MayStop (custom enomem).severity s.handler)
            (λ old.
              if_both (Stops s) (not allocated) _ _
                (handle_error-MayStop (custom enomem).severity s.handler)
                (fill_texts-MayStop (device_texts d) (copied s old)))))
