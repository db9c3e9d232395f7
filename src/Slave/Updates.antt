-- ===== src/Slave/Updates.antt =====
-- `updateValues` and `updateDevice` on every branch.
use smartmeter_gateway.Prelude.{ℕ, ◌<◌, ◌⊎◌, Bool, true, false, ◌≡◌, ◌∙◌, ap, arith, none, some}
use smartmeter_gateway.ModbusError.{custom}
use smartmeter_gateway.Real.{RealOps}
use smartmeter_gateway.MeterTypes.{Values}
use smartmeter_gateway.SignalHandler.{SignalHandler, is_running, shutdown}
use smartmeter_gateway.Pack.{Mapping}
use smartmeter_gateway.Slave.{
  Slave, Filling, fill_values, modbus_registers, copy_registers, fresh, update_values,
  handle_result,
}
use smartmeter_gateway.Slave.Points.{HoldsValues, is_served}
use smartmeter_gateway.Slave.Models.{fill_values-IsFilled}

pub copy_registers_lem :
    (n : ℕ) (old new : Mapping) (a : ℕ) → a < n → copy_registers n old new a ≡ old a
unfolding copy_registers
copy_registers_lem n old new a h = ground arith

module _ (ops : RealOps) where
  -- `s'` is `s` with a new mapping in which every point of the model reads as its value and every
  -- register that belongs to no point is as in the old mapping.
  pub record IsUpdated (v : Values ops.Real) (s : Slave) (old : Mapping) (s' : Slave) : Type 0 where
    pub mapping : Mapping
    pub slave_is : s' ≡ record s { regs = some mapping }
    pub holds : HoldsValues ops s.use_float_model mapping v
    pub rest_same :
        (a : ℕ)
        → a < modbus_registers
        → is_served ops s.use_float_model a ≡ false
        → mapping a ≡ old a

  -- While the gateway runs and a mapping can be allocated, an update of the values publishes a
  -- mapping in which every point of the configured SunSpec model that the gateway serves (current,
  -- voltages, frequency, powers and power factors, in total and for each phase, and the total
  -- energies) reads at its address as its value, power factors in percent and energies in Wh, as a
  -- float or as the rounded integer with the fitting scale factor; all other registers, per-phase
  -- energies and event bits included, are unchanged, and so is everything else of the slave.
  pub update_values-IsUpdated :
      (v : Values ops.Real) (s : Slave) (old : Mapping)
      → is_running s.handler ≡ true
      → s.regs ≡ some old
      → IsUpdated v s old (update_values ops true v s)
  unfolding update_values
  update_values-IsUpdated v s old h e =
      let start : Filling = record {
        mapping = copy_registers modbus_registers old fresh;
        handler = s.handler;
      } in
      let filled = fill_values-IsFilled ops s.use_float_model v start in
      rw h (
        rw e (record {
          mapping = (fill_values ops s.use_float_model v start).mapping;
          slave_is =
              ap
                (λ (x : SignalHandler). record s {
                  regs = some (fill_values ops s.use_float_model v start).mapping;
                  handler = x;
                })
                filled.handler_same;
          holds = filled.holds;
          rest_same =
              λ a b c. filled.rest_same a c ∙ copy_registers_lem modbus_registers old fresh a b;
        }))

  -- An update in a gateway that is shutting down changes nothing. One that finds no mapping, or
  -- cannot allocate one, keeps the registers and shuts the gateway down.
  pub update_values_refused :
      (allocated : Bool) (v : Values ops.Real) (s : Slave)
      → (is_running s.handler ≡ false → update_values ops allocated v s ≡ s)
        × (is_running s.handler ≡ true
            → (s.regs ≡ none) ⊎ (allocated ≡ false)
            → update_values ops allocated v s ≡ record s { handler = shutdown s.handler })
  unfolding update_values handle_result custom
  update_values_refused allocated v s = (λ h. ground arith, λ h r. ground arith)
