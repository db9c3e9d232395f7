-- ===== src/Slave.antt =====
-- src/meter_slave.cpp: the register mapping that the Modbus server answers from, and its updates.
-- Every update works on a fresh mapping and publishes it by one atomic store of the pointer, so a
-- mapping that a client thread has loaded never changes.
pub mod Writes
pub mod Points
pub mod Stores
pub mod Updates
pub mod Models
pub mod Texts
pub mod DeviceTexts
pub mod Stopping
pub mod Listener
pub mod Chain
pub mod Discovery
pub mod Session
pub mod Serial
pub mod Accept
pub mod Lifetime
pub mod Clients
mod ClientTests
pub mod Tests
use smartmeter_gateway.Prelude.{
  ℕ, Bool, true, false, not, List, [], ◌∷◌, Option, none, some, ltb, if◌then◌else◌,
}
use smartmeter_gateway.ModbusError.{
  Result, ok, err, custom, enomem, Severity, transient, fatal, ErrorAction, none_action, reconnect,
  stop,
}
use smartmeter_gateway.ModbusError
use smartmeter_gateway.SignalHandler.{SignalHandler, is_running}
use smartmeter_gateway.SignalHandler
use smartmeter_gateway.Real.{RealOps}
use smartmeter_gateway.MeterTypes.{Values, Device}
use smartmeter_gateway.Register.{Register}
use smartmeter_gateway.Register.Common
use smartmeter_gateway.Pack.{Mapping, Value, real, text, pack_to_modbus, pack_scaled}
use Writes.{FloatWrite, ScaledWrite, sunspec_units, float_writes, scaled_writes}

abbrev pub modbus_registers : ℕ
modbus_registers = 65535

pub record Slave : Type 0 where
  pub use_float_model : Bool
  pub regs : Option Mapping
  pub device_updated : Bool
  pub handler : SignalHandler

-- What `handleResult` answers, and what it does to the shutdown flag.
unfoldable pub action_of : Severity → ErrorAction
action_of fatal = stop
action_of transient = reconnect
action_of ModbusError.shutdown = stop

unfoldable pub handle_error : Severity → SignalHandler → SignalHandler
handle_error fatal h = SignalHandler.shutdown h
handle_error _ h = h

unfoldable pub handle_result {ℓ} :
    {A : Type ℓ} → Result A → SignalHandler → ErrorAction × SignalHandler
unfolding action_of handle_error
handle_result (ok _) h = (none_action, h)
handle_result (err e) h = (action_of e.severity, handle_error e.severity h)

-- `modbus_mapping_new` zeroes the registers; `memcpy` then copies all of them.
abbrev pub fresh : Mapping
fresh a = 0

unfoldable pub copy_registers : ℕ → Mapping → Mapping → Mapping
copy_registers n old new a = if ltb a n then old a else new a

-- The mapping that is being filled, and the shutdown flag.
pub record Filling : Type 0 where
  pub mapping : Mapping
  pub handler : SignalHandler

-- `handleResult(packToModbus(newRegs, …))`: a packing that fails has written nothing.
unfoldable pub filled : Result Mapping → Filling → Filling
unfolding handle_result
filled (ok m) f = record f { mapping = m }
filled (err e) f = record f { handler = (handle_result {A = Mapping} (err e) f.handler).1 }

abbrev pub fail_memory : Slave → Slave
fail_memory s = record s {
  handler = (handle_result {A = Mapping} (err (custom enomem)) s.handler).1;
}

abbrev pub copied : Slave → Mapping → Filling
copied s old = record { mapping = copy_registers modbus_registers old fresh; handler = s.handler }

-- The strings that `updateDevice` writes, in its order.
abbrev pub device_texts : Device → List (Register × List ℕ)
device_texts d =
    (Common.mn, d.manufacturer)
    ∷ (Common.md, d.model)
    ∷ (Common.opt, d.options)
    ∷ (Common.vr, d.fw_version)
    ∷ (Common.sn, d.serial_number)
    ∷ []

-- `regs_.store(newRegs)`.
abbrev pub published : Slave → Filling → Slave
published s f = record s { regs = some f.mapping; handler = f.handler }

module _ (ops : RealOps) where
  unfoldable pub fill_floats : List (FloatWrite ops) → Filling → Filling
  fill_floats [] f = f
  fill_floats (w ∷ ws) f =
      fill_floats ws (filled (pack_to_modbus ops (some f.mapping) w.reg (real w.value)) f)

  unfoldable pub fill_scaled : List (ScaledWrite ops) → Filling → Filling
  fill_scaled [] f = f
  fill_scaled (w ∷ ws) f =
      fill_scaled ws (filled (pack_scaled ops (some f.mapping) w.reg w.sf w.value w.decimals) f)

  unfoldable pub fill_texts : List (Register × List ℕ) → Filling → Filling
  fill_texts [] f = f
  fill_texts ((reg, s) ∷ ws) f =
      fill_texts ws (filled (pack_to_modbus ops (some f.mapping) reg (text s)) f)

  unfoldable pub fill_values : Bool → Values ops.Real → Filling → Filling
  fill_values use_float v f =
      if use_float
      then fill_floats (float_writes ops (sunspec_units ops v)) f
      else fill_scaled (scaled_writes ops (sunspec_units ops v)) f

  -- `updateValues`; the flag says whether `modbus_mapping_new` succeeds.
  unfoldable pub update_values : Bool → Values ops.Real → Slave → Slave
  update_values allocated v s = if not (is_running s.handler) then s else elim s.regs [
    | none ↦ fail_memory s
    | some old ↦
        if not allocated
        then fail_memory s
        else published s (fill_values s.use_float_model v (copied s old))
  ]

  -- `updateDevice`.
  unfoldable pub update_device : Bool → Device → Slave → Slave
  update_device allocated d s =
      if not (is_running s.handler) then s else if s.device_updated then s else elim s.regs [
        | none ↦ fail_memory s
        | some old ↦
            if not allocated
            then fail_memory s
            else record (published s (fill_texts (device_texts d) (copied s old))) {
              device_updated = true;
            }
      ]
