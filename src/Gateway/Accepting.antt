-- ===== src/Gateway/Accepting.antt =====
-- When the slave takes the device data of a telegram, and what it is behind that.
use smartmeter_gateway.Prelude.{◌⊎◌, inl, inr, Bool, true, false, ◌≡◌, refl, some, All}
use smartmeter_gateway.Real.{RealOps}
use smartmeter_gateway.MeterTypes.{Device}
use smartmeter_gateway.SignalHandler.{SignalHandler, is_running}
use smartmeter_gateway.Master.Port.{device_sent}
use smartmeter_gateway.Pack.{Mapping}
use smartmeter_gateway.Slave.{Slave, device_texts}
use smartmeter_gateway.Slave.Texts.{Fits, IsText}
use smartmeter_gateway.Slave.DeviceTexts.{update_device-IsDeviceUpdated, update_device_of_updated}
use smartmeter_gateway.Gateway.{update_slave}

-- The slave takes the device data of a telegram: it has them already, or they fit and a mapping can
-- be allocated.
abbrev pub Accepts : Bool → Device → Slave → Type 0
Accepts allocated d s =
    (s.device_updated ≡ true)
    ⊎ ((s.device_updated ≡ false)
        × (allocated ≡ true)
        × All Fits (device_texts d)
        × All IsText (device_texts d))

-- The slave behind that: it still has a mapping, and the program still runs.
pub record IsReady (s : Slave) (h : SignalHandler) (s' : Slave) : Type 0 where
  pub mapping : Mapping
  pub regs : s'.regs ≡ some mapping
  pub handler_same : s'.handler ≡ h
  pub model_same : s'.use_float_model ≡ s.use_float_model

module _ (ops : RealOps) where
  pub accepted :
      (allocated : Bool) (d : Device) (s : Slave) (old : Mapping) (h : SignalHandler)
      → is_running h ≡ true
      → s.regs ≡ some old
      → Accepts allocated d s
      → IsReady s h (update_slave ops allocated (device_sent (some d)) h s)
  unfolding update_slave
  accepted allocated d s old h alive regs (inl done) =
      rw (update_device_of_updated ops allocated d (record s { handler = h }) done)
        (record { mapping = old; regs = regs; handler_same = refl; model_same = refl })
  accepted allocated d s old h alive regs (inr (first, alloc, fits, chars)) =
      let u =
        update_device-IsDeviceUpdated ops d (record s { handler = h }) old alive regs first fits
          chars in
      rw alloc (
        rw u.slave_is
          (record { mapping = u.mapping; regs = refl; handler_same = refl; model_same = refl }))
