-- ===== src/Slave/DeviceTexts.antt =====
-- The strings of the common model that `updateDevice` writes.
use smartmeter_gateway.Prelude.{
  ℕ, ◌*◌, ◌≤◌, ◌<◌, ◌⊎◌, inl, inr, Bool, true, false, List, [], ◌∷◌, ◌≡◌, refl, ◌∙◌, arith,
  Bool-cases, Bytes, some, length, All,
}
use smartmeter_gateway.ModbusError.{Result, ok, err, custom}
use smartmeter_gateway.Real.{RealOps}
use smartmeter_gateway.MeterTypes.{Device}
use smartmeter_gateway.Register.{Register, string}
use smartmeter_gateway.SignalHandler.{SignalHandler, is_running}
use smartmeter_gateway.SignalHandler
use smartmeter_gateway.Register.Common
use smartmeter_gateway.Slave.Updates.{copy_registers_lem}
use smartmeter_gateway.Pack.{Mapping, pack_to_modbus, text}
use smartmeter_gateway.Slave.{
  Slave, Filling, filled, fill_texts, device_texts, modbus_registers, copy_registers, fresh,
  update_device,
}
use smartmeter_gateway.Slave.Texts.{
  Text, IsString, Fits, IsText, Reads, text_all, fill_texts-eq-text_all, text_all-Reads,
  text_all_out,
}

-- Some string does not fit its register.
abbrev pub SomeLong : List Text → Type 0
SomeLong [] = ⊥
SomeLong ((reg, s) ∷ ws) = (reg.nb * 2 < length s) ⊎ SomeLong ws

filled_stays_down :
    (r : Result Mapping) (f : Filling)
    → f.handler.running ≡ false
    → (filled r f).handler.running ≡ false
unfolding filled SignalHandler.shutdown
filled_stays_down (ok m) f h = h
filled_stays_down (err e) f h = ground arith

filled_long :
    (ops : RealOps) (r : Register) (s : Bytes) (f : Filling)
    → r.type ≡ string
    → r.nb * 2 < length s
    → (filled (pack_to_modbus ops (some f.mapping) r (text s)) f).handler.running ≡ false
unfolding filled pack_to_modbus SignalHandler.shutdown custom
filled_long ops r s f h long = rw h (ground arith)

fill_texts_stays_down :
    (ops : RealOps) (ws : List Text) (f : Filling)
    → f.handler.running ≡ false
    → (fill_texts ops ws f).handler.running ≡ false
unfolding fill_texts
fill_texts_stays_down ops [] f h = h
fill_texts_stays_down ops ((r, s) ∷ ws) f h =
    fill_texts_stays_down ops ws _ (filled_stays_down _ f h)

fill_texts_long :
    (ops : RealOps) (ws : List Text) (f : Filling)
    → All IsString ws
    → SomeLong ws
    → (fill_texts ops ws f).handler.running ≡ false
unfolding fill_texts
fill_texts_long ops [] f h l = elim l [ ]
fill_texts_long ops ((r, s) ∷ ws) f h (inl l) =
    fill_texts_stays_down ops ws _ (filled_long ops r s f h.0 l)
fill_texts_long ops ((r, s) ∷ ws) f h (inr l) = fill_texts_long ops ws _ h.1 l

-- What the slave's registers hold behind the first device update.
pub record IsDeviceUpdated (d : Device) (s : Slave) (old : Mapping) (s' : Slave) : Type 0 where
  pub mapping : Mapping
  pub slave_is : s' ≡ record s { regs = some mapping; device_updated = true }
  pub reads : All (Reads mapping) (device_texts d)
  pub rest_same :
      (a : ℕ)
      → a < modbus_registers
      → (a < Common.mn.addr) ⊎ (Common.da.addr ≤ a)
      → mapping a ≡ old a

module _ (ops : RealOps) where
  pub update_device-IsDeviceUpdated :
      (d : Device) (s : Slave) (old : Mapping)
      → is_running s.handler ≡ true
      → s.regs ≡ some old
      → s.device_updated ≡ false
      → All Fits (device_texts d)
      → All IsText (device_texts d)
      → IsDeviceUpdated d s old (update_device ops true d s)
  unfolding update_device
  update_device-IsDeviceUpdated d s old h e n fits chars =
      let m = copy_registers modbus_registers old fresh in
      rw (h, n)
        (rw e (
          rw
            (fill_texts-eq-text_all ops (device_texts d)
              (record { mapping = m; handler = s.handler }) (ground arith) fits)
            (record {
              mapping = text_all m (device_texts d);
              slave_is = refl;
              reads = text_all-Reads (device_texts d) m fits chars refl;
              rest_same = λ a b c.
                  text_all_out (device_texts d) m Common.mn.addr Common.da.addr a fits refl c
                  ∙ copy_registers_lem modbus_registers old fresh a b;
            })))

  -- A first device update with a string that is longer than its register shuts the gateway down.
  pub update_device_long :
      (d : Device) (s : Slave) (old : Mapping)
      → s.regs ≡ some old
      → s.device_updated ≡ false
      → SomeLong (device_texts d)
      → is_running (update_device ops true d s).handler ≡ false
  unfolding update_device is_running
  update_device_long d s old e n long = elim (Bool-cases s.handler.running) [
    | inl h ↦ rw (h, n) (rw e (fill_texts_long ops (device_texts d) _ (ground arith) long))
    | inr h ↦ rw h
  ]

  pub update_device_of_updated :
      (allocated : Bool) (d : Device) (s : Slave)
      → s.device_updated ≡ true
      → update_device ops allocated d s ≡ s
  unfolding update_device
  update_device_of_updated allocated d s u = ground arith

  update_device_updates :
      (d : Device) (s : Slave) (old : Mapping)
      → is_running s.handler ≡ true
      → s.regs ≡ some old
      → (update_device ops true d s).device_updated ≡ true
  unfolding update_device
  update_device_updates d s old h e = ground arith

  -- The device data is written once: behind an update that finds a mapping and can allocate one, no
  -- later update changes the slave, whatever it brings.
  pub update_device-update_device :
      (allocated : Bool) (d e : Device) (s : Slave) (old : Mapping)
      → is_running s.handler ≡ true
      → s.regs ≡ some old
      → update_device ops allocated e (update_device ops true d s) ≡ update_device ops true d s
  update_device-update_device allocated d e s old h r =
      update_device_of_updated allocated e _ (update_device_updates d s old h r)
