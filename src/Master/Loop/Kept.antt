-- ===== src/Master/Loop/Kept.antt =====
-- The invariant of the worker thread, and what keeps it in a call that may fail.
use smartmeter_gateway.Prelude.{
  ℕ, Bool, true, not, ◌&&◌, ◌≡◌, ◌≢◌, refl, subst, Option, none, some, Bytes, All, if_both,
}
use smartmeter_gateway.Real.{RealOps}
use smartmeter_gateway.Config.{MeterMasterConfig, ModbusRtuConfig}
use smartmeter_gateway.MeterTypes.{Device, Values}
use smartmeter_gateway.SignalHandler.{is_running}
use smartmeter_gateway.ModbusError.{Result, ok, err, ModbusError, Severity, fatal, transient}
use smartmeter_gateway.ModbusError
use smartmeter_gateway.Master.Telegram.{Reader, Outcome, finished, blocked}
use smartmeter_gateway.Master.Telegram.Frame.{IsFramed}
use smartmeter_gateway.Master.Telegram.Stored
use smartmeter_gateway.Master.Readings.{values_of}
use smartmeter_gateway.Master.Identity.{device_of}
use smartmeter_gateway.Master.Port.{
  Effect, is_speed, is_data_bits, opened, availability, device_sent, values_sent, Meter,
  handle_result, handle_error, try_connect, Attempt, returned, thrown, undefined, disconnect,
  close_port, connect_port, open_configured, open_port, set_up, Setup, fails_early, fails_late,
  succeeds, OpenResult, open_failed, descriptor, emit,
}
use smartmeter_gateway.Master.Loop.{
  System, Stage, loop_head, connecting, reading, parsing_device, sending_device, parsing_values,
  sending_values, in_read, ended, terminated, broken, go_on, after_read, after_attempt, call_back,
}

module _ (ops : RealOps) (cfg : MeterMasterConfig ops.Real)
    (project_version commit_hash : Bytes) where
  -- The device data, or the values, of some framed telegram.
  abbrev pub IsDeviceRead : Option Device → Type 0
  IsDeviceRead o =
      (t : Bytes) × IsFramed t × (device_of project_version commit_hash t ≡ o) × (o ≢ none)

  abbrev pub AreValuesRead : Option (Values ops.Real) → Type 0
  AreValuesRead o =
      (t : Bytes) × (g : ops.Real) × (now : ℕ) × IsFramed t
      × (values_of ops cfg.grid g now t ≡ o)
      × (o ≢ none)

  abbrev pub IsReported : Effect ops.Real → Type 0
  IsReported (device_sent o) = IsDeviceRead o
  IsReported (values_sent o) = AreValuesRead o
  IsReported _ = Unit

  -- What holds of the fields where the thread is.
  abbrev pub Fits : Stage → Meter ops.Real → Type 0
  Fits parsing_device m = IsFramed m.telegram
  Fits sending_device m = IsFramed m.telegram × IsDeviceRead m.device
  Fits parsing_values m = IsFramed m.telegram
  Fits sending_values m = AreValuesRead m.values
  Fits (in_read r) m = Stored.Inv r
  Fits _ m = Unit

  abbrev pub Reports : Meter ops.Real → Type 0
  Reports m = All IsReported m.effects

  abbrev pub Inv : System ops.Real → Type 0
  Inv s = Fits s.stage s.meter × Reports s.meter

  -- It only reads the telegram, the device data and the values.
  pub Fits-same :
      (st : Stage) (m m' : Meter ops.Real)
      → m.telegram ≡ m'.telegram
      → m.device ≡ m'.device
      → m.values ≡ m'.values
      → Fits st m
      → Fits st m'
  Fits-same parsing_device m m' t d v f = subst IsFramed t f
  Fits-same sending_device m m' t d v f = (subst IsFramed t f.0, subst IsDeviceRead d f.1)
  Fits-same parsing_values m m' t d v f = subst IsFramed t f
  Fits-same sending_values m m' t d v f = subst AreValuesRead v f
  Fits-same loop_head m m' t d v f = tt
  Fits-same connecting m m' t d v f = tt
  Fits-same reading m m' t d v f = tt
  Fits-same (in_read r) m m' t d v f = f
  Fits-same ended m m' t d v f = tt
  Fits-same terminated m m' t d v f = tt
  Fits-same broken m m' t d v f = tt

  close_port-Reports : (p : Option ℕ) (m : Meter ops.Real) → Reports m → Reports (close_port p m)
  unfolding close_port
  close_port-Reports none m r = r
  close_port-Reports (some fd) m r =
      if_both Reports m.availability_callback _ _ (tt, (tt, r)) (tt, r)

  go_on-err :
      (next : Stage) (sev : Severity) (m : Meter ops.Real)
      → Reports m
      → Inv (go_on next (handle_error sev m))
  unfolding go_on handle_error disconnect
  go_on-err next fatal m r = (tt, r)
  go_on-err next transient m r = (tt, close_port-Reports m.serial_port m r)
  go_on-err next ModbusError.shutdown m r = (tt, r)

  abbrev pub IsOk : Result (Unit {0}) → Type 0
  IsOk (ok _) = Unit
  IsOk (err e) = ⊥

  pub go_on-Inv :
      (next : Stage) (res : Result (Unit {0})) (m : Meter ops.Real)
      → Reports m
      → (IsOk res → Fits next m)
      → Inv (go_on next (handle_result res m))
  unfolding handle_result go_on
  go_on-Inv next (ok _) m r f = (f tt, r)
  go_on-Inv next (err e) m r f = go_on-err next e.severity m r

  -- A call of `tryConnect` reports nothing but the availability.
  abbrev pub AttemptReports : Attempt ops.Real → Type 0
  AttemptReports (returned r m) = Reports m
  AttemptReports (thrown m) = Reports m
  AttemptReports undefined = Unit

  set_up-Reports :
      (rtu : ModbusRtuConfig) (fd : ℕ) (setup : Setup) (m : Meter ops.Real)
      → Reports m
      → AttemptReports (set_up rtu fd setup m)
  unfolding set_up
  set_up-Reports rtu fd (fails_early errno) m r = (tt, r)
  set_up-Reports rtu fd (fails_late errno) m r =
      if_both AttemptReports (is_speed rtu.baud && is_data_bits rtu.data_bits) _ _ (tt, r) r
  set_up-Reports rtu fd succeeds m r =
      if_both AttemptReports (is_speed rtu.baud && is_data_bits rtu.data_bits) _ _
        (if_both Reports m.availability_callback (emit (availability true) m) m (tt, r) r) r

  open_configured-Reports :
      (rtu : Option ModbusRtuConfig) (answer : OpenResult) (m : Meter ops.Real)
      → Reports m
      → AttemptReports (open_configured rtu answer m)
  unfolding open_configured open_port
  open_configured-Reports none answer m r = tt
  open_configured-Reports (some rtu) (open_failed errno) m r = r
  open_configured-Reports (some rtu) (descriptor fd setup) m r =
      set_up-Reports rtu fd setup (record (emit (opened fd) m) { serial_port = some fd }) (tt, r)

  connect_port-Reports :
      (p : Option ℕ) (rtu : Option ModbusRtuConfig) (answer : OpenResult) (m : Meter ops.Real)
      → Reports m
      → AttemptReports (connect_port p rtu answer m)
  unfolding connect_port
  connect_port-Reports (some fd) rtu answer m r = r
  connect_port-Reports none rtu answer m r = open_configured-Reports rtu answer m r

  pub try_connect-Reports :
      (rtu : Option ModbusRtuConfig) (answer : OpenResult) (m : Meter ops.Real)
      → Reports m
      → AttemptReports (try_connect rtu answer m)
  unfolding try_connect
  try_connect-Reports rtu answer m r =
      if_both AttemptReports (not (is_running m.handler)) _ _ r
        (connect_port-Reports m.serial_port rtu answer m r)

  -- What holds of the fields where the call succeeds.
  abbrev pub AttemptFits : Stage → Attempt ops.Real → Type 0
  AttemptFits next (returned res m) = IsOk res → Fits next m
  AttemptFits next _ = Unit

  pub AttemptFits-reading : (a : Attempt ops.Real) → AttemptFits reading a
  AttemptFits-reading (returned res m) = λ _. tt
  AttemptFits-reading (thrown m) = tt
  AttemptFits-reading undefined = tt

  pub after_attempt-Inv :
      (next : Stage) (a : Attempt ops.Real) (m : Meter ops.Real)
      → Reports m
      → AttemptReports a
      → AttemptFits next a
      → Inv (after_attempt next a m)
  unfolding after_attempt
  after_attempt-Inv next (returned res m') m r k f = go_on-Inv next res m' k f
  after_attempt-Inv next (thrown m') m r k f = (tt, k)
  after_attempt-Inv next undefined m r k f = (tt, r)

  pub after_read-Inv :
      (o : Outcome Bytes) (m : Meter ops.Real)
      → Reports m
      → ((t : Bytes) → o ≡ finished (ok t) → IsFramed t)
      → ((k : Reader) → o ≡ blocked k → Stored.Inv k)
      → Inv (after_read o m)
  unfolding after_read
  after_read-Inv (blocked k) m r f g = (g k refl, r)
  after_read-Inv (finished (ok t)) m r f g =
      go_on-Inv parsing_device (ok tt) (record m { telegram = t }) r (λ _. f t refl)
  after_read-Inv (finished (err e)) m r f g = go_on-Inv parsing_device (err e) m r (λ k. elim k [ ])

  pub call_back-Reports :
      (b : Bool) (e : Effect ops.Real) (m : Meter ops.Real)
      → Reports m
      → IsReported e
      → Reports (call_back b e m)
  unfolding call_back
  call_back-Reports b e m r k = if_both Reports (is_running m.handler && b) (emit e m) m (k, r) r
