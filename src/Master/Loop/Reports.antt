-- ===== src/Master/Loop/Reports.antt =====
-- Whatever the master reports was read from a framed telegram.
use smartmeter_gateway.Prelude.{
  ℕ, Bool, true, false, not, ◌&&◌, List, [], ◌∷◌, ◌≡◌, refl, ap, length, Option, none, some, Bytes,
  All, if_both, arith,
}
use smartmeter_gateway.Real.{RealOps}
use smartmeter_gateway.Config.{MeterMasterConfig}
use smartmeter_gateway.MeterTypes.{Device, Values}
use smartmeter_gateway.SignalHandler.{is_running}
use smartmeter_gateway.ModbusError.{Result}
use smartmeter_gateway.Master.Telegram.Frame.{
  IsFramed, read_telegram-IsFramed, read_telegram-blocked, read_on-IsFramed, read_on-blocked,
}
use smartmeter_gateway.Master.Readings.{values_of}
use smartmeter_gateway.Master.Identity.{device_of}
use smartmeter_gateway.Master.Port.{
  device_sent, values_sent, Meter, Attempt, handle_result, try_connect, is_connected, emit,
}
use smartmeter_gateway.Master.Loop.{
  start, System, Stage, loop_head, connecting, reading, parsing_device, sending_device,
  parsing_values, sending_values, in_read, ended, terminated, broken, Answer, Event, worked,
  signalled, shut_down, set_device_callback, set_update_callback, set_availability_callback, run,
  step, work_at, go_on, update_device_and_json, update_values_and_json, call_back, parse_device,
  parse_values, store_device, store_values,
}
use smartmeter_gateway.Master.Loop.Kept.{
  IsReported, Fits, Reports, Inv, IsOk, Fits-same, go_on-Inv, try_connect-Reports,
  after_attempt-Inv, AttemptReports, AttemptFits, AttemptFits-reading, after_read-Inv,
  call_back-Reports,
}

module _ (ops : RealOps) (cfg : MeterMasterConfig ops.Real)
    (project_version commit_hash : Bytes) where
  -- A call of an update: what it keeps, and what holds where it succeeds.
  abbrev IsStored : Stage → Result (Unit {0}) × Meter ops.Real → Type 0
  IsStored next (res, m) =
      Reports ops cfg project_version commit_hash m
      × (IsOk ops cfg project_version commit_hash res
          → Fits ops cfg project_version commit_hash next m)

  go_on-IsStored :
      (next : Stage) (p : Result (Unit {0}) × Meter ops.Real)
      → IsStored next p
      → Inv ops cfg project_version commit_hash (go_on next (handle_result p.0 p.1))
  go_on-IsStored next (res, m) h = go_on-Inv ops cfg project_version commit_hash next res m h.0 h.1

  -- The same of a call that an exception may leave.
  abbrev IsAttempted : Stage → Attempt ops.Real → Type 0
  IsAttempted next a =
      AttemptReports ops cfg project_version commit_hash a
      × AttemptFits ops cfg project_version commit_hash next a

  store_device-IsAttempted :
      (dumped : Bool) (o : Option Device) (m : Meter ops.Real)
      → device_of project_version commit_hash m.telegram ≡ o
      → IsFramed m.telegram
      → Reports ops cfg project_version commit_hash m
      → IsAttempted sending_device (store_device ops cfg project_version commit_hash dumped o m)
  unfolding store_device
  store_device-IsAttempted dumped none m e f r = (r, λ k. elim k [ ])
  store_device-IsAttempted true (some d) m e f r = (r, λ _. (f, (m.telegram, f, e, λ q. cc)))
  store_device-IsAttempted false (some d) m e f r = (r, tt)

  store_values-IsStored :
      (o : Option (Values ops.Real)) (g : ops.Real) (now : ℕ) (m : Meter ops.Real)
      → values_of ops cfg.grid g now m.telegram ≡ o
      → IsFramed m.telegram
      → Reports ops cfg project_version commit_hash m
      → IsStored sending_values (store_values ops cfg project_version commit_hash o m)
  unfolding store_values
  store_values-IsStored none g now m e f r = (r, λ k. elim k [ ])
  store_values-IsStored (some v) g now m e f r = (r, λ _. (m.telegram, g, now, f, e, λ q. cc))

  parse_device-IsAttempted :
      (dumped : Bool) (t : Bytes) (m : Meter ops.Real)
      → t ≡ m.telegram
      → IsFramed m.telegram
      → Reports ops cfg project_version commit_hash m
      → IsAttempted sending_device (parse_device ops cfg project_version commit_hash dumped t m)
  unfolding parse_device
  parse_device-IsAttempted dumped [] m e f r = absurd (omega (arith, ap length e, f.long))
  parse_device-IsAttempted dumped (c ∷ s) m e f r = rw e (
      store_device-IsAttempted dumped (device_of project_version commit_hash m.telegram) m refl f r)

  parse_values-IsStored :
      (g : ops.Real) (now : ℕ) (t : Bytes) (m : Meter ops.Real)
      → t ≡ m.telegram
      → IsFramed m.telegram
      → Reports ops cfg project_version commit_hash m
      → IsStored sending_values (parse_values ops cfg project_version commit_hash g now t m)
  unfolding parse_values
  parse_values-IsStored g now [] m e f r = absurd (omega (arith, ap length e, f.long))
  parse_values-IsStored g now (c ∷ s) m e f r =
      rw e (store_values-IsStored (values_of ops cfg.grid g now m.telegram) g now m refl f r)

  work_at-Inv :
      (st : Stage) (a : Answer ops.Real) (m : Meter ops.Real)
      → Fits ops cfg project_version commit_hash st m
      → Reports ops cfg project_version commit_hash m
      → Inv ops cfg project_version commit_hash (work_at ops cfg project_version commit_hash st a m)
  unfolding work_at call_back update_device_and_json update_values_and_json
  work_at-Inv loop_head a m f r =
      if_both (Inv ops cfg project_version commit_hash) (is_running m.handler) _ _ (tt, r) (tt, r)
  work_at-Inv connecting a m f r =
      after_attempt-Inv ops cfg project_version commit_hash reading
        (try_connect cfg.rtu a.open_result m) m r
        (try_connect-Reports ops cfg project_version commit_hash cfg.rtu a.open_result m r)
        (AttemptFits-reading ops cfg project_version commit_hash _)
  work_at-Inv reading a m f r =
      after_read-Inv ops cfg project_version commit_hash _ m r
        (read_telegram-IsFramed (is_running m.handler) (is_connected m.serial_port) a.polls)
        (read_telegram-blocked (is_running m.handler) (is_connected m.serial_port) a.polls)
  work_at-Inv (in_read k) a m f r =
      after_read-Inv ops cfg project_version commit_hash _ m r
        (λ t. read_on-IsFramed (is_running m.handler) k a.polls t f)
        (λ k'. read_on-blocked (is_running m.handler) k k' a.polls f)
  work_at-Inv parsing_device a m f r =
      let kept =
        if_both (IsAttempted sending_device) (not (is_running m.handler)) _ _ (r, λ k. elim k [ ])
          (parse_device-IsAttempted a.json_dumped m.telegram m refl f r) in
      after_attempt-Inv ops cfg project_version commit_hash sending_device _ m r kept.0 kept.1
  work_at-Inv sending_device a m f r = (
    if_both (λ (x : Meter ops.Real). IsFramed x.telegram)
        (is_running m.handler && m.device_callback) (emit (device_sent m.device) m) m f.0 f.0,
    call_back-Reports ops cfg project_version commit_hash m.device_callback (device_sent m.device) m
        r f.1,
  )
  work_at-Inv parsing_values a m f r = go_on-IsStored sending_values _ (
      if_both (IsStored sending_values) (not (is_running m.handler)) _ _ (r, λ k. elim k [ ])
        (parse_values-IsStored a.indeterminate a.now m.telegram m refl f r))
  work_at-Inv sending_values a m f r = (
    tt,
    call_back-Reports ops cfg project_version commit_hash m.update_callback (values_sent m.values) m
        r f,
  )
  work_at-Inv ended a m f r = (tt, r)
  work_at-Inv terminated a m f r = (tt, r)
  work_at-Inv broken a m f r = (tt, r)

  pub step-Inv :
      (s : System ops.Real) (e : Event ops.Real)
      → Inv ops cfg project_version commit_hash s
      → Inv ops cfg project_version commit_hash (step ops cfg project_version commit_hash s e)
  unfolding step
  step-Inv s (worked a) h = work_at-Inv s.stage a s.meter h.0 h.1
  step-Inv s (signalled sig) h =
      (Fits-same ops cfg project_version commit_hash s.stage s.meter _ refl refl refl h.0, h.1)
  step-Inv s shut_down h =
      (Fits-same ops cfg project_version commit_hash s.stage s.meter _ refl refl refl h.0, h.1)
  step-Inv s set_device_callback h =
      (Fits-same ops cfg project_version commit_hash s.stage s.meter _ refl refl refl h.0, h.1)
  step-Inv s set_update_callback h =
      (Fits-same ops cfg project_version commit_hash s.stage s.meter _ refl refl refl h.0, h.1)
  step-Inv s set_availability_callback h =
      (Fits-same ops cfg project_version commit_hash s.stage s.meter _ refl refl refl h.0, h.1)

  run-Inv :
      (s : System ops.Real) (es : List (Event ops.Real))
      → Inv ops cfg project_version commit_hash s
      → Inv ops cfg project_version commit_hash (run ops cfg project_version commit_hash s es)
  unfolding run
  run-Inv s [] h = h
  run-Inv s (e ∷ es) h = run-Inv (step ops cfg project_version commit_hash s e) es (step-Inv s e h)

  -- In every run of the master, all device data and all values that it hands to the callbacks were
  -- read from a framed telegram.
  pub run-IsReported :
      (es : List (Event ops.Real))
      → All
          (IsReported ops cfg project_version commit_hash)
          (run ops cfg project_version commit_hash start es).meter.effects
  run-IsReported es = (run-Inv start es (tt, tt)).1
