-- ===== src/Master/Loop/Flag.antt =====
-- What the master does to the shutdown flag.
use smartmeter_gateway.Prelude.{
  ℕ, inl, inr, Bool, true, false, not, ◌&&◌, [], ◌∷◌, ◌≡◌, refl, sym, subst, none, some, Bytes,
  Option, if_both,
}
use smartmeter_gateway.Real.{RealOps}
use smartmeter_gateway.Config.{MeterMasterConfig, ModbusRtuConfig}
use smartmeter_gateway.MeterTypes.{Values, Device}
use smartmeter_gateway.ModbusError.{
  Result, ok, err, Severity, fatal, transient, ErrorAction, none_action, reconnect, stop,
}
use smartmeter_gateway.ModbusError
use smartmeter_gateway.SignalHandler.{SignalHandler, is_running, shutdown, on_signal}
use smartmeter_gateway.SignalHandler.Stopping.{MayStop, MayStop-down}
use smartmeter_gateway.Master.Telegram.{Outcome, finished, blocked}
use smartmeter_gateway.Master.Readings.{values_of}
use smartmeter_gateway.Master.Identity.{device_of}
use smartmeter_gateway.Master.Port.{
  Effect, opened, Meter, Setup, fails_early, fails_late, succeeds, OpenResult, open_failed,
  descriptor, is_speed, is_data_bits, Attempt, returned, thrown, undefined, emit, close_port,
  disconnect, handle_error, handle_result, set_up, open_port, open_configured, connect_port,
  try_connect, device_sent, values_sent,
}
use smartmeter_gateway.Master.Loop.{
  Stage, loop_head, connecting, reading, parsing_device, sending_device, parsing_values,
  sending_values, in_read, ended, terminated, broken, Answer, Event, worked, signalled, shut_down,
  set_device_callback, set_update_callback, set_availability_callback, System, step, work_at, go_on,
  after_read, after_attempt, store_device, parse_device, update_device_and_json, store_values,
  parse_values, update_values_and_json, call_back,
}

module _ {R : Type 0} where
  -- The flag of an object is that of another, or has been shut down.
  abbrev Stops : SignalHandler → Meter R → Type 0
  Stops h m = MayStop h m.handler

  close_port-handler : (p : Option ℕ) (m : Meter R) → (close_port p m).handler ≡ m.handler
  unfolding close_port
  close_port-handler none m = refl
  close_port-handler (some fd) m =
      if_both (λ (x : Meter R). x.handler ≡ m.handler) m.availability_callback _ _ refl refl

  handle_error-Stops : (sev : Severity) (m : Meter R) → Stops m.handler (handle_error sev m).1
  unfolding handle_error disconnect
  handle_error-Stops fatal m = inr refl
  handle_error-Stops transient m = inl (close_port-handler m.serial_port m)
  handle_error-Stops ModbusError.shutdown m = inl refl

  handle_result-Stops :
      (r : Result (Unit {0})) (m : Meter R) → Stops m.handler (handle_result r m).1
  unfolding handle_result
  handle_result-Stops (ok _) m = inl refl
  handle_result-Stops (err e) m = handle_error-Stops e.severity m

  go_on-meter : (next : Stage) (x : ErrorAction × Meter R) → (go_on next x).meter ≡ x.1
  unfolding go_on
  go_on-meter next (none_action, m) = refl
  go_on-meter next (reconnect, m) = refl
  go_on-meter next (stop, m) = refl

  -- A stage that ends in `handleResult`.
  go_on-Stops :
      (next : Stage) (r : Result (Unit {0})) (m : Meter R)
      → Stops m.handler (go_on next (handle_result r m)).meter
  go_on-Stops next r m =
      subst (Stops m.handler) (sym (go_on-meter next (handle_result r m))) (handle_result-Stops r m)

  -- An attempt to connect leaves the flag alone.
  abbrev Keeps : SignalHandler → Attempt R → Type 0
  Keeps h (returned r m) = m.handler ≡ h
  Keeps h (thrown m) = m.handler ≡ h
  Keeps h undefined = Unit

  set_up-Keeps :
      (rtu : ModbusRtuConfig) (fd : ℕ) (setup : Setup) (m : Meter R)
      → Keeps m.handler (set_up rtu fd setup m)
  unfolding set_up
  set_up-Keeps rtu fd (fails_early errno) m = refl
  set_up-Keeps rtu fd (fails_late errno) m =
      if_both (Keeps m.handler) (is_speed rtu.baud && is_data_bits rtu.data_bits) _ _ refl refl
  set_up-Keeps rtu fd succeeds m =
      if_both (Keeps m.handler) (is_speed rtu.baud && is_data_bits rtu.data_bits) _ _
        (if_both (λ (x : Meter R). x.handler ≡ m.handler) m.availability_callback _ _ refl refl)
        refl

  connect_port-Keeps :
      (port : Option ℕ) (rtu : Option ModbusRtuConfig) (answer : OpenResult) (m : Meter R)
      → Keeps m.handler (connect_port port rtu answer m)
  unfolding connect_port open_configured open_port
  connect_port-Keeps (some fd) rtu answer m = refl
  connect_port-Keeps none none answer m = tt
  connect_port-Keeps none (some rtu) (open_failed errno) m = refl
  connect_port-Keeps none (some rtu) (descriptor fd setup) m =
      set_up-Keeps rtu fd setup (record (emit (opened fd) m) { serial_port = some fd })

  after_attempt-Stops :
      (next : Stage) (x : Attempt R) (m : Meter R)
      → Keeps m.handler x
      → Stops m.handler (after_attempt next x m).meter
  unfolding after_attempt
  after_attempt-Stops next (returned r m') m k =
      subst (λ h. Stops h (go_on next (handle_result r m')).meter) k (go_on-Stops next r m')
  after_attempt-Stops next (thrown m') m k = inl k
  after_attempt-Stops next undefined m k = inl refl

  after_read-Stops : (o : Outcome Bytes) (m : Meter R) → Stops m.handler (after_read o m).meter
  unfolding after_read
  after_read-Stops (blocked k) m = inl refl
  after_read-Stops (finished (ok t)) m =
      go_on-Stops parsing_device (ok tt) (record m { telegram = t })
  after_read-Stops (finished (err e)) m = go_on-Stops parsing_device (err e) m

module _ (ops : RealOps) (cfg : MeterMasterConfig ops.Real)
    (project_version commit_hash : Bytes) where
  -- A parser only stores what it has read.
  abbrev Same : Meter ops.Real → Result (Unit {0}) × Meter ops.Real → Type 0
  Same m x = x.1.handler ≡ m.handler

  store_device-Keeps :
      (dumped : Bool) (o : Option Device) (m : Meter ops.Real)
      → Keeps m.handler (store_device ops cfg project_version commit_hash dumped o m)
  unfolding store_device
  store_device-Keeps dumped none m = refl
  store_device-Keeps true (some d) m = refl
  store_device-Keeps false (some d) m = refl

  parse_device-Keeps :
      (dumped : Bool) (t : Bytes) (m : Meter ops.Real)
      → Keeps m.handler (parse_device ops cfg project_version commit_hash dumped t m)
  unfolding parse_device
  parse_device-Keeps dumped [] m = refl
  parse_device-Keeps dumped (c ∷ s) m =
      store_device-Keeps dumped (device_of project_version commit_hash (c ∷ s)) m

  store_values-Same :
      (o : Option (Values ops.Real)) (m : Meter ops.Real)
      → Same m (store_values ops cfg project_version commit_hash o m)
  unfolding store_values
  store_values-Same none m = refl
  store_values-Same (some v) m = refl

  parse_values-Same :
      (g : ops.Real) (now : ℕ) (t : Bytes) (m : Meter ops.Real)
      → Same m (parse_values ops cfg project_version commit_hash g now t m)
  unfolding parse_values
  parse_values-Same g now [] m = refl
  parse_values-Same g now (c ∷ s) m = store_values-Same (values_of ops cfg.grid g now (c ∷ s)) m

  -- A stage that calls a parser.
  parsed-Stops :
      (next : Stage) (m : Meter ops.Real) (x : Result (Unit {0}) × Meter ops.Real)
      → Same m x
      → Stops m.handler (go_on next (handle_result x.0 x.1)).meter
  parsed-Stops next m (r, m') same =
      subst (λ h. Stops h (go_on next (handle_result r m')).meter) same (go_on-Stops next r m')

  call_back-Same :
      (b : Bool) (e : Effect ops.Real) (m : Meter ops.Real) → (call_back b e m).handler ≡ m.handler
  unfolding call_back
  call_back-Same b e m =
      if_both (λ (x : Meter ops.Real). x.handler ≡ m.handler) (is_running m.handler && b) _ _ refl
        refl

  pub work_at-Stops :
      (st : Stage) (a : Answer ops.Real) (m : Meter ops.Real)
      → Stops m.handler (work_at ops cfg project_version commit_hash st a m).meter
  unfolding work_at try_connect update_device_and_json update_values_and_json
  work_at-Stops loop_head a m =
      if_both (λ (x : System ops.Real). Stops m.handler x.meter) (is_running m.handler) _ _
        (inl refl) (inl refl)
  work_at-Stops connecting a m = after_attempt-Stops reading _ m (
      if_both (Keeps m.handler) (not (is_running m.handler)) _ _ refl
        (connect_port-Keeps m.serial_port cfg.rtu a.open_result m))
  work_at-Stops reading a m = after_read-Stops _ m
  work_at-Stops (in_read k) a m = after_read-Stops _ m
  work_at-Stops parsing_device a m = after_attempt-Stops sending_device _ m (
      if_both (Keeps m.handler) (not (is_running m.handler)) _ _ refl
        (parse_device-Keeps a.json_dumped m.telegram m))
  work_at-Stops sending_device a m = inl (call_back-Same m.device_callback (device_sent m.device) m)
  work_at-Stops parsing_values a m = parsed-Stops sending_values m _ (
      if_both (Same m) (not (is_running m.handler)) _ _ refl
        (parse_values-Same a.indeterminate a.now m.telegram m))
  work_at-Stops sending_values a m = inl (call_back-Same m.update_callback (values_sent m.values) m)
  work_at-Stops ended a m = inl refl
  work_at-Stops terminated a m = inl refl
  work_at-Stops broken a m = inl refl

  on_signal-down :
      (sig : ℕ) (h : SignalHandler) → is_running h ≡ false → is_running (on_signal sig h) ≡ false
  unfolding is_running on_signal shutdown
  on_signal-down sig h e = if_both (λ x. is_running x ≡ false) h.running _ _ refl e

  -- No step raises the flag again.
  pub step-down :
      (s : System ops.Real) (e : Event ops.Real)
      → is_running s.meter.handler ≡ false
      → is_running (step ops cfg project_version commit_hash s e).meter.handler ≡ false
  unfolding step
  step-down s (worked a) h = MayStop-down s.meter.handler _ (work_at-Stops s.stage a s.meter) h
  step-down s (signalled sig) h = on_signal-down sig s.meter.handler h
  step-down s shut_down h = MayStop-down s.meter.handler _ (inr refl) h
  step-down s set_device_callback h = h
  step-down s set_update_callback h = h
  step-down s set_availability_callback h = h
