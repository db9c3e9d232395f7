-- ===== src/Master/Loop/Shutdown.antt =====
-- The worker thread stops soon after a shutdown, whatever the system answers.
use smartmeter_gateway.Prelude.{
  false, Bytes, List, [], ◌∷◌, ◌≡◌, ◌≢◌, refl, sym, Bool-cases, inl, inr,
}
use smartmeter_gateway.Real.{RealOps}
use smartmeter_gateway.Config.{MeterMasterConfig}
use smartmeter_gateway.SignalHandler.{is_running}
use smartmeter_gateway.ModbusError.{
  Result, ok, err, Severity, fatal, transient, custom, from_errno, eintr, etimedout,
  deduce_severity,
}
use smartmeter_gateway.ModbusError
use smartmeter_gateway.Master.Telegram.{
  Reader, Poll, ReadResult, chunk, failed, finished, read_telegram, read_on, read_loop, is_done,
  check_packet, take_bytes,
}
use smartmeter_gateway.Master.Loop.Flag.{work_at-Stops}
use smartmeter_gateway.SignalHandler.Stopping.{MayStop-down}
use smartmeter_gateway.Master.Port.{Meter, handle_result, handle_error, try_connect}
use smartmeter_gateway.Master.Loop.{
  Stage, loop_head, connecting, reading, parsing_device, sending_device, parsing_values,
  sending_values, in_read, ended, terminated, broken, Answer, worked, run, step, work_at, go_on,
  after_read, after_attempt, update_device_and_json, update_values_and_json, call_back,
}

-- The thread is not in a read that blocks, or the read returns.
abbrev pub Returns : {R : Type 0} → Stage → Answer R → Type 0
Returns (in_read r) a = a.polls ≢ []
Returns st a = Unit

-- Where a thread that is at a stage stops: at its end, if an exception or undefined behaviour has
-- not ended it before.
abbrev pub final : Stage → Stage
final terminated = terminated
final broken = broken
final _ = ended

module _ (ops : RealOps) (cfg : MeterMasterConfig ops.Real)
    (project_version commit_hash : Bytes) where
  -- Where a read that has returned leaves the thread.
  abbrev IsNear : Stage → Type 0
  IsNear loop_head = Unit
  IsNear parsing_device = Unit
  IsNear ended = Unit
  IsNear _ = ⊥

  near-ends :
      (st : Stage) (m : Meter ops.Real) (b : Answer ops.Real)
      → is_running m.handler ≡ false
      → IsNear st
      → (work_at ops cfg project_version commit_hash st b m).stage ≡ ended
  unfolding work_at go_on handle_result handle_error after_attempt update_device_and_json custom
      deduce_severity
  near-ends loop_head m b h n = rw h
  near-ends parsing_device m b h n = rw h
  near-ends ended m b h n = refl
  near-ends connecting m b h n = absurd n
  near-ends reading m b h n = absurd n
  near-ends (in_read r) m b h n = absurd n
  near-ends sending_device m b h n = absurd n
  near-ends parsing_values m b h n = absurd n
  near-ends sending_values m b h n = absurd n
  near-ends terminated m b h n = absurd n
  near-ends broken m b h n = absurd n

  go_on-IsNear :
      (sev : Severity) (m : Meter ops.Real)
      → IsNear (go_on parsing_device (handle_error sev m)).stage
  unfolding go_on handle_error
  go_on-IsNear fatal m = tt
  go_on-IsNear transient m = tt
  go_on-IsNear ModbusError.shutdown m = tt

  after_read-IsNear :
      (r : Result Bytes) (m : Meter ops.Real) → IsNear (after_read (finished r) m).stage
  unfolding after_read go_on handle_result
  after_read-IsNear (ok t) m = tt
  after_read-IsNear (err e) m = go_on-IsNear e.severity m

  read_loop-down :
      (r : Reader) (x : ReadResult)
      → (o : Result Bytes) × (read_loop r (record { running = false; result = x } ∷ [])
          ≡ finished o)
  unfolding read_loop
  read_loop-down r x = elim (Bool-cases (is_done r)) [
    | inl d ↦ (check_packet r, rw d)
    | inr d ↦ (err (custom eintr), rw d)
  ]

  read_on-finished :
      (r : Reader) (e : Poll) (es : List Poll) (x : ReadResult)
      → e.result ≡ x
      → (o : Result Bytes) × (read_on false r (e ∷ es) ≡ finished o)
  unfolding read_on read_loop
  read_on-finished r e es x q = elim (Bool-cases (is_done r)) [
    | inl d ↦ (check_packet r, rw d)
    | inr d ↦ behind x q d
  ]
    where
      behind :
          (y : ReadResult)
          → e.result ≡ y
          → is_done r ≡ false
          → (o : Result Bytes) × (read_on false r (e ∷ es) ≡ finished o)
      behind (failed n) p d = (err (from_errno n), rw (d, p))
      behind (chunk []) p d = (err (custom etimedout), rw (d, p))
      behind (chunk (c ∷ cs)) p d =
          let (o, later) = read_loop-down (take_bytes r (c ∷ cs)) (chunk (c ∷ cs)) in
          (o, rw (d, p) later)

  in_read-IsNear :
      (r : Reader) (m : Meter ops.Real) (e : Poll) (es : List Poll) (a : Answer ops.Real)
      → e ∷ es ≡ a.polls
      → is_running m.handler ≡ false
      → IsNear (work_at ops cfg project_version commit_hash (in_read r) a m).stage
  unfolding work_at
  in_read-IsNear r m e es a s h =
      let (o, returned) = read_on-finished r e es e.result refl in
      rw (h, ← s, returned) (after_read-IsNear o m)

  in_read-ends :
      (r : Reader) (m : Meter ops.Real) (polls : List Poll) (a b : Answer ops.Real)
      → polls ≡ a.polls
      → is_running m.handler ≡ false
      → a.polls ≢ []
      → (run ops cfg project_version commit_hash
          (record { stage = in_read r; meter = m })
          (worked a ∷ worked b ∷ [])).stage
        ≡ ended
  unfolding run step
  in_read-ends r m [] a b s h k = absurd (k (sym s))
  in_read-ends r m (e ∷ es) a b s h k =
      let st = (work_at ops cfg project_version commit_hash (in_read r) a m).stage in
      let m' = (work_at ops cfg project_version commit_hash (in_read r) a m).meter in
      near-ends st m' b
        (MayStop-down m.handler _
          (work_at-Stops ops cfg project_version commit_hash (in_read r) a m) h)
        (in_read-IsNear r m e es a s h)

  -- Once the program is shutting down, two stretches of the worker thread of the master end it,
  -- wherever it is in its loop and whatever the system answers, if an exception or undefined
  -- behaviour has not ended it before, and if a read of the port that blocks returns in the first
  -- stretch.
  pub run-shutdown :
      (st : Stage) (m : Meter ops.Real) (a b : Answer ops.Real)
      → is_running m.handler ≡ false
      → Returns st a
      → (run ops cfg project_version commit_hash
          (record { stage = st; meter = m })
          (worked a ∷ worked b ∷ [])).stage
        ≡ final st
  unfolding run step work_at go_on handle_result handle_error after_read after_attempt try_connect
      read_telegram update_device_and_json update_values_and_json call_back custom deduce_severity
  run-shutdown loop_head m a b h k = rw h
  run-shutdown connecting m a b h k = rw h
  run-shutdown reading m a b h k = rw h
  run-shutdown (in_read r) m a b h k = in_read-ends r m a.polls a b refl h k
  run-shutdown parsing_device m a b h k = rw h
  run-shutdown sending_device m a b h k = rw (h, h)
  run-shutdown parsing_values m a b h k = rw h
  run-shutdown sending_values m a b h k = rw (h, h)
  run-shutdown ended m a b h k = refl
  run-shutdown terminated m a b h k = refl
  run-shutdown broken m a b h k = refl
