-- ===== src/Master/Port/Descriptor.antt =====
-- The descriptor of the serial port: what opening and giving it back does, on success and on error.
use smartmeter_gateway.Prelude.{
  ℕ, Bool, true, false, ◌&&◌, List, [], ◌∷◌, ◌++◌, ◌≡◌, ◌∙◌, refl, none, some, Bool-cases, inl, inr,
  if◌then◌else◌, if_both, ap, ◌⊎◌,
}
use smartmeter_gateway.Config.{ModbusRtuConfig}
use smartmeter_gateway.SignalHandler.{is_running}
use smartmeter_gateway.ModbusError.{
  Errno, Result, ok, err, Severity, fatal, transient, from_errno, ModbusError,
}
use smartmeter_gateway.ModbusError
use smartmeter_gateway.Master.Port.{
  Effect, notify, opened, closed, availability, Meter, is_speed, is_data_bits, Setup, fails_early,
  fails_late, succeeds, descriptor, Attempt, returned, try_connect, connect_port, open_configured,
  open_port, set_up, disconnect, close_port, handle_result, handle_error, emit,
}

module _ {R : Type 0} where
  -- What the callback hears, if it is set.
  abbrev pub told : Bool → Bool → List (Effect R)
  told is_set b = if is_set then availability b ∷ [] else []

  -- A descriptor that is already closed, but still in `serialPort_`.
  abbrev stale : ℕ → Meter R → Meter R
  stale fd m = emit (closed fd) (record (emit (opened fd) m) { serial_port = some fd })

  close_port-some :
      (fd : ℕ) (m : Meter R)
      → (close_port (some fd) m).effects
        ≡ told m.availability_callback false ++ closed fd ∷ m.effects
  unfolding close_port
  close_port-some fd m = elim (Bool-cases m.availability_callback) [ inl h ↦ rw h | inr h ↦ rw h ]

  disconnect-close_port :
      (fd : ℕ) (m : Meter R) → disconnect (close_port (some fd) m) ≡ close_port (some fd) m
  unfolding disconnect close_port
  disconnect-close_port fd m =
      if_both (λ (x : Meter R). close_port x.serial_port x ≡ x) m.availability_callback _ _ refl
        refl

  handled :
      (fd : ℕ) (sev : Severity) (m : Meter R)
      → (disconnect (handle_error sev (stale fd m)).1).effects
        ≡ told m.availability_callback false ++ closed fd ∷ closed fd ∷ opened fd ∷ m.effects
  unfolding disconnect handle_error
  handled fd fatal m = close_port-some fd _
  handled fd transient m =
      ap (λ (x : Meter R). x.effects) (disconnect-close_port fd (stale fd m))
      ∙ close_port-some fd (stale fd m)
  handled fd ModbusError.shutdown m = close_port-some fd _

  announced :
      (fd : ℕ) (m : Meter R)
      → ((disconnect (notify true (record (emit (opened fd) m) { serial_port = some fd }))).effects
          ≡ told m.availability_callback false
            ++ closed fd ∷ (told m.availability_callback true ++ opened fd ∷ m.effects))
        × ((disconnect
              (notify true (record (emit (opened fd) m) { serial_port = some fd }))).serial_port
            ≡ none)
  unfolding disconnect close_port
  announced fd m = elim (Bool-cases m.availability_callback) [
    | inl h ↦ rw h (refl, refl)
    | inr h ↦ rw h (refl, refl)
  ]

  -- What the settings of a new port return.
  abbrev Cases : ℕ → Meter R → Attempt R → Type 0
  Cases fd m a =
      (res : Result (Unit {0})) (m' : Meter R)
      → a ≡ returned res m'
      → ((e : ModbusError) × (res ≡ err e) × (m' ≡ emit (closed fd) m))
        ⊎ ((res ≡ ok tt) × (m' ≡ notify true m))

  set_up-Cases :
      (rtu : ModbusRtuConfig) (fd : ℕ) (setup : Setup) (m : Meter R)
      → Cases fd m (set_up rtu fd setup m)
  unfolding set_up
  set_up-Cases rtu fd (fails_early errno) m = λ res m' h. inl (from_errno errno, cc, cc)
  set_up-Cases rtu fd (fails_late errno) m =
      if_both (Cases fd m) (is_speed rtu.baud && is_data_bits rtu.data_bits) _ _
        (λ res m' h. inl (from_errno errno, cc, cc)) (λ res m' h. absurd cc)
  set_up-Cases rtu fd succeeds m =
      if_both (Cases fd m) (is_speed rtu.baud && is_data_bits rtu.data_bits) _ _
        (λ res m' h. inr (cc, cc)) (λ res m' h. absurd cc)

  abbrev fresh : ℕ → Meter R → Meter R
  fresh fd m = record (emit (opened fd) m) { serial_port = some fd }

  try_connect-Cases :
      (rtu : ModbusRtuConfig) (fd : ℕ) (setup : Setup) (m : Meter R)
      → is_running m.handler ≡ true
      → m.serial_port ≡ none
      → Cases fd (fresh fd m) (try_connect (some rtu) (descriptor fd setup) m)
  unfolding try_connect connect_port open_configured open_port
  try_connect-Cases rtu fd setup m h n = rw (h, n) (set_up-Cases rtu fd setup (fresh fd m))

  -- While the program runs and no port is open, a connection attempt that fails behind `open` closes
  -- its descriptor, and the handling of the error with one `disconnect` behind it, as in the
  -- destructor, closes it exactly once more and reports a disconnection if the callback is set.
  pub closed_twice :
      (rtu : ModbusRtuConfig) (fd : ℕ) (setup : Setup) (m m' : Meter R) (e : ModbusError)
      → is_running m.handler ≡ true
      → m.serial_port ≡ none
      → try_connect (some rtu) (descriptor fd setup) m ≡ returned (err e) m'
      → (disconnect (handle_result (err e) m').1).effects
        ≡ told m.availability_callback false ++ closed fd ∷ closed fd ∷ opened fd ∷ m.effects
  unfolding handle_result
  closed_twice rtu fd setup m m' e h n q =
      elim (try_connect-Cases rtu fd setup m h n (err e) m' q) [
        | inl (e', same, at_end) ↦ rw at_end (handled fd e.severity m)
        | inr (wrong, _) ↦ absurd cc
      ]

  -- While the program runs and no port is open, a connection attempt that succeeds announces the
  -- connection, and the next `disconnect` closes its descriptor once, resets the field and
  -- announces that; both announcements only if the callback is set.
  pub disconnect-try_connect :
      (rtu : ModbusRtuConfig) (fd : ℕ) (setup : Setup) (m m' : Meter R)
      → is_running m.handler ≡ true
      → m.serial_port ≡ none
      → try_connect (some rtu) (descriptor fd setup) m ≡ returned (ok tt) m'
      → ((disconnect m').effects
          ≡ told m.availability_callback false
            ++ closed fd ∷ (told m.availability_callback true ++ opened fd ∷ m.effects))
        × ((disconnect m').serial_port ≡ none)
  disconnect-try_connect rtu fd setup m m' h n q =
      elim (try_connect-Cases rtu fd setup m h n (ok tt) m' q) [
        | inl (e', wrong, _) ↦ absurd cc
        | inr (_, made) ↦ rw made (announced fd m)
      ]
