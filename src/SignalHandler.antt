-- ===== src/SignalHandler.antt =====
-- include/signal_handler.h: the shutdown flag that all parts share. The mutex and the condition
-- variable only delay `wait`, so a call is one atomic change of the two fields.
pub mod Stopping
use smartmeter_gateway.Prelude.{ℕ, Bool, true, false, if◌then◌else◌}

pub record SignalHandler : Type 0 where
  pub running : Bool
  pub signal : ℕ

unfoldable pub init : SignalHandler
init = record { running = true; signal = 0 }

unfoldable pub shutdown : SignalHandler → SignalHandler
shutdown h = record h { running = false }

-- The action installed for SIGINT and SIGTERM: only the first signal is recorded.
unfoldable pub on_signal : ℕ → SignalHandler → SignalHandler
unfolding shutdown
on_signal sig h = if h.running then shutdown (record h { signal = sig }) else h

unfoldable pub is_running : SignalHandler → Bool
is_running h = h.running
