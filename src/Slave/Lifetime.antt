-- ===== src/Slave/Lifetime.antt =====
-- `~MeterSlave` of src/meter_slave.cpp, behind the join of its thread, and the release of the
-- context that a serial listener holds.
use smartmeter_gateway.Prelude.{
  ℕ, Bool, true, false, List, [], ◌∷◌, ◌++◌, ◌≡◌, refl, Option, none, some, if◌then◌else◌,
}
use smartmeter_gateway.ModbusError.{Errno}
use smartmeter_gateway.SignalHandler.{SignalHandler}
use smartmeter_gateway.Slave.Listener.{Server}
use smartmeter_gateway.Slave.Session.{Effect, context_freed, socket_closed, Round, ready}
use smartmeter_gateway.Slave.Session.Release.{use_all, acquired}
use smartmeter_gateway.Slave.Serial.{rtu_client_handler}

abbrev close_server : Option ℕ → List Effect
close_server none = []
close_server (some fd) = socket_closed fd ∷ []

unfoldable pub destroy : Server → List Effect
destroy s = close_server s.server_socket ++ (if s.listen_ctx then context_freed ∷ [] else [])

-- The calls on the context of a serial listener, from the start of its thread to the destructor.
abbrev pub rtu_lifetime : ℕ → SignalHandler → Option Errno → ℕ → List Round → Server → List Effect
rtu_lifetime idle h set_slave now rs s = (rtu_client_handler idle h set_slave now rs).1 ++ destroy s

-- A serial listener that has a context and no server socket frees its context once if
-- modbus_set_slave succeeds. If that fails, the thread and then the destructor free it, against
-- the rules of libmodbus.
pub use_all-rtu_lifetime :
    (closes : Bool) (socket idle : ℕ) (h : SignalHandler) (now : ℕ) (rs : List Round) (s : Server)
    → s.listen_ctx ≡ true
    → s.server_socket ≡ none
    → (use_all closes socket (rtu_lifetime idle h none now rs s) (acquired ready)
        ≡ some (record { allocated = false; connected = false; closings = 0 }))
      × ((errno : Errno)
          → use_all closes socket (rtu_lifetime idle h (some errno) now rs s) (acquired ready)
            ≡ none)
unfolding rtu_client_handler destroy
use_all-rtu_lifetime closes socket idle h now rs s ctx sock = rw (ctx, sock) (refl, λ errno. refl)
