-- ===== src/Slave/Session/Release.antt =====
-- How `tcpClientWorker` uses and releases its libmodbus context and its socket.
use smartmeter_gateway.Prelude.{
  ℕ, ◌+◌, Bool, true, false, ◌&&◌, ◌==◌, List, [], ◌∷◌, ◌++◌, map, ◌≡◌, refl, ◌∙◌, Option, none,
  some, ◌>>=◌, if◌then◌else◌, arith,
}
use smartmeter_gateway.SignalHandler.{SignalHandler}
use smartmeter_gateway.Slave.Session.{
  Effect, replied_from, context_closed, context_freed, socket_closed, Answer, Served, Round,
  Context, no_context, ready, refused, release, finish, serve, tcp_client_worker,
}

-- A context that is allocated, and connected; how often the socket has been closed.
pub record Held : Type 0 where
  pub allocated : Bool
  pub connected : Bool
  pub closings : ℕ

-- The rules of libmodbus for one call; none breaks them. `closes` says whether `modbus_close` also
-- closes the socket that `modbus_set_socket` has set.
abbrev pub use_once : Bool → ℕ → Effect → Held → Option Held
use_once closes socket (replied_from a) c = if c.connected then some c else none
use_once closes socket context_closed c =
    if c.allocated && c.connected
    then some (record c { connected = false; closings = (if closes then 1 else 0) + c.closings })
    else none
use_once closes socket context_freed c =
    if c.allocated then some (record c { allocated = false; connected = false }) else none
use_once closes socket (socket_closed fd) c =
    some (record c { closings = (if fd == socket then 1 else 0) + c.closings })

abbrev pub use_all : Bool → ℕ → List Effect → Held → Option Held
use_all closes socket [] c = some c
use_all closes socket (e ∷ es) c = use_once closes socket e c >>= use_all closes socket es

abbrev pub acquired : Context → Held
acquired no_context = record { allocated = false; connected = false; closings = 0 }
acquired _ = record { allocated = true; connected = true; closings = 0 }

abbrev pub released : Bool → Context → Held
released closes no_context = record { allocated = false; connected = false; closings = 1 }
released closes _ = record {
  allocated = false;
  connected = false;
  closings = if closes then 2 else 1;
}

use_all-replies :
    (closes : Bool) (socket : ℕ) (done : List Answer) (es : List Effect)
    → use_all closes socket (map replied_from done ++ es) (acquired ready)
      ≡ use_all closes socket es (acquired ready)
use_all-replies closes socket [] es = refl
use_all-replies closes socket (a ∷ done) es = use_all-replies closes socket done es

use_all-release :
    (closes : Bool) (socket : ℕ)
    → use_all closes socket (release socket) (acquired ready) ≡ some (released closes ready)
use_all-release true socket = ground arith
use_all-release false socket = ground arith

use_all-finish :
    (closes : Bool) (socket : ℕ) (s : Served)
    → use_all closes socket (finish socket s).effects (acquired ready)
      ≡ some (if (finish socket s).ended then released closes ready else acquired ready)
unfolding finish
use_all-finish closes socket s =
    use_all-replies closes socket s.answers (if s.ended then release socket else [])
    ∙ ground (arith, use_all-release closes socket)

-- A TCP client worker replies only on a connected context. Once it has ended, a context it had got
-- has been closed and then freed, once each; as long as it has not ended, neither. It closes the
-- socket once itself, so the socket is closed twice if modbus_close closes it too.
pub use_all-tcp_client_worker :
    (closes : Bool) (idle socket : ℕ) (h : SignalHandler) (ctx : Context) (now : ℕ)
    (rs : List Round)
    → use_all closes socket (tcp_client_worker idle socket h ctx now rs).effects (acquired ctx)
      ≡ some (
          if (tcp_client_worker idle socket h ctx now rs).ended
          then released closes ctx
          else acquired ctx)
unfolding tcp_client_worker
use_all-tcp_client_worker closes idle socket h no_context now rs = ground arith
use_all-tcp_client_worker closes idle socket h (refused errno) now rs =
    use_all-release closes socket
use_all-tcp_client_worker closes idle socket h ready now rs =
    use_all-finish closes socket (serve idle now h rs)
