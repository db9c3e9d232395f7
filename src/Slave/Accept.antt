-- ===== src/Slave/Accept.antt =====
-- `MeterSlave::tcpClientHandler` of src/meter_slave.cpp. Each round of the loop is
-- an argument: what `isRunning()`, `poll` and `accept` answer.
pub mod Joined
use smartmeter_gateway.Prelude.{
  ℕ, Bool, true, false, not, ◌&&◌, List, [], ◌∷◌, ◌++◌, map, Option, none, some, if◌then◌else◌,
}
use smartmeter_gateway.ModbusError.{Errno, eintr, ebadf, eio, custom, from_errno}
use smartmeter_gateway.SignalHandler.{SignalHandler}
use smartmeter_gateway.Slave.Session.{report, is_interrupt}

-- `accept`: a socket, or -1 with `errno` and what `isRunning()` answers behind it.
pub data Accepted : Type 0 where
  socket : ℕ → Accepted
  failed : Errno → Bool → Accepted

-- `poll`: -1 with `errno`, 0, or events: what `accept` gives if POLLIN is among them, and whether an
-- error is.
pub data Polled : Type 0 where
  failed : Errno → Polled
  timeout : Polled
  events : Option Accepted → Bool → Polled

pub record Round : Type 0 where
  pub running : Bool
  pub polled : Polled

-- The client threads, by their sockets, in the order of `clientThreads_`.
pub record Clients : Type 0 where
  pub threads : List ℕ
  pub handler : SignalHandler

-- The loop goes on with the clients, or leaves.
pub data Turn : Type 0 where
  again leave : Clients → Turn

-- The last test of the body.
unfoldable pub check_errors : Bool → Clients → Turn
check_errors true c = leave (record c { handler = report (custom eio) c.handler })
check_errors false c = again c

unfoldable pub accept_client : Accepted → Bool → Clients → Turn
unfolding check_errors
accept_client (socket fd) errors c =
    check_errors errors (record c { threads = c.threads ++ fd ∷ [] })
accept_client (failed errno running) errors c =
    if is_interrupt errno && not running then leave c else again c

-- The body of the loop.
unfoldable pub turn : Polled → Clients → Turn
unfolding accept_client
turn (failed errno) c =
    if is_interrupt errno
    then again c
    else leave (record c { handler = report (from_errno errno) c.handler })
turn timeout c = again c
turn (events none errors) c = check_errors errors c
turn (events (some a) errors) c = accept_client a errors c

-- What the handler has left: the threads still running, those it has joined, whether it has ended.
pub record Handled : Type 0 where
  pub threads : List ℕ
  pub joined : List ℕ
  pub ended : Bool
  pub handler : SignalHandler

-- The part behind the loop: every client thread is joined and the list is cleared.
unfoldable pub join_all : Clients → Handled
join_all c = record { threads = []; joined = c.threads; ended = true; handler = c.handler }

unfoldable pub accept_loop : Clients → List Round → Handled
unfolding join_all
accept_loop c [] = record { threads = c.threads; joined = []; ended = false; handler = c.handler }
accept_loop c (r ∷ rs) =
    if not r.running
    then join_all c
    else elim (turn r.polled c) [ again c' ↦ accept_loop c' rs | leave c' ↦ join_all c' ]

unfoldable pub tcp_client_handler : Option ℕ → SignalHandler → List Round → Handled
unfolding accept_loop
tcp_client_handler none h rs = record {
  threads = [];
  joined = [];
  ended = true;
  handler = report (custom ebadf) h;
}
tcp_client_handler (some fd) h rs = accept_loop (record { threads = []; handler = h }) rs
