-- ===== src/Slave/Session.antt =====
-- `MeterSlave::tcpClientWorker` of src/meter_slave.cpp. Each round of the loop is an argument: what
-- `isRunning()`, `modbus_receive`, the clock, `regs_.load()` and `modbus_reply` answer. A list that
-- ends early stands for a receive that still waits.
pub mod Idle
pub mod Release
use smartmeter_gateway.Prelude.{
  ℕ, ◌-◌, Bool, true, false, not, ◌||◌, List, [], ◌∷◌, ◌++◌, map, Option, none, some, ltb,
  if◌then◌else◌, Bytes,
}
use smartmeter_gateway.ModbusError.{
  Errno, eintr, etimedout, eagain, enomem, err, ModbusError, custom, from_errno,
}
use smartmeter_gateway.SignalHandler.{SignalHandler}
use smartmeter_gateway.Pack.{Mapping}
use smartmeter_gateway.Slave.{handle_result}

-- `modbus_receive`: a request, 0, or -1 with `errno`.
pub data Receive : Type 0 where
  request : Bytes → Receive
  nothing : Receive
  failed : Errno → Receive

pub record Round : Type 0 where
  pub running : Bool
  pub receive : Receive
  pub now : ℕ
  pub mapping : Option Mapping
  pub replied : Bool

-- A call of `modbus_reply`: the request and the mapping it is answered from.
abbrev pub Answer : Type 0
Answer = Bytes × Mapping

-- What a loop has done: its answers, whether it has ended, and the shutdown flag.
pub record Served : Type 0 where
  pub answers : List Answer
  pub ended : Bool
  pub handler : SignalHandler

abbrev pub left : SignalHandler → Served
left h = record { answers = []; ended = true; handler = h }

abbrev pub waiting : SignalHandler → Served
waiting h = record { answers = []; ended = false; handler = h }

abbrev pub answered : Answer → Served → Served
answered a s = record s { answers = a ∷ s.answers }

-- `handleResult(std::unexpected(…))`, for the flag.
abbrev pub report : ModbusError → SignalHandler → SignalHandler
report e h = (handle_result {A = Unit {0}} (err e) h).1

-- ETIMEDOUT, EAGAIN and EWOULDBLOCK.
unfoldable pub is_timeout : Errno → Bool
is_timeout etimedout = true
is_timeout eagain = true
is_timeout _ = false

unfoldable pub is_interrupt : Errno → Bool
is_interrupt eintr = true
is_interrupt _ = false

-- What follows a request: the reply from the mapping, and the next round if it succeeds.
unfoldable pub answer : Bytes → Option Mapping → Bool → SignalHandler → Served → Served
answer query none replied h next = left (report (custom enomem) h)
answer query (some m) replied h next = answered (query, m) (if replied then next else left h)

-- The loop behind `modbus_receive`; `next` is the next round, given the last activity.
unfoldable pub after_receive : ℕ → ℕ → SignalHandler → Round → (ℕ → Served) → Receive → Served
unfolding answer
after_receive idle last h r next (request query) = answer query r.mapping r.replied h (next r.now)
after_receive idle last h r next nothing = left h
after_receive idle last h r next (failed errno) =
    if is_timeout errno
    then (if ltb idle (r.now - last) then left h else next last)
    else if is_interrupt errno
    then next last
    else left h

-- The loop, from the idle timeout and the last activity.
unfoldable pub serve : ℕ → ℕ → SignalHandler → List Round → Served
serve idle last h [] = waiting h
serve idle last h (r ∷ rs) =
    if not r.running
    then left h
    else after_receive idle last h r (λ last'. serve idle last' h rs) r.receive

-- What the worker does besides: libmodbus and the system are called with these.
pub data Effect : Type 0 where
  replied_from : Answer → Effect
  context_closed context_freed : Effect
  socket_closed : ℕ → Effect

pub record Worker : Type 0 where
  pub effects : List Effect
  pub ended : Bool
  pub handler : SignalHandler

-- The calls at the end of every path that has a context.
abbrev pub release : ℕ → List Effect
release socket = context_closed ∷ context_freed ∷ socket_closed socket ∷ []

unfoldable pub finish : ℕ → Served → Worker
finish socket s = record {
  effects = map replied_from s.answers ++ (if s.ended then release socket else []);
  ended = s.ended;
  handler = s.handler;
}

-- `modbus_new_tcp` gives a context or not; `modbus_set_slave` succeeds or fails with `errno`.
pub data Context : Type 0 where
  no_context ready : Context
  refused : Errno → Context

unfoldable pub tcp_client_worker : ℕ → ℕ → SignalHandler → Context → ℕ → List Round → Worker
unfolding finish
tcp_client_worker idle socket h no_context now rs = record {
  effects = socket_closed socket ∷ [];
  ended = true;
  handler = report (custom enomem) h;
}
tcp_client_worker idle socket h (refused errno) now rs = record {
  effects = release socket;
  ended = true;
  handler = report (from_errno errno) h;
}
tcp_client_worker idle socket h ready now rs = finish socket (serve idle now h rs)
