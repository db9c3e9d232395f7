-- ===== src/Slave/Serial.antt =====
-- `MeterSlave::rtuClientHandler` of src/meter_slave.cpp. The rounds of the loop are
-- those of Session; whether a client counts as active only decides what is logged.
pub mod Rounds
use smartmeter_gateway.Prelude.{
  ℕ, ◌-◌, Bool, true, false, not, ◌&&◌, ◌||◌, List, [], ◌∷◌, ◌++◌, Option, none, some, ltb,
  if◌then◌else◌, Bytes,
}
use smartmeter_gateway.ModbusError.{Errno, ebadf, eio, enomem, custom, from_errno}
use smartmeter_gateway.SignalHandler.{SignalHandler}
use smartmeter_gateway.Pack.{Mapping}
use smartmeter_gateway.Slave.Session.{
  Receive, request, nothing, failed, Round, Answer, Served, left, waiting, answered, report,
  is_timeout, is_interrupt, Effect, context_closed, context_freed, socket_closed, replied_from,
}

-- The local variables of the loop.
pub record Activity : Type 0 where
  pub last : ℕ
  pub active : Bool

unfoldable pub is_broken : Errno → Bool
is_broken ebadf = true
is_broken eio = true
is_broken _ = false

-- A timeout: an idle client no longer counts as active.
unfoldable pub timed_out : ℕ → ℕ → Activity → Activity
timed_out idle now a =
    if ltb idle (now - a.last) && a.active then record { last = now; active = false } else a

-- A reply that fails is only logged.
unfoldable pub answer : Bytes → Option Mapping → SignalHandler → Served → Served
answer query none h next = left (report (custom enomem) h)
answer query (some m) h next = answered (query, m) next

unfoldable pub after_receive :
    ℕ → Activity → SignalHandler → Round → (Activity → Served) → Receive → Served
after_receive idle a h r next (request query) =
    answer query r.mapping h (next (record { last = r.now; active = true }))
after_receive idle a h r next nothing = next a
after_receive idle a h r next (failed errno) =
    if is_timeout errno
    then next (timed_out idle r.now a)
    else if is_interrupt errno
    then next a
    else if is_broken errno
    then left (report (from_errno errno) h)
    else next a

unfoldable pub serve : ℕ → Activity → SignalHandler → List Round → Served
serve idle a h [] = waiting h
serve idle a h (r ∷ rs) =
    if not r.running then left h else after_receive idle a h r (λ a'. serve idle a' h rs) r.receive

-- The whole handler; `refused` is the `errno` of a failing `modbus_set_slave`. The second part are
-- the calls that release the context, which stays in `listenCtx_`.
unfoldable pub rtu_client_handler :
    ℕ → SignalHandler → Option Errno → ℕ → List Round → Served × List Effect
rtu_client_handler idle h (some errno) now rs =
    (left (report (from_errno errno) h), context_closed ∷ context_freed ∷ [])
rtu_client_handler idle h none now rs =
    (serve idle (record { last = now; active = false }) h rs, [])
