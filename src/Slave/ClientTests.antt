-- ===== src/Slave/ClientTests.antt =====
-- Sessions of Modbus clients on concrete data, and the theorems at inputs that meet their
-- hypotheses.
use smartmeter_gateway.Prelude.{
  ℕ, ◌≡◌, refl, true, false, List, [], ◌∷◌, ◌++◌, none, some, inl, inr, All,
}
use smartmeter_gateway.ModbusError.{etimedout, eintr, eproto}
use smartmeter_gateway.Real.Whole.{whole}
use smartmeter_gateway.SignalHandler.{SignalHandler}
use smartmeter_gateway.Slave.{fresh}
use smartmeter_gateway.Slave.Listener.{start_listener}
use smartmeter_gateway.Slave.Discovery.{values, device}
use smartmeter_gateway.Slave.Session.{
  Receive, request, failed, Round, serve, is_timeout, is_interrupt, ready, tcp_client_worker,
  finish, after_receive, answer,
}
use smartmeter_gateway.Slave.Session.Idle.{serve-idle, serve-AreActive-idle}
use smartmeter_gateway.Slave.Session.Release.{
  use_all, acquired, released, use_all-tcp_client_worker,
}
use smartmeter_gateway.Slave.Serial.{Activity}
use smartmeter_gateway.Slave.Serial
use smartmeter_gateway.Slave.Accept
use smartmeter_gateway.Slave.Accept.{events, socket, timeout, tcp_client_handler, Handled}
use smartmeter_gateway.Slave.Accept.Joined.{tcp_client_handler-AreRunning}
use smartmeter_gateway.Slave.Lifetime.{rtu_lifetime, use_all-rtu_lifetime}
use smartmeter_gateway.Slave.Clients.{
  Event, updated, received, Incoming, rounds, IsAnsweredFrom, IsSunspec, clients-IsSunspec,
}
use smartmeter_gateway.Slave.Tests.{sample, meter, stopped_server, good}

abbrev running : SignalHandler
running = record { running = true; signal = 0 }

abbrev round : ℕ → Receive → Round
round now got = record {
  running = true;
  receive = got;
  now = now;
  mapping = some fresh;
  replied = true;
}

-- A request after 10 seconds, an interrupt, and a timeout within the idle timeout of 60 seconds.
abbrev session : List Round
session = round 10 (request (1 ∷ [])) ∷ round 20 (failed eintr) ∷ round 30 (failed etimedout) ∷ []

abbrev late : Round
late = round 71 (failed etimedout)

serve-idle_example : (serve 60 0 running (session ++ late ∷ session)).ended ≡ true
unfolding is_timeout
serve-idle_example = serve-idle 60 0 running session late session refl refl

serve-AreActive-idle_example :
    serve 60 0 running (session ++ late ∷ [])
    ≡ record { answers = (1 ∷ [], fresh) ∷ []; ended = true; handler = running }
unfolding is_timeout is_interrupt
serve-AreActive-idle_example =
    serve-AreActive-idle 60 0 running session late []
      (refl, ((fresh, refl), refl), (refl, inr (refl, refl), (refl, inl (refl, refl), tt))) refl
      refl

use_all-tcp_client_worker_example :
    use_all true 7
      (tcp_client_worker 60 7 running ready 0 (session ++ late ∷ [])).effects
      (acquired ready)
    ≡ some (released true ready)
unfolding tcp_client_worker finish serve after_receive answer is_timeout is_interrupt
use_all-tcp_client_worker_example =
    use_all-tcp_client_worker true 60 7 running ready 0 (session ++ late ∷ [])

abbrev idle_activity : Activity
idle_activity = record { last = 0; active = false }

abbrev client : ℕ → Accept.Round
client fd = record { running = true; polled = events (some (socket fd)) false }

abbrev quiet : Accept.Round
quiet = record { running = true; polled = timeout }

abbrev stop_round : Accept.Round
stop_round = record { running = false; polled = timeout }

tcp_client_handler-AreRunning_example :
    tcp_client_handler (some 3) running (client 5 ∷ quiet ∷ client 6 ∷ stop_round ∷ [])
    ≡ record { threads = []; joined = 5 ∷ 6 ∷ []; ended = true; handler = running }
tcp_client_handler-AreRunning_example =
    (tcp_client_handler-AreRunning 3 running (client 5 ∷ quiet ∷ client 6 ∷ []) stop_round []
        (refl, refl, (refl, tt, (refl, refl, tt)))).1
      refl

use_all-rtu_lifetime_example :
    use_all false 0
      (rtu_lifetime 60 running (some eproto) 0 [] (record stopped_server { listen_ctx = true }))
      (acquired ready)
    ≡ none
use_all-rtu_lifetime_example =
    (use_all-rtu_lifetime false 0 60 running 0 [] (record stopped_server { listen_ctx = true }) refl
        refl).1
      eproto

abbrev incoming : Incoming
incoming = record { running = true; receive = request (1 ∷ []); now = 1; replied = true }

-- A client reads before, between and behind two updates.
abbrev history : List (Event whole)
history =
    received incoming
    ∷ updated (device true meter)
    ∷ received incoming
    ∷ updated (values true sample)
    ∷ received incoming
    ∷ []

clients-IsSunspec_example :
    All
      (IsAnsweredFrom (IsSunspec false))
      (serve 60 0 running
        (rounds whole (start_listener whole true 1 good stopped_server).1.slave history)).answers
unfolding start_listener
clients-IsSunspec_example =
    (clients-IsSunspec whole true 1 good stopped_server history 60 0 idle_activity running refl).0
