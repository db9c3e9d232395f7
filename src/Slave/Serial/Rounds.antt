-- ===== src/Slave/Serial/Rounds.antt =====
-- What `rtuClientHandler` answers over a series of rounds, and what ends it.
use smartmeter_gateway.Prelude.{ℕ, true, false, List, [], ◌∷◌, ◌≡◌, Option, none, some}
use smartmeter_gateway.SignalHandler.{SignalHandler}
use smartmeter_gateway.Pack.{Mapping}
use smartmeter_gateway.Slave.Session.{Receive, request, nothing, failed, Round, is_timeout}
use smartmeter_gateway.Slave.Serial.{Activity, is_broken, timed_out}

-- The rounds that do not end the loop: the program runs, a request finds a mapping, and a failure
-- is no EBADF or EIO.
abbrev pub GoesOn : Receive → Option Mapping → Type 0
GoesOn (request q) o = (m : Mapping) × (o ≡ some m)
GoesOn nothing o = Unit
GoesOn (failed errno) o = is_broken errno ≡ false

abbrev pub AreHealthy : List Round → Type 0
AreHealthy [] = Unit
AreHealthy (r ∷ rs) = (r.running ≡ true) × GoesOn r.receive r.mapping × AreHealthy rs

-- A request without a mapping, EBADF or EIO.
abbrev pub Breaks : Receive → Option Mapping → Type 0
Breaks (request q) o = o ≡ none
Breaks nothing o = ⊥
Breaks (failed errno) o = is_broken errno ≡ true

-- The states of the loop behind a receive that does not end it.
abbrev later : ℕ → Activity → Round → Receive → Activity
later idle a r (request q) = record { last = r.now; active = true }
later idle a r nothing = a
later idle a r (failed errno) = elim (is_timeout errno) [
  | true ↦ timed_out idle r.now a
  | false ↦ a
]

abbrev later_all : ℕ → Activity → List Round → Activity
later_all idle a [] = a
later_all idle a (r ∷ rs) = later_all idle (later idle a r r.receive) rs
