-- ===== src/Slave/Accept/Joined.antt =====
-- The client threads that `tcpClientHandler` has started, and when it joins them.
use mathlib.Core.List.{append-nil, append_assoc}
use smartmeter_gateway.Prelude.{
  ℕ, true, false, ◌⊎◌, inl, inr, List, [], ◌∷◌, ◌++◌, ◌≡◌, refl, ap, sym, ◌∙◌, Bool-cases, none,
  some,
}
use smartmeter_gateway.SignalHandler.{SignalHandler}
use smartmeter_gateway.Slave.Session.{is_interrupt}
use smartmeter_gateway.Slave.Accept.{
  Accepted, socket, Polled, timeout, events, Round, Clients, again, check_errors, accept_client,
  turn, accept_loop, tcp_client_handler,
}

-- The rounds that do not end the loop.
abbrev pub GoesOn : Polled → Type 0
GoesOn (Polled.failed errno) = is_interrupt errno ≡ true
GoesOn timeout = Unit
GoesOn (events none errors) = errors ≡ false
GoesOn (events (some (socket fd)) errors) = errors ≡ false
GoesOn (events (some (Accepted.failed errno running)) errors) =
    (is_interrupt errno ≡ false) ⊎ (running ≡ true)

abbrev pub AreRunning : List Round → Type 0
AreRunning [] = Unit
AreRunning (r ∷ rs) = (r.running ≡ true) × GoesOn r.polled × AreRunning rs

-- The sockets that `accept` gives.
abbrev pub socket_of : Polled → List ℕ
socket_of (events (some (socket fd)) errors) = fd ∷ []
socket_of _ = []

abbrev pub sockets : List Round → List ℕ
sockets [] = []
sockets (r ∷ rs) = socket_of r.polled ++ sockets rs

abbrev joins : Clients → List ℕ → Clients
joins c fds = record c { threads = c.threads ++ fds }

joins_nil : (c : Clients) → joins c [] ≡ c
joins_nil c = ap (λ (x : List ℕ). record c { threads = x }) (append-nil c.threads)

turn-GoesOn : (p : Polled) (c : Clients) → GoesOn p → turn p c ≡ again (joins c (socket_of p))
unfolding turn accept_client check_errors
turn-GoesOn (Polled.failed errno) c g = rw g (ap again (sym (joins_nil c)))
turn-GoesOn timeout c g = ap again (sym (joins_nil c))
turn-GoesOn (events none errors) c g = rw g (ap again (sym (joins_nil c)))
turn-GoesOn (events (some (socket fd)) errors) c g = rw g refl
turn-GoesOn (events (some (Accepted.failed errno running)) errors) c (inl g) =
    rw g (ap again (sym (joins_nil c)))
turn-GoesOn (events (some (Accepted.failed errno running)) errors) c (inr g) =
    elim (Bool-cases (is_interrupt errno)) [
      | inl i ↦ rw (i, g) (ap again (sym (joins_nil c)))
      | inr i ↦ rw i (ap again (sym (joins_nil c)))
    ]

accept_loop_again :
    (c c' : Clients) (r : Round) (rs : List Round)
    → r.running ≡ true
    → turn r.polled c ≡ again c'
    → accept_loop c (r ∷ rs) ≡ accept_loop c' rs
unfolding accept_loop
accept_loop_again c c' r rs go e = rw (go, e) refl

accept_loop-AreRunning :
    (c : Clients) (rs rest : List Round)
    → AreRunning rs
    → accept_loop c (rs ++ rest) ≡ accept_loop (joins c (sockets rs)) rest
accept_loop-AreRunning c [] rest k = ap (λ x. accept_loop x rest) (sym (joins_nil c))
accept_loop-AreRunning c (r ∷ rs) rest (go, on, more) =
    accept_loop_again c (joins c (socket_of r.polled)) r (rs ++ rest) go (turn-GoesOn r.polled c on)
    ∙ accept_loop-AreRunning (joins c (socket_of r.polled)) rs rest more
    ∙ ap (λ (x : List ℕ). accept_loop (record c { threads = x }) rest)
        (append_assoc c.threads (socket_of r.polled) (sockets rs))

-- As long as the program runs, poll does not fail but for an interrupt and no error of the
-- listening socket is seen, one thread is started for each accepted socket, in order, and none is
-- joined. In the first round in which the program no longer runs the handler joins them all and
-- ends.
pub tcp_client_handler-AreRunning :
    (fd : ℕ) (h : SignalHandler) (rs : List Round) (r : Round) (rest : List Round)
    → AreRunning rs
    → (tcp_client_handler (some fd) h rs
        ≡ record { threads = sockets rs; joined = []; ended = false; handler = h })
      × (r.running ≡ false
          → tcp_client_handler (some fd) h (rs ++ r ∷ rest)
            ≡ record { threads = []; joined = sockets rs; ended = true; handler = h })
unfolding tcp_client_handler accept_loop
tcp_client_handler-AreRunning fd h rs r rest k =
    let c : Clients = record { threads = []; handler = h } in
    (
      ap (accept_loop c) (sym (append-nil rs)) ∙ accept_loop-AreRunning c rs [] k,
      λ stop. accept_loop-AreRunning c rs (r ∷ rest) k ∙ rw stop refl,
    )
