-- ===== src/StartUp/Attempts.antt =====
-- What holds behind the steps of the `try` block, whether it goes on or is left by an exception.
use smartmeter_gateway.StartUp.{State, Attempt, ready, failed, and_then}

abbrev pub Holds : {P : Type 0} → (State P → Type 0) → (State P → Type 0) → Attempt P → Type 0
Holds R Q (ready s) = R s
Holds R Q (failed s) = Q s

pub and_then-Holds :
    {P : Type 0} (R R' Q : State P → Type 0) (a : Attempt P) (f : State P → Attempt P)
    → Holds R Q a
    → ((s : State P) → R s → Holds R' Q (f s))
    → Holds R' Q (and_then a f)
unfolding and_then
and_then-Holds R R' Q (ready s) f h k = k s h
and_then-Holds R R' Q (failed s) f h k = h
