-- ===== src/Slave/Session/Idle.antt =====
-- When `tcpClientWorker` leaves its loop, and what it has answered by then.
use mathlib.Core.List.{append-nil}
use smartmeter_gateway.Prelude.{
  ℕ, ◌-◌, Bool, true, false, List, [], ◌∷◌, ◌++◌, ◌≡◌, refl, ap, sym, ◌⊎◌, ◌∙◌, Option, none, some,
  ltb, arith, Bool-cases, inl, inr, Bytes,
}
use smartmeter_gateway.SignalHandler.{SignalHandler}
use smartmeter_gateway.Pack.{Mapping}
use smartmeter_gateway.Slave.Session.{
  Receive, request, nothing, failed, Round, Answer, Served, left, answered, is_timeout,
  is_interrupt, answer, after_receive, serve,
}

-- The time of the last request, from the time the session began or an earlier request.
abbrev pub activity : ℕ → ℕ → Receive → ℕ
activity last now (request _) = now
activity last now _ = last

abbrev pub last_activity : ℕ → List Round → ℕ
last_activity last [] = last
last_activity last (r ∷ rs) = last_activity (activity last r.now r.receive) rs

answer-ended :
    (query : Bytes) (m : Option Mapping) (replied : Bool) (h : SignalHandler) (next : Served)
    → next.ended ≡ true
    → (answer query m replied h next).ended ≡ true
unfolding answer
answer-ended query none replied h next e = refl
answer-ended query (some m) true h next e = e
answer-ended query (some m) false h next e = refl

after_receive-ended :
    (idle last : ℕ) (h : SignalHandler) (r : Round) (next : ℕ → Served) (got : Receive)
    → (next (activity last r.now got)).ended ≡ true
    → (after_receive idle last h r next got).ended ≡ true
unfolding after_receive
after_receive-ended idle last h r next (request query) e =
    answer-ended query r.mapping r.replied h (next r.now) e
after_receive-ended idle last h r next nothing e = refl
after_receive-ended idle last h r next (failed errno) e = ground arith

serve_running :
    (idle last : ℕ) (h : SignalHandler) (r : Round) (rs : List Round)
    → r.running ≡ true
    → serve idle last h (r ∷ rs)
      ≡ after_receive idle last h r (λ last'. serve idle last' h rs) r.receive
unfolding serve
serve_running idle last h r rs e = rw e refl

serve_stopped :
    (idle last : ℕ) (h : SignalHandler) (r : Round) (rs : List Round)
    → r.running ≡ false
    → serve idle last h (r ∷ rs) ≡ left h
unfolding serve
serve_stopped idle last h r rs e = rw e refl

pub serve-ended :
    (idle last : ℕ) (h : SignalHandler) (rs : List Round) (r : Round) (rest : List Round)
    → (serve idle (last_activity last rs) h (r ∷ rest)).ended ≡ true
    → (serve idle last h (rs ++ r ∷ rest)).ended ≡ true
serve-ended idle last h [] r rest e = e
serve-ended idle last h (q ∷ rs) r rest e = elim (Bool-cases q.running) [
  | inr stop ↦ rw (serve_stopped idle last h q (rs ++ r ∷ rest) stop) refl
  | inl go ↦ rw (serve_running idle last h q (rs ++ r ∷ rest) go) (
      after_receive-ended idle last h q _ q.receive
        (serve-ended idle (activity last q.now q.receive) h rs r rest e))
]

-- A receive that times out.
abbrev pub TimesOut : Receive → Type 0
TimesOut (failed errno) = is_timeout errno ≡ true
TimesOut _ = ⊥

after_receive_late :
    (idle last : ℕ) (h : SignalHandler) (r : Round) (next : ℕ → Served) (got : Receive)
    → TimesOut got
    → ltb idle (r.now - last) ≡ true
    → after_receive idle last h r next got ≡ left h
unfolding after_receive
after_receive_late idle last h r next (failed errno) t l = rw (t, l) refl
after_receive_late idle last h r next (request q) t l = absurd t
after_receive_late idle last h r next nothing t l = absurd t

serve_late :
    (idle last : ℕ) (h : SignalHandler) (r : Round) (rest : List Round)
    → TimesOut r.receive
    → ltb idle (r.now - last) ≡ true
    → serve idle last h (r ∷ rest) ≡ left h
serve_late idle last h r rest t l = elim (Bool-cases r.running) [
  | inr stop ↦ serve_stopped idle last h r rest stop
  | inl go ↦ serve_running idle last h r rest go ∙ after_receive_late idle last h r _ r.receive t l
]

-- A TCP session has ended by the round in which a receive times out more than the idle timeout
-- after the last request, whatever the client and the system have done before.
pub serve-idle :
    (idle last : ℕ) (h : SignalHandler) (rs : List Round) (r : Round) (rest : List Round)
    → TimesOut r.receive
    → ltb idle (r.now - last_activity last rs) ≡ true
    → (serve idle last h (rs ++ r ∷ rest)).ended ≡ true
serve-idle idle last h rs r rest t l =
    serve-ended idle last h rs r rest
      (ap (λ (s : Served). s.ended) (serve_late idle (last_activity last rs) h r rest t l))

-- Nothing ends the session in such a round: a request that is answered, an interrupt, or a timeout
-- within the idle timeout.
abbrev pub GoesOn : ℕ → ℕ → Round → Receive → Type 0
GoesOn idle last r (request q) = ((m : Mapping) × (r.mapping ≡ some m)) × (r.replied ≡ true)
GoesOn idle last r nothing = ⊥
GoesOn idle last r (failed errno) =
    ((is_timeout errno ≡ true) × (ltb idle (r.now - last) ≡ false))
    ⊎ ((is_timeout errno ≡ false) × (is_interrupt errno ≡ true))

abbrev pub AreActive : ℕ → ℕ → List Round → Type 0
AreActive idle last [] = Unit
AreActive idle last (r ∷ rs) =
    (r.running ≡ true)
    × GoesOn idle last r r.receive
    × AreActive idle (activity last r.now r.receive) rs

-- The requests of the rounds, each with the mapping that its round has loaded.
abbrev pub answer_of : Receive → Option Mapping → List Answer
answer_of (request q) (some m) = (q, m) ∷ []
answer_of _ _ = []

abbrev pub requests : List Round → List Answer
requests [] = []
requests (r ∷ rs) = answer_of r.receive r.mapping ++ requests rs

abbrev pub answered_all : List Answer → Served → Served
answered_all [] s = s
answered_all (a ∷ done) s = answered a (answered_all done s)

after_receive-GoesOn :
    (idle last : ℕ) (h : SignalHandler) (r : Round) (next : ℕ → Served) (got : Receive)
    → GoesOn idle last r got
    → after_receive idle last h r next got
      ≡ answered_all (answer_of got r.mapping) (next (activity last r.now got))
unfolding after_receive answer
after_receive-GoesOn idle last h r next (request q) ((m, e), ok) = rw (e, ok) refl
after_receive-GoesOn idle last h r next nothing g = absurd g
after_receive-GoesOn idle last h r next (failed errno) (inl (t, l)) = rw (t, l) refl
after_receive-GoesOn idle last h r next (failed errno) (inr (t, i)) = rw (t, i) refl

pub answered_all-append :
    (xs ys : List Answer) (s : Served)
    → answered_all (xs ++ ys) s ≡ answered_all xs (answered_all ys s)
answered_all-append [] ys s = refl
answered_all-append (x ∷ xs) ys s = ap (answered x) (answered_all-append xs ys s)

serve-AreActive :
    (idle last : ℕ) (h : SignalHandler) (rs rest : List Round)
    → AreActive idle last rs
    → serve idle last h (rs ++ rest)
      ≡ answered_all (requests rs) (serve idle (last_activity last rs) h rest)
serve-AreActive idle last h [] rest a = refl
serve-AreActive idle last h (r ∷ rs) rest (go, on, later) =
    serve_running idle last h r (rs ++ rest) go
    ∙ after_receive-GoesOn idle last h r _ r.receive on
    ∙ ap (answered_all (answer_of r.receive r.mapping))
        (serve-AreActive idle (activity last r.now r.receive) h rs rest later)
    ∙ sym (answered_all-append (answer_of r.receive r.mapping) (requests rs) _)

pub answered_all_lem :
    (done : List Answer) (s : Served)
    → answered_all done s ≡ record s { answers = done ++ s.answers }
answered_all_lem [] s = refl
answered_all_lem (a ∷ done) s = ap (answered a) (answered_all_lem done s)

pub answered_all-left :
    (done : List Answer) (h : SignalHandler)
    → answered_all done (left h) ≡ record { answers = done; ended = true; handler = h }
answered_all-left done h =
    answered_all_lem done (left h)
    ∙ ap (λ (x : List Answer). record { answers = x; ended = true; handler = h }) (append-nil done)

-- If the program runs and each round of a TCP session is a request that finds a mapping and whose
-- reply succeeds, an interrupt, or a timeout within the idle timeout of the last request, the
-- session goes on; if then a receive times out later than that, it ends there with every request
-- answered once and in order, and does not shut the program down.
pub serve-AreActive-idle :
    (idle last : ℕ) (h : SignalHandler) (rs : List Round) (r : Round) (rest : List Round)
    → AreActive idle last rs
    → TimesOut r.receive
    → ltb idle (r.now - last_activity last rs) ≡ true
    → serve idle last h (rs ++ r ∷ rest)
      ≡ record { answers = requests rs; ended = true; handler = h }
serve-AreActive-idle idle last h rs r rest a t l =
    serve-AreActive idle last h rs (r ∷ rest) a
    ∙ ap (answered_all (requests rs)) (serve_late idle (last_activity last rs) h r rest t l)
    ∙ answered_all-left (requests rs) h
