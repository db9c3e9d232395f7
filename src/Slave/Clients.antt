-- ===== src/Slave/Clients.antt =====
-- Client threads beside the updates: each request is answered from the mapping that is published
-- at that moment.
use smartmeter_gateway.Prelude.{
  ℕ, Bool, not, List, [], ◌∷◌, ◌≡◌, refl, Option, none, some, All, Bytes, if◌then◌else◌, subst,
  if_both,
}
use smartmeter_gateway.ModbusError.{ok}
use smartmeter_gateway.Real.{RealOps}
use smartmeter_gateway.SignalHandler.{SignalHandler}
use smartmeter_gateway.Pack.{Mapping}
use smartmeter_gateway.Pack.Memory.{read}
use smartmeter_gateway.Slave.{Slave}
use smartmeter_gateway.Slave.Chain.{walk}
use smartmeter_gateway.Slave.Listener.{Server, Environment, start_listener}
use smartmeter_gateway.Slave.Discovery.{
  Update, apply, apply_all, IsDiscovered, started-IsDiscovered,
}
use smartmeter_gateway.Slave.Session.{
  Receive, request, nothing, failed, Round, Answer, Served, left, answered,
}
use smartmeter_gateway.Slave.Session
use smartmeter_gateway.Slave.Serial.{Activity}
use smartmeter_gateway.Slave.Serial

-- A round of a client thread without the mapping that it loads.
pub record Incoming : Type 0 where
  pub running : Bool
  pub receive : Receive
  pub now : ℕ
  pub replied : Bool

module _ (ops : RealOps) where
  -- The updates of the mapping and the rounds of a client thread, in the order in which the
  -- mapping is stored and loaded.
  pub data Event : Type 0 where
    updated : Update ops → Event
    received : Incoming → Event

  unfoldable pub rounds : Slave → List Event → List Round
  rounds s [] = []
  rounds s (updated u ∷ es) = rounds (apply ops u s) es
  rounds s (received i ∷ es) =
      record {
        running = i.running;
        receive = i.receive;
        now = i.now;
        mapping = s.regs;
        replied = i.replied;
      }
      ∷ rounds s es

-- What a SunSpec client finds in a mapping.
abbrev pub IsSunspec : Bool → Mapping → Type 0
IsSunspec use_float m =
    (read m 40000 2 ≡ 0x5375 ∷ 0x6e53 ∷ [])
    × (walk 3 m 40002 ≡ some ((1, 65) ∷ (if use_float then (213, 124) else (203, 105)) ∷ []))

abbrev pub IsAnsweredFrom : (Mapping → Type 0) → Answer → Type 0
IsAnsweredFrom P (query, m) = P m

abbrev Loads : (Mapping → Type 0) → List Round → Type 0
Loads P rs = All (λ (r : Round). (m : Mapping) → r.mapping ≡ some m → P m) rs

module _ (P : Mapping → Type 0) where
  abbrev AllAnswers : Served → Type 0
  AllAnswers s = All (IsAnsweredFrom P) s.answers

  answer-AllAnswers :
      (query : Bytes) (o : Option Mapping) (replied : Bool) (h : SignalHandler) (next : Served)
      → ((m : Mapping) → o ≡ some m → P m)
      → AllAnswers next
      → AllAnswers (Session.answer query o replied h next)
  unfolding Session.answer
  answer-AllAnswers query none replied h next p k = tt
  answer-AllAnswers query (some m) replied h next p k =
      (p m refl, if_both AllAnswers replied next (left h) k tt)

  after_receive-AllAnswers :
      (idle last : ℕ) (h : SignalHandler) (r : Round) (next : ℕ → Served) (got : Receive)
      → ((m : Mapping) → r.mapping ≡ some m → P m)
      → ((last' : ℕ) → AllAnswers (next last'))
      → AllAnswers (Session.after_receive idle last h r next got)
  unfolding Session.after_receive
  after_receive-AllAnswers idle last h r next (request query) p k =
      answer-AllAnswers query r.mapping r.replied h (next r.now) p (k r.now)
  after_receive-AllAnswers idle last h r next nothing p k = tt
  after_receive-AllAnswers idle last h r next (failed errno) p k =
      if_both AllAnswers (Session.is_timeout errno) _ _
        (if_both AllAnswers _ (left h) (next last) tt (k last))
        (if_both AllAnswers (Session.is_interrupt errno) (next last) (left h) (k last) tt)

  serve-AllAnswers :
      (idle last : ℕ) (h : SignalHandler) (rs : List Round)
      → Loads P rs
      → AllAnswers (Session.serve idle last h rs)
  unfolding Session.serve
  serve-AllAnswers idle last h [] p = tt
  serve-AllAnswers idle last h (r ∷ rs) p = if_both AllAnswers (not r.running) (left h) _ tt (
      after_receive-AllAnswers idle last h r _ r.receive p.0
        (λ last'. serve-AllAnswers idle last' h rs p.1))

  rtu_answer-AllAnswers :
      (query : Bytes) (o : Option Mapping) (h : SignalHandler) (next : Served)
      → ((m : Mapping) → o ≡ some m → P m)
      → AllAnswers next
      → AllAnswers (Serial.answer query o h next)
  unfolding Serial.answer
  rtu_answer-AllAnswers query none h next p k = tt
  rtu_answer-AllAnswers query (some m) h next p k = (p m refl, k)

  rtu_after_receive-AllAnswers :
      (idle : ℕ) (a : Activity) (h : SignalHandler) (r : Round) (next : Activity → Served)
      (got : Receive)
      → ((m : Mapping) → r.mapping ≡ some m → P m)
      → ((a' : Activity) → AllAnswers (next a'))
      → AllAnswers (Serial.after_receive idle a h r next got)
  unfolding Serial.after_receive
  rtu_after_receive-AllAnswers idle a h r next (request query) p k =
      rtu_answer-AllAnswers query r.mapping h _ p (k _)
  rtu_after_receive-AllAnswers idle a h r next nothing p k = k a
  rtu_after_receive-AllAnswers idle a h r next (failed errno) p k =
      if_both AllAnswers (Session.is_timeout errno) _ _ (k _) (
        if_both AllAnswers (Session.is_interrupt errno) _ _ (k a)
          (if_both AllAnswers (Serial.is_broken errno) _ _ tt (k a)))

  rtu_serve-AllAnswers :
      (idle : ℕ) (a : Activity) (h : SignalHandler) (rs : List Round)
      → Loads P rs
      → AllAnswers (Serial.serve idle a h rs)
  unfolding Serial.serve
  rtu_serve-AllAnswers idle a h [] p = tt
  rtu_serve-AllAnswers idle a h (r ∷ rs) p = if_both AllAnswers (not r.running) (left h) _ tt (
      rtu_after_receive-AllAnswers idle a h r _ r.receive p.0
        (λ a'. rtu_serve-AllAnswers idle a' h rs p.1))

module _ (ops : RealOps) where
  -- What holds of every mapping that a series of updates publishes holds of every mapping that a
  -- round loads.
  rounds-Loads :
      (P : Mapping → Type 0) (s : Slave) (es : List (Event ops))
      → ((us : List (Update ops)) (m : Mapping) → (apply_all ops us s).regs ≡ some m → P m)
      → Loads P (rounds ops s es)
  unfolding rounds apply_all
  rounds-Loads P s [] p = tt
  rounds-Loads P s (updated u ∷ es) p = rounds-Loads P (apply ops u s) es (λ us. p (u ∷ us))
  rounds-Loads P s (received i ∷ es) p = (p [], rounds-Loads P s es p)

  IsDiscovered-IsSunspec :
      (use_float : Bool) (s : Slave) (m : Mapping)
      → IsDiscovered ops use_float s
      → s.regs ≡ some m
      → IsSunspec use_float m
  IsDiscovered-IsSunspec use_float s m d e =
      subst (IsSunspec use_float) (let same = d.regs_is in cc) (d.marker, d.models)

  -- Once the listener has started, a client thread, over TCP or a serial line, answers every
  -- request from a mapping in which a SunSpec client finds the marker and the configured chain of
  -- models, however its rounds and the updates are interleaved.
  pub clients-IsSunspec :
      (tcp : Bool) (slave_id : ℕ) (env : Environment) (s : Server) (es : List (Event ops))
      (idle last : ℕ) (a : Activity) (h : SignalHandler)
      → (start_listener ops tcp slave_id env s).0 ≡ ok tt
      → All
          (IsAnsweredFrom (IsSunspec s.slave.use_float_model))
          (Session.serve idle last h
            (rounds ops (start_listener ops tcp slave_id env s).1.slave es)).answers
        × All
            (IsAnsweredFrom (IsSunspec s.slave.use_float_model))
            (Serial.serve idle a h
              (rounds ops (start_listener ops tcp slave_id env s).1.slave es)).answers
  clients-IsSunspec tcp slave_id env s es idle last a h e =
      let loads = rounds-Loads (IsSunspec s.slave.use_float_model) _ es (λ us m r.
        IsDiscovered-IsSunspec s.slave.use_float_model _ m
          (started-IsDiscovered ops tcp slave_id env s us e) r) in
      (serve-AllAnswers _ idle last h _ loads, rtu_serve-AllAnswers _ idle a h _ loads)
