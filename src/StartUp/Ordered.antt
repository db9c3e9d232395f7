-- ===== src/StartUp/Ordered.antt =====
-- Every part that is started is destroyed, in reverse order and while the program no longer runs.
use mathlib.Core.List.{append-nil, append_assoc}
use smartmeter_gateway.Prelude.{
  All-append, reverse, ℕ, Bool, true, false, not, ◌&&◌, List, [], ◌∷◌, ◌++◌, ◌≡◌, refl, ap, sym,
  ◌∙◌, subst, arith, Option, none, some, Bytes, All, if_both,
}
use smartmeter_gateway.SignalHandler.{SignalHandler, shutdown, on_signal, is_running}
use smartmeter_gateway.Real.{RealOps}
use smartmeter_gateway.Config.{AppConfig, MeterSlaveConfig, MqttConfig}
use smartmeter_gateway.Privileges.{Os, Outcome, returned, threw, is_empty, is_root, drop}
use smartmeter_gateway.Slave.Listener.{Environment}
use smartmeter_gateway.Mqtt.Lifetime.{Answers}
use smartmeter_gateway.StartUp.{
  Part, slave, mqtt, master, Act, started, callbacks_set, waited, State, Attempt, ready, failed,
  World, Ran, start, constructed, start_slave, start_mqtt, start_master, destroy_all, stop_by,
  finish, log_user, after_drop, drop_privileges, try_block, initial, run_main, main,
}
use smartmeter_gateway.StartUp.Attempts.{Holds, and_then-Holds}
use smartmeter_gateway.StartUp.Acts.{
  start_of, end_of, collect, IsStopped, destroy_all_ends, destroy_all_starts, destroy_all-IsStopped,
  collect-append,
}

pub stop_by_stops :
    (signalled : Option ℕ) (h : SignalHandler) → is_running (stop_by signalled h) ≡ false
unfolding stop_by on_signal shutdown is_running
stop_by_stops none h = refl
stop_by_stops (some sig) h = ground arith

module _ {P : Type 0} where
  abbrev Inv : State P → Type 0
  Inv s =
      (collect start_of s.acts ≡ reverse s.alive)
      × (collect end_of s.acts ≡ [])
      × All IsStopped s.acts

  start-Inv : (part : Part) (s : State P) → Inv s → Inv (start part s)
  unfolding start
  start-Inv part s (b, e, k) = (
    collect-append start_of s.acts (started part s.process ∷ [])
        ∙ ap (λ (z : List Part). z ++ part ∷ []) b,
    collect-append end_of s.acts (started part s.process ∷ []) ∙ ap (λ (z : List Part). z ++ []) e,
    All-append IsStopped s.acts (started part s.process ∷ []) k (tt, tt),
  )

  constructed-Inv :
      (part : Part) (b : Bool) (s : State P) → Inv s → Holds Inv Inv (constructed part b s)
  unfolding constructed
  constructed-Inv part true s i = start-Inv part s i
  constructed-Inv part false s i = i

  start_slave-Inv :
      (ops : RealOps) (cfg : Option MeterSlaveConfig) (env : Environment) (s : State P)
      → Inv s
      → Holds Inv Inv (start_slave ops cfg env s)
  unfolding start_slave
  start_slave-Inv ops none env s i = i
  start_slave-Inv ops (some cfg) env s i = constructed-Inv slave _ _ i

  start_mqtt-Inv :
      (cfg : MqttConfig) (answers : Answers) (s : State P)
      → Inv s
      → Holds Inv Inv (start_mqtt cfg answers s)
  unfolding start_mqtt
  start_mqtt-Inv cfg answers s i = constructed-Inv mqtt _ s i

  start_master-Inv : (s : State P) → Inv s → Holds Inv Inv (start_master s)
  unfolding start_master
  start_master-Inv s i =
      let (b, e, k) = start-Inv master s i in
      let acts = (start master s).acts in
      (
        collect-append start_of acts (callbacks_set ∷ []) ∙ append-nil _ ∙ b,
        collect-append end_of acts (callbacks_set ∷ []) ∙ append-nil _ ∙ e,
        All-append IsStopped acts (callbacks_set ∷ []) k (tt, tt),
      )

  -- What the acts of a whole run are.
  pub record IsOrderly (acts : List (Act P)) : Type 0 where
    pub reversed : collect start_of acts ≡ reverse (collect end_of acts)
    pub stopped : All IsStopped acts

  destroyed-IsOrderly :
      (s : State P) (b : Bool) → Inv s → b ≡ false → IsOrderly (s.acts ++ destroy_all s.alive b)
  destroyed-IsOrderly s b (i, e, k) stop = record {
    reversed =
        collect-append start_of s.acts (destroy_all s.alive b)
        ∙ ap (λ (z : List Part). collect start_of s.acts ++ z) (destroy_all_starts P s.alive b)
        ∙ append-nil _
        ∙ i
        ∙ ap reverse (
            sym (
              collect-append end_of s.acts (destroy_all s.alive b)
              ∙ ap (λ (z : List Part). z ++ collect (end_of {P = P}) (destroy_all s.alive b)) e
              ∙ destroy_all_ends P s.alive b));
    stopped = All-append IsStopped s.acts _ k (destroy_all-IsStopped P s.alive b stop);
  }

  finish-IsOrderly :
      (signalled : Option ℕ) (a : Attempt P) → Holds Inv Inv a → IsOrderly (finish signalled a).acts
  unfolding finish shutdown is_running
  finish-IsOrderly signalled (failed s) i = destroyed-IsOrderly s false i refl
  finish-IsOrderly signalled (ready s) (i, e, k) =
      let h = stop_by signalled s.handler in
      let waiting = record s { acts = s.acts ++ waited ∷ [] } in
      subst IsOrderly (append_assoc s.acts (waited ∷ []) (destroy_all s.alive (is_running h))) (
        destroyed-IsOrderly waiting (is_running h)
          (
            collect-append start_of s.acts (waited ∷ []) ∙ append-nil _ ∙ i,
            collect-append end_of s.acts (waited ∷ []) ∙ append-nil _ ∙ e,
            All-append IsStopped s.acts (waited ∷ []) k (tt, tt),
          )
          (stop_by_stops signalled s.handler))

module _ (os : Os) where
  open os use {Process}

  log_user-Inv :
      (user group : Option Bytes) (s : State Process)
      → Inv s
      → Holds Inv Inv (log_user os user group s)
  unfolding log_user
  log_user-Inv none group s i = i
  log_user-Inv (some user) none s i = i
  log_user-Inv (some user) (some group) s i = i

  after_drop-Inv :
      (o : Outcome Process) (s : State Process) → Inv s → Holds Inv Inv (after_drop os o s)
  unfolding after_drop
  after_drop-Inv (threw f p) s i = i
  after_drop-Inv (returned p) s i = log_user-Inv _ _ (record s { process = p }) i

  drop_privileges-Inv :
      (user group : Bytes) (s : State Process)
      → Inv s
      → Holds Inv Inv (drop_privileges os user group s)
  unfolding drop_privileges
  drop_privileges-Inv user group s i =
      if_both (Holds Inv Inv) (not (is_empty user) && is_root os s.process) _ _
        (after_drop-Inv (drop os user group s.process) s i) i

  try_block-Inv :
      (ops : RealOps) (cfg : AppConfig ops.Real) (world : World) (user group : Bytes)
      (s : State Process)
      → Inv s
      → Holds Inv Inv (try_block os ops cfg world user group s)
  unfolding try_block
  try_block-Inv ops cfg world user group s i =
      and_then-Holds Inv Inv Inv _ start_master
        (and_then-Holds Inv Inv Inv _ _
          (and_then-Holds Inv Inv Inv _ _
            (start_slave-Inv ops cfg.meter.slave world.slave_answers s i)
            (drop_privileges-Inv user group))
          (start_mqtt-Inv cfg.mqtt world.mqtt_answers))
        start_master-Inv

  -- In every run of main, failed ones included, the parts that were started are destroyed, in
  -- reverse order, and each destructor runs only when the program no longer runs.
  pub main-IsOrderly :
      (ops : RealOps) (cfg : Option (AppConfig ops.Real)) (world : World) (user group : Bytes)
      (p : Process)
      → IsOrderly (main os ops cfg world user group p).acts
  unfolding main run_main
  main-IsOrderly ops none world user group p = record { reversed = refl; stopped = tt }
  main-IsOrderly ops (some cfg) world user group p =
      if_both (λ (r : Ran Process). IsOrderly r.acts) (not (is_root os p) && not (is_empty user)) _
        _ (record { reversed = refl; stopped = tt })
        (finish-IsOrderly world.signalled _
          (try_block-Inv ops cfg world user group (initial os ops p) (refl, refl, tt)))
