-- ===== src/StartUp/Privileged.antt =====
-- With which privileges the parts are started, and when the program starts at all.
use smartmeter_gateway.Prelude.{
  All-append, ℕ, Bool, true, false, List, [], ◌∷◌, ◌≡◌, refl, ap, ◌∙◌, arith, Option, none, some,
  Bytes, All, Bool-cases, inl, inr,
}
use smartmeter_gateway.Real.{RealOps}
use smartmeter_gateway.Config.{AppConfig, MeterSlaveConfig, MqttConfig}
use smartmeter_gateway.Privileges.{Os, Outcome, returned, threw, is_empty, is_root, drop}
use smartmeter_gateway.Privileges.Dropped.{Documented, IsDropped, Returns, drop-Returns}
use smartmeter_gateway.Slave.Listener.{Environment}
use smartmeter_gateway.Mqtt.Lifetime.{Answers}
use smartmeter_gateway.StartUp.{
  Part, slave, mqtt, master, Act, started, callbacks_set, destroyed, State, Attempt, ready, failed,
  World, start, constructed, start_slave, start_mqtt, start_master, destroy_all, finish, log_user,
  after_drop, drop_privileges, try_block, initial, refused, run_main, main,
}
use smartmeter_gateway.StartUp.Attempts.{Holds, and_then-Holds}

-- Destructors and the rest start nothing.
pub All-destroy_all :
    {P : Type 0} (Q : Act P → Type 0) (parts : List Part) (b : Bool)
    → ((part : Part) → Q (destroyed part b))
    → All Q (destroy_all parts b)
All-destroy_all Q [] b q = tt
All-destroy_all Q (part ∷ parts) b q = (q part, All-destroy_all Q parts b q)

module _ (os : Os) (doc : Documented os) (user group : Bytes) (first : os.Process) where
  open os use {Process}

  -- The slave is started by the first process, the rest by one with dropped privileges.
  abbrev pub IsPrivileged : Act Process → Type 0
  IsPrivileged (started slave p) = p ≡ first
  IsPrivileged (started mqtt p) = IsDropped os doc user group p
  IsPrivileged (started master p) = IsDropped os doc user group p
  IsPrivileged _ = Unit

  abbrev Acts : State Process → Type 0
  Acts s = All IsPrivileged s.acts

  abbrev First : State Process → Type 0
  First s = (s.process ≡ first) × Acts s

  abbrev Dropped : State Process → Type 0
  Dropped s = IsDropped os doc user group s.process × Acts s

  start-Acts :
      (part : Part) (s : State Process)
      → IsPrivileged (started part s.process)
      → Acts s
      → Acts (start part s)
  unfolding start
  start-Acts part s i k = All-append IsPrivileged s.acts (started part s.process ∷ []) k (i, tt)

  constructed-First :
      (b : Bool) (s : State Process) → First s → Holds First Acts (constructed slave b s)
  unfolding constructed start
  constructed-First true s (e, k) = (e, start-Acts slave s e k)
  constructed-First false s (e, k) = k

  start_slave-First :
      (ops : RealOps) (cfg : Option MeterSlaveConfig) (env : Environment) (s : State Process)
      → First s
      → Holds First Acts (start_slave ops cfg env s)
  unfolding start_slave
  start_slave-First ops none env s h = h
  start_slave-First ops (some cfg) env s h = constructed-First _ _ h

  log_user-Dropped :
      (name gname : Option Bytes) (s : State Process)
      → Dropped s
      → Holds Dropped Acts (log_user os name gname s)
  unfolding log_user
  log_user-Dropped none gname s h = h.1
  log_user-Dropped (some name) none s h = h.1
  log_user-Dropped (some name) (some gname) s h = h

  after_drop-Dropped :
      (o : Outcome Process) (s : State Process)
      → Returns (IsDropped os doc user group) o
      → Acts s
      → Holds Dropped Acts (after_drop os o s)
  unfolding after_drop
  after_drop-Dropped (threw f p) s r k = k
  after_drop-Dropped (returned p) s r k = log_user-Dropped _ _ (record s { process = p }) (r, k)

  drop_privileges-Dropped :
      (s : State Process)
      → is_empty user ≡ false
      → os.geteuid first ≡ 0
      → First s
      → Holds Dropped Acts (drop_privileges os user group s)
  unfolding drop_privileges is_root
  drop_privileges-Dropped s named root (e, k) =
      let root' : os.geteuid s.process ≡ 0 = ap (λ p. os.geteuid p) e ∙ root in
      rw (named, root')
        (after_drop-Dropped (drop os user group s.process) s
          (drop-Returns os doc user group s.process root') k)

  constructed_mqtt :
      (b : Bool) (s : State Process) → Dropped s → Holds Dropped Acts (constructed mqtt b s)
  unfolding constructed start
  constructed_mqtt true s (d, k) = (d, start-Acts mqtt s d k)
  constructed_mqtt false s (d, k) = k

  start_mqtt-Dropped :
      (cfg : MqttConfig) (answers : Answers) (s : State Process)
      → Dropped s
      → Holds Dropped Acts (start_mqtt cfg answers s)
  unfolding start_mqtt
  start_mqtt-Dropped cfg answers s h = constructed_mqtt _ s h

  start_master-Dropped : (s : State Process) → Dropped s → Holds Acts Acts (start_master s)
  unfolding start_master
  start_master-Dropped s (d, k) =
      All-append IsPrivileged (start master s).acts (callbacks_set ∷ []) (start-Acts master s d k)
        (tt, tt)

  finish-Acts :
      (signalled : Option ℕ) (a : Attempt Process)
      → Holds Acts Acts a
      → All IsPrivileged (finish signalled a).acts
  unfolding finish
  finish-Acts signalled (failed s) k =
      All-append IsPrivileged s.acts _ k (All-destroy_all IsPrivileged s.alive _ (λ part. tt))
  finish-Acts signalled (ready s) k =
      All-append IsPrivileged s.acts _ k (tt, All-destroy_all IsPrivileged s.alive _ (λ part. tt))

  try_block-Acts :
      (ops : RealOps) (cfg : AppConfig ops.Real) (world : World)
      → is_empty user ≡ false
      → os.geteuid first ≡ 0
      → Holds Acts Acts (try_block os ops cfg world user group (initial os ops first))
  unfolding try_block
  try_block-Acts ops cfg world named root =
      and_then-Holds Dropped Acts Acts _ start_master
        (and_then-Holds Dropped Dropped Acts _ _
          (and_then-Holds First Dropped Acts _ _
            (start_slave-First ops cfg.meter.slave world.slave_answers _ (refl, tt))
            (λ s. drop_privileges-Dropped s named root))
          (start_mqtt-Dropped cfg.mqtt world.mqtt_answers))
        start_master-Dropped

  -- If the system calls behave as documented, a run of main with a user named starts the slave as
  -- the first process and the MQTT client and the master only as a process with dropped
  -- privileges: all its user ids are those of that user, who is not root, its group ids those of
  -- the target group, and its supplementary groups are set for both. Without being root it starts
  -- nothing and fails.
  pub main-IsPrivileged :
      (ops : RealOps) (cfg : Option (AppConfig ops.Real)) (world : World)
      → is_empty user ≡ false
      → (is_root os first ≡ false → main os ops cfg world user group first ≡ refused os ops first)
        × All IsPrivileged (main os ops cfg world user group first).acts
  unfolding main run_main is_root
  main-IsPrivileged ops none world named = (λ r. refl, tt)
  main-IsPrivileged ops (some cfg) world named = elim (Bool-cases (is_root os first)) [
    | inr r ↦ (λ _. rw (r, named) refl, rw (r, named) tt)
    | inl r ↦ (
      λ r'. absurd (ground arith),
      rw r (finish-Acts world.signalled _ (try_block-Acts ops cfg world named (ground arith))),
    )
  ]
