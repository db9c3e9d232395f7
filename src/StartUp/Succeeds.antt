-- ===== src/StartUp/Succeeds.antt =====
-- When the program starts all its parts.
use smartmeter_gateway.Prelude.{
  ℕ, true, false, List, [], ◌∷◌, ◌≡◌, ◌≢◌, refl, ap, sym, ◌∙◌, arith, Option, some, Bytes,
}
use smartmeter_gateway.Prelude.Int.{pos_part}
use smartmeter_gateway.ModbusError.{ok, Result}
use smartmeter_gateway.SignalHandler.{init}
use smartmeter_gateway.Real.{RealOps}
use smartmeter_gateway.Config.{AppConfig, MeterSlaveConfig, MqttConfig}
use smartmeter_gateway.Privileges.{
  Passwd, Group, Os, returned, is_empty, is_root, drop, find_user, target_gid, get_current_user,
  get_current_group,
}
use smartmeter_gateway.Privileges.Dropped.{Ids, Documented, IsDropped, drop-IsDropped}
use smartmeter_gateway.Privileges.Permitted.{Permits, drop_returns}
use smartmeter_gateway.Slave.Listener.{Environment, Server}
use smartmeter_gateway.Slave.Listener
use smartmeter_gateway.Mqtt.Lifetime.{Answers}
use smartmeter_gateway.Mqtt.Lifetime
use smartmeter_gateway.StartUp.{
  slave, mqtt, master, Act, started, callbacks_set, waited, destroyed, State, ready, World, start,
  constructed, start_slave, start_mqtt, start_master, finish, log_user, after_drop, drop_privileges,
  try_block, initial, run_main, main, and_then, new_server, is_tcp,
}
use smartmeter_gateway.StartUp.Ordered.{stop_by_stops}

module _ (os : Os) (doc : Documented os) (permits : Permits os doc) where
  open os use {Process}

  current_user_known :
      (p : Process) (pw : Passwd)
      → os.getpwuid (os.geteuid p) ≡ some pw
      → get_current_user os p ≡ some pw.name
  unfolding get_current_user
  current_user_known p pw u = ground arith

  current_group_known :
      (p : Process) (gr : Group)
      → os.getgrgid (os.getegid p) ≡ some gr
      → get_current_group os p ≡ some gr.name
  unfolding get_current_group
  current_group_known p gr g = ground arith

  -- Both names are found behind a drop to ids that the databases know.
  after_drop_ready :
      (p : Process) (pw : Passwd) (gr : Group) (s : State Process)
      → os.getpwuid (os.geteuid p) ≡ some pw
      → os.getgrgid (os.getegid p) ≡ some gr
      → after_drop os (returned p) s ≡ ready (record s { process = p })
  unfolding after_drop log_user
  after_drop_ready p pw gr s u g = rw (current_user_known p pw u, current_group_known p gr g) refl

  drop_privileges_ready :
      (user group : Bytes) (p : Process) (pw : Passwd) (gr : Group) (s : State Process)
      → os.geteuid s.process ≡ 0
      → is_empty user ≡ false
      → drop os user group s.process ≡ returned p
      → os.getpwuid (os.geteuid p) ≡ some pw
      → os.getgrgid (os.getegid p) ≡ some gr
      → drop_privileges os user group s ≡ ready (record s { process = p })
  unfolding drop_privileges is_root
  drop_privileges_ready user group p pw gr s root named d u g =
      rw (named, root) (rw d (after_drop_ready p pw gr s u g))

  -- The acts of a run that starts everything, the slave as `first` and the rest as `p`.
  abbrev pub all_started : Process → Process → List (Act Process)
  all_started first p =
      started slave first
      ∷ started mqtt p
      ∷ started master p
      ∷ callbacks_set
      ∷ waited
      ∷ destroyed master false
      ∷ destroyed mqtt false
      ∷ destroyed slave false
      ∷ []

  -- What the constructor of the slave answers.
  abbrev pub slave_result : (ops : RealOps) → MeterSlaveConfig → World → Result (Unit {0}) × Server
  slave_result ops sc world =
      Listener.construct ops (is_tcp sc.tcp) (pos_part sc.slave_id) world.slave_answers
        (new_server sc init)

  start_slave_ready :
      (ops : RealOps) (world : World) (first : Process) (o : Option MeterSlaveConfig)
      (sc : MeterSlaveConfig)
      → o ≡ some sc
      → (slave_result ops sc world).0 ≡ ok tt
      → start_slave ops o world.slave_answers (initial os ops first)
        ≡ ready (record {
          process = first;
          handler = (slave_result ops sc world).1.slave.handler;
          alive = slave ∷ [];
          acts = started slave first ∷ [];
        })
  unfolding start_slave constructed start
  start_slave_ready ops world first o sc e c = rw e (rw c refl)

  start_mqtt_ready :
      (cfg : MqttConfig) (answers : Answers) (s : State Process)
      → answers.client_created ≡ true
      → answers.loop_succeeds ≡ true
      → start_mqtt cfg answers s ≡ ready (start mqtt s)
  unfolding start_mqtt constructed Lifetime.construct Lifetime.create Lifetime.start_loop
  start_mqtt_ready cfg answers s c l = rw (c, l) refl

  main_starts :
      (ops : RealOps) (cfg : AppConfig ops.Real) (sc : MeterSlaveConfig) (world : World)
      (user group : Bytes) (first p : Process) (pw : Passwd) (gr : Group)
      → cfg.meter.slave ≡ some sc
      → (slave_result ops sc world).0 ≡ ok tt
      → world.mqtt_answers.client_created ≡ true
      → world.mqtt_answers.loop_succeeds ≡ true
      → os.geteuid first ≡ 0
      → is_empty user ≡ false
      → drop os user group first ≡ returned p
      → os.getpwuid (os.geteuid p) ≡ some pw
      → os.getgrgid (os.getegid p) ≡ some gr
      → main os ops (some cfg) world user group first
        ≡ record { success = true; process = p; acts = all_started first p }
  unfolding main run_main is_root try_block and_then finish start_master start
  main_starts ops cfg sc world user group first p pw gr e c mc ml root named d u g = rw root (
      rw (start_slave_ready ops world first cfg.meter.slave sc e c) (
        rw
          (drop_privileges_ready user group p pw gr
            (record {
              process = first;
              handler = (slave_result ops sc world).1.slave.handler;
              alive = slave ∷ [];
              acts = started slave first ∷ [];
            })
            root named d u g)
          (rw
            (start_mqtt_ready cfg.mqtt world.mqtt_answers
              (record {
                process = p;
                handler = (slave_result ops sc world).1.slave.handler;
                alive = slave ∷ [];
                acts = started slave first ∷ [];
              })
              mc ml)
            (rw (stop_by_stops world.signalled (slave_result ops sc world).1.slave.handler) refl))))

  dropped_user :
      (user group : Bytes) (p : Process) (pw : Passwd)
      → IsDropped os doc user group p
      → find_user os user ≡ some pw
      → os.geteuid p ≡ pw.uid
  dropped_user user group p pw d e =
      let same : d.pw ≡ pw = (let u = d.user_is in cc) in
      doc.geteuid_is p ∙ ap (λ (i : Ids). i.effective) d.uids_are ∙ ap (λ (x : Passwd). x.uid) same

  dropped_group :
      (user group : Bytes) (p : Process) (pw : Passwd) (gid : ℕ)
      → IsDropped os doc user group p
      → find_user os user ≡ some pw
      → target_gid os group pw ≡ some gid
      → os.getegid p ≡ gid
  dropped_group user group p pw gid d e g =
      let same : d.pw ≡ pw = (let u = d.user_is in cc) in
      let same_gid : d.gid ≡ gid =
        (let known = sym (ap (target_gid os group) same) ∙ d.group_is in cc) in
      doc.getegid_is p ∙ ap (λ (i : Ids). i.effective) d.gids_are ∙ same_gid

  -- If the system calls behave as documented and permit root the calls of drop, and the process is
  -- root, the named user is known and not root, the target group is known, both ids are found
  -- again for the log message, the slave is configured, and the constructors of slave and MQTT
  -- client succeed, then main starts the slave, drops the privileges, starts the MQTT client and
  -- the master, sets the callbacks, waits, destroys all in reverse order and succeeds.
  pub main-all_started :
      (ops : RealOps) (cfg : AppConfig ops.Real) (sc : MeterSlaveConfig) (world : World)
      (user group : Bytes) (first : Process) (pw pw' : Passwd) (gid : ℕ) (gr : Group)
      → cfg.meter.slave ≡ some sc
      → (slave_result ops sc world).0 ≡ ok tt
      → world.mqtt_answers.client_created ≡ true
      → world.mqtt_answers.loop_succeeds ≡ true
      → os.geteuid first ≡ 0
      → is_empty user ≡ false
      → find_user os user ≡ some pw
      → target_gid os group pw ≡ some gid
      → pw.uid ≢ 0
      → os.getpwuid pw.uid ≡ some pw'
      → os.getgrgid gid ≡ some gr
      → (p : Process) × IsDropped os doc user group p
        × (main os ops (some cfg) world user group first
            ≡ record { success = true; process = p; acts = all_started first p })
  main-all_started ops cfg sc world user group first pw pw' gid gr e c mc ml root named u g n k l =
      let (p, done) = drop_returns os doc permits user group pw gid first root named u g n in
      let d = drop-IsDropped os doc user group first p root done in
      (
        p,
        d,
        main_starts ops cfg sc world user group first p pw' gr e c mc ml root named done
            (ap os.getpwuid (dropped_user user group p pw d u) ∙ k)
            (ap os.getgrgid (dropped_group user group p pw gid d u g) ∙ l),
      )
