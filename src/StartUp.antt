-- ===== src/StartUp.antt =====
-- src/main.cpp: the order in which the parts are started and destroyed, and with which privileges.
-- The command line is parsed by a library; its result, the configuration and what the system
-- answers are arguments.
pub mod Attempts
pub mod Acts
pub mod Privileged
pub mod Ordered
pub mod Succeeds
mod Tests
use smartmeter_gateway.Prelude.{
  ℕ, Bool, true, false, not, ◌&&◌, List, [], ◌∷◌, ◌++◌, Option, none, some, if◌then◌else◌, Bytes,
}
use smartmeter_gateway.Prelude.Int.{pos_part}
use smartmeter_gateway.ModbusError.{Result, ok, err}
use smartmeter_gateway.SignalHandler.{SignalHandler, init, shutdown, on_signal, is_running}
use smartmeter_gateway.Real.{RealOps}
use smartmeter_gateway.Config.{AppConfig, MeterSlaveConfig, ModbusTcpServerConfig, MqttConfig}
use smartmeter_gateway.Privileges.{
  Os, Outcome, returned, threw, is_empty, is_root, get_current_user, get_current_group, drop,
}
use smartmeter_gateway.Slave.Listener.{Server, Environment}
use smartmeter_gateway.Slave.Listener
use smartmeter_gateway.Mqtt.Lifetime.{Answers}
use smartmeter_gateway.Mqtt.Lifetime

pub data Part : Type 0 where
  slave mqtt master : Part

-- A part is started by a process; when one is destroyed the program runs or not.
pub data Act (P : Type 0) : Type 0 where
  started : Part → P → Act P
  callbacks_set waited : Act P
  destroyed : Part → Bool → Act P

-- The local variables of `main`; `alive` are the parts that its pointers hold, the latest first.
pub record State (P : Type 0) : Type 0 where
  pub process : P
  pub handler : SignalHandler
  pub alive : List Part
  pub acts : List (Act P)

-- An exception leaves the `try` block, with the state at that point.
pub data Attempt (P : Type 0) : Type 0 where
  ready failed : State P → Attempt P

-- What mosquitto, libmodbus and the system answer, and what ends `wait`: a signal or a call of
-- `shutdown` in a part.
pub record World : Type 0 where
  pub slave_answers : Environment
  pub mqtt_answers : Answers
  pub signalled : Option ℕ

pub record Ran (P : Type 0) : Type 0 where
  pub success : Bool
  pub process : P
  pub acts : List (Act P)

unfoldable pub and_then : {P : Type 0} → Attempt P → (State P → Attempt P) → Attempt P
and_then (ready s) f = f s
and_then (failed s) f = failed s

unfoldable pub start : {P : Type 0} → Part → State P → State P
start part s = record s { alive = part ∷ s.alive; acts = s.acts ++ started part s.process ∷ [] }

abbrev pub is_tcp : Option ModbusTcpServerConfig → Bool
is_tcp none = false
is_tcp (some cfg) = true

-- A slave before its constructor.
abbrev pub new_server : MeterSlaveConfig → SignalHandler → Server
new_server cfg h = record {
  slave = record {
    use_float_model = cfg.use_float_model;
    regs = none;
    device_updated = false;
    handler = h;
  };
  listen_ctx = false;
  server_socket = none;
}

-- A constructor has returned, or thrown.
unfoldable pub constructed : {P : Type 0} → Part → Bool → State P → Attempt P
unfolding start
constructed part true s = ready (start part s)
constructed part false s = failed s

abbrev is_ok : Result (Unit {0}) → Bool
is_ok (ok _) = true
is_ok (err e) = false

module _ (ops : RealOps) {P : Type 0} where
  unfoldable pub start_slave : Option MeterSlaveConfig → Environment → State P → Attempt P
  unfolding constructed
  start_slave none env s = ready s
  start_slave (some cfg) env s =
      let (result, server) =
        Listener.construct ops (is_tcp cfg.tcp) (pos_part cfg.slave_id) env
          (new_server cfg s.handler) in
      constructed slave (is_ok result) (record s { handler = server.slave.handler })

unfoldable pub start_mqtt : {P : Type 0} → MqttConfig → Answers → State P → Attempt P
unfolding constructed
start_mqtt cfg answers s = constructed mqtt (Lifetime.construct cfg answers).0 s

-- The constructor of the master only starts its thread; the callbacks are set behind it.
unfoldable pub start_master : {P : Type 0} → State P → Attempt P
unfolding start
start_master s =
    let s' = start master s in ready (record s' { acts = s'.acts ++ callbacks_set ∷ [] })

-- The destructors run in the reverse order of the pointers.
abbrev pub destroy_all : {P : Type 0} → List Part → Bool → List (Act P)
destroy_all [] running = []
destroy_all (part ∷ parts) running = destroyed part running ∷ destroy_all parts running

unfoldable pub stop_by : Option ℕ → SignalHandler → SignalHandler
stop_by none h = shutdown h
stop_by (some sig) h = on_signal sig h

-- Behind the `try` block.
unfoldable pub finish : {P : Type 0} → Option ℕ → Attempt P → Ran P
finish signalled (failed s) =
    let h = shutdown s.handler in
    record {
      success = false;
      process = s.process;
      acts = s.acts ++ destroy_all s.alive (is_running h);
    }
finish signalled (ready s) =
    let h = stop_by signalled s.handler in
    record {
      success = true;
      process = s.process;
      acts = s.acts ++ waited ∷ destroy_all s.alive (is_running h);
    }

module _ (os : Os) where
  open os use {Process}

  -- The log message names the user and the group, which may throw.
  unfoldable pub log_user : Option Bytes → Option Bytes → State Process → Attempt Process
  log_user (some user) (some group) s = ready s
  log_user _ _ s = failed s

  unfoldable pub after_drop : Outcome Process → State Process → Attempt Process
  unfolding log_user
  after_drop (threw f p) s = failed (record s { process = p })
  after_drop (returned p) s =
      log_user (get_current_user os p) (get_current_group os p) (record s { process = p })

  unfoldable pub drop_privileges : Bytes → Bytes → State Process → Attempt Process
  drop_privileges user group s =
      if not (is_empty user) && is_root os s.process
      then after_drop (drop os user group s.process) s
      else ready s

  module _ (ops : RealOps) where
    unfoldable pub try_block :
        AppConfig ops.Real → World → Bytes → Bytes → State Process → Attempt Process
    try_block cfg world user group s =
        and_then
          (and_then
            (and_then (start_slave ops cfg.meter.slave world.slave_answers s)
              (drop_privileges user group))
            (start_mqtt cfg.mqtt world.mqtt_answers))
          start_master

    abbrev pub initial : Process → State Process
    initial p = record { process = p; handler = init; alive = []; acts = [] }

    abbrev pub refused : Process → Ran Process
    refused p = record { success = false; process = p; acts = [] }

    unfoldable pub run_main : AppConfig ops.Real → World → Bytes → Bytes → Process → Ran Process
    unfolding try_block finish
    run_main cfg world user group p =
        if not (is_root os p) && not (is_empty user)
        then refused p
        else finish world.signalled (try_block cfg world user group (initial p))

    -- `main` behind the command line; a configuration that `loadConfig` refuses is none.
    unfoldable pub main :
        Option (AppConfig ops.Real) → World → Bytes → Bytes → Process → Ran Process
    unfolding run_main
    main none world user group p = refused p
    main (some cfg) world user group p = run_main cfg world user group p
