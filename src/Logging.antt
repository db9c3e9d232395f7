-- ===== src/Logging.antt =====
-- include/logger.h, the loggers that the parts look up, and `onLog` of src/mqtt_client.cpp. What
-- spdlog keeps is a parameter; sinks, patterns and the messages are left out.
pub mod Parsed
pub mod Levels
mod Tests
use smartmeter_gateway.Prelude.{ℕ, List, [], ◌∷◌, Option, none, some, ◌>>=◌, Bytes}
use smartmeter_gateway.Config.{Level, error, warn, info, trace, LoggerConfig}

-- `set_default_logger` with a logger that has no name, `register_logger`, which throws (none) if
-- the name is taken, `get` and `default_logger`, each with the levels of the loggers.
pub record Spdlog : Type 1 where
  pub Registry : Type 0
  pub set_default : Level → Registry → Registry
  pub register : Bytes → Level → Registry → Option Registry
  pub get : Bytes → Registry → Option Level
  pub default_level : Registry → Level

-- The levels of <mosquitto.h>.
pub data MosqLog : Type 0 where
  mosq_debug mosq_info mosq_notice mosq_warning mosq_err : MosqLog
  other : ℕ → MosqLog

unfoldable pub on_log : MosqLog → Level
on_log mosq_debug = trace
on_log mosq_info = info
on_log mosq_notice = info
on_log mosq_warning = warn
on_log mosq_err = error
on_log (other n) = info

module _ (lib : Spdlog) where
  open lib use {Registry, set_default, register, get, default_level}

  -- The loop over the modules.
  unfoldable pub register_all : List (Bytes × Level) → Registry → Option Registry
  register_all [] r = some r
  register_all ((name, level) ∷ m) r = register name level r >>= register_all m

  unfoldable pub setup_logging : LoggerConfig → Registry → Option Registry
  setup_logging cfg r = register_all cfg.module_levels (set_default cfg.global_level r)

  -- The level of the logger that a part uses: the one of its name, or the default one.
  unfoldable pub level_for : Bytes → Registry → Level
  level_for name r = elim (get name r) [ none ↦ default_level r | some level ↦ level ]
