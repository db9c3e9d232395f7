-- ===== src/Logging/Tests.antt =====
-- Loggers on concrete data, and the theorem at an input that meets its hypotheses.
use smartmeter_gateway.Prelude.{
  ℕ, false, List, [], ◌∷◌, ◌≡◌, refl, ◌∙◌, Option, none, some, if◌then◌else◌, Bytes, bytes_eq,
  bytes_lt, codes,
}
use smartmeter_gateway.SortedMap.{lookup, insert, get_or, lookup-insert}
use smartmeter_gateway.Real.Whole.{whole}
use smartmeter_gateway.Config.{Level, error, warn, debug, LoggerConfig}
use smartmeter_gateway.Config.Tests.{is_in}
use smartmeter_gateway.Config.Yaml.{YamlOps}
use smartmeter_gateway.Config.Parse.{parse_log_level}
use smartmeter_gateway.Config.Load.{parse_logger, add_modules, add_module, add_submodules}
use smartmeter_gateway.Logging.{Spdlog, setup_logging, level_for}
use smartmeter_gateway.Logging.Levels.{IsSpdlog, setup_logging-level_for}

-- A registry that is a map of levels with the default one.
abbrev Levels : Type 0
Levels = List (Bytes × Level)

register_new : Bytes → Level → Levels × Level → Option Level → Option (Levels × Level)
register_new name l r none = some (insert name l r.0, r.1)
register_new name l r (some old) = none

abbrev registry : Spdlog
registry = record {
  Registry = Levels × Level;
  set_default = λ l r. (insert [] l r.0, l);
  register = λ name l r. register_new name l r (lookup name r.0);
  get = λ name r. lookup name r.0;
  default_level = λ r. r.1;
}

registry-IsSpdlog : IsSpdlog registry
unfolding register_new
registry-IsSpdlog = record {
  default_set = λ l r. refl;
  default_kept = λ l r name h. lookup-insert [] name l r.0 ∙ rw h;
  registered =
      λ name l r h. ((insert name l r.0, r.1), rw h, λ j. lookup-insert name j l r.0, refl);
}

-- `level: warn`, and below `modules` the entries `mqtt: debug` and `meter: {master: error}`.
abbrev sections : List Bytes
sections = codes "logger" ∷ codes "level" ∷ codes "modules" ∷ []

abbrev yaml : YamlOps ℕ
yaml = record {
  Node = Bytes;
  get = λ p key. some key;
  defined = λ p. is_in p sections;
  is_map = λ p. bytes_eq p (codes "meter levels");
  entries = λ p. some (
      if bytes_eq p (codes "modules")
      then (codes "mqtt", codes "debug") ∷ (codes "meter", codes "meter levels") ∷ []
      else (codes "master", codes "error") ∷ []);
  as_string = λ p. some (if bytes_eq p (codes "level") then codes "warn" else p);
  as_string_or = λ p d. d;
  as_int_or = λ p d. d;
  as_size_or = λ p d. d;
  as_bool_or = λ p d. d;
  as_double_or = λ p d. d;
}

abbrev cfg : LoggerConfig
cfg = record {
  global_level = warn;
  module_levels = (codes "meter.master", error) ∷ (codes "mqtt", debug) ∷ [];
}

parsed : parse_logger whole yaml (codes "logger") ≡ some cfg
unfolding parse_logger add_modules add_module add_submodules parse_log_level insert bytes_eq
    bytes_lt
parsed = refl

setup_logging-level_for_example :
    (r : Levels × Level) × (setup_logging registry cfg ([], warn) ≡ some r)
    × ((name : Bytes)
        → bytes_eq [] name ≡ false
        → level_for registry name r ≡ get_or name cfg.module_levels cfg.global_level)
unfolding lookup bytes_eq
setup_logging-level_for_example =
    setup_logging-level_for registry registry-IsSpdlog whole yaml (codes "logger") cfg ([], warn)
      parsed refl (λ j h. refl)

-- The master has its own level, the slave that of the default logger.
levels_read :
    (get_or (codes "meter.master") cfg.module_levels cfg.global_level ≡ error)
    × (get_or (codes "meter.slave") cfg.module_levels cfg.global_level ≡ warn)
unfolding get_or lookup bytes_eq
levels_read = (refl, refl)
