-- ===== src/Logging/Levels.antt =====
-- The levels of the configuration take effect.
use smartmeter_gateway.Prelude.{
  true, false, [], ◌∷◌, ◌≡◌, refl, ap, ◌∙◌, Option, none, some, inl, inr, arith, Bool-cases,
  Option-cases, if◌then◌else◌, Bytes, bytes_eq, bytes_eq_iff, bytes_lt,
}
use smartmeter_gateway.SortedMap.{lookup, get_or}
use smartmeter_gateway.SortedMap.Order.{IsAbove, IsOrdered, lookup-IsAbove, bytes_lt-eq}
use smartmeter_gateway.Real.{RealOps}
use smartmeter_gateway.Config.{Level, LoggerConfig}
use smartmeter_gateway.Config.Yaml.{YamlOps}
use smartmeter_gateway.Config.Load.{parse_logger}
use smartmeter_gateway.Logging.Parsed.{Levels, parse_logger-IsOrdered}
use smartmeter_gateway.Logging.{Spdlog, register_all, setup_logging, level_for}

-- What spdlog's documentation says.
pub record IsSpdlog (lib : Spdlog) : Type 0 where
  pub default_set : (l : Level) (r : lib.Registry) → lib.default_level (lib.set_default l r) ≡ l
  pub default_kept :
      (l : Level) (r : lib.Registry) (name : Bytes)
      → bytes_eq [] name ≡ false
      → lib.get name (lib.set_default l r) ≡ lib.get name r
  pub registered :
      (name : Bytes) (l : Level) (r : lib.Registry)
      → lib.get name r ≡ none
      → (r' : lib.Registry) × (lib.register name l r ≡ some r')
        × ((j : Bytes) → lib.get j r' ≡ (if bytes_eq name j then some l else lib.get j r))
        × (lib.default_level r' ≡ lib.default_level r)

eq_of_lt : (k j : Bytes) → bytes_lt k j ≡ true → bytes_eq k j ≡ false
eq_of_lt k j h = ground (arith, h, bytes_lt-eq k j, bytes_eq_iff k j, bytes_eq_iff j k)

eq_flip : (a b : Bytes) → bytes_eq a b ≡ false → bytes_eq b a ≡ false
eq_flip a b h = ground (arith, h, bytes_eq_iff a b, bytes_eq_iff b a)

abbrev or_else : Option Level → Option Level → Option Level
or_else none o = o
or_else (some l) o = some l

module _ (lib : Spdlog) (documented : IsSpdlog lib) where
  open lib use {Registry, get, default_level}

  abbrev IsFree : Levels → Registry → Type 0
  IsFree [] r = Unit
  IsFree ((k, l) ∷ m) r = (get k r ≡ none) × IsFree m r

  -- All loggers are made, and each name has its own.
  record AreRegistered (m : Levels) (r r' : Registry) : Type 0 where
    made : register_all lib m r ≡ some r'
    levels : (j : Bytes) → get j r' ≡ or_else (lookup j m) (get j r)
    default_same : default_level r' ≡ default_level r

  IsFree-above :
      (k : Bytes) (l : Level) (m : Levels) (r r1 : Registry)
      → IsAbove k m
      → ((j : Bytes) → get j r1 ≡ (if bytes_eq k j then some l else get j r))
      → IsFree m r
      → IsFree m r1
  IsFree-above k l [] r r1 a got f = tt
  IsFree-above k l ((j, v) ∷ m) r r1 a got f =
      (got j ∙ rw (eq_of_lt k j a.0) f.0, IsFree-above k l m r r1 a.1 got f.1)

  level_of_first :
      (k j : Bytes) (l : Level) (m : Levels) (o : Option Level)
      → IsAbove k m
      → or_else (lookup j m) (if bytes_eq k j then some l else o)
        ≡ or_else (if bytes_eq k j then some l else lookup j m) o
  level_of_first k j l m o a = elim (Bool-cases (bytes_eq k j)) [
    | inl e ↦ rw (e, ← (bytes_eq_iff k j).0 e, lookup-IsAbove k m a)
    | inr e ↦ rw e
  ]

  register_all-AreRegistered :
      (m : Levels) (r : Registry)
      → IsOrdered m
      → IsFree m r
      → (r' : Registry) × AreRegistered m r r'
  unfolding register_all lookup
  register_all-AreRegistered [] r o f =
      (r, record { made = refl; levels = λ j. refl; default_same = refl })
  register_all-AreRegistered ((k, l) ∷ m) r o f =
      let (r1, made, got, same) = documented.registered k l r f.0 in
      let (r', a) = register_all-AreRegistered m r1 o.1 (IsFree-above k l m r r1 o.0 got f.1) in
      (
        r',
        record {
          made = rw made a.made;
          levels = λ j.
              a.levels j ∙ ap (or_else (lookup j m)) (got j) ∙ level_of_first k j l m (get j r) o.0;
          default_same = a.default_same ∙ same;
        },
      )

  IsFree-named :
      (m : Levels) (r : Registry) (l : Level)
      → lookup [] m ≡ none
      → ((j : Bytes) → bytes_eq [] j ≡ false → get j r ≡ none)
      → IsFree m (lib.set_default l r)
  unfolding lookup
  IsFree-named [] r l h e = tt
  IsFree-named ((k, v) ∷ m) r l h e = elim (Bool-cases (bytes_eq k [])) [
    | inl same ↦ absurd (ground (arith, same, h))
    | inr other ↦
        let later : lookup [] m ≡ none = rw other at h in
        let other_side = eq_flip k [] other in
        (documented.default_kept l r k other_side ∙ e k other_side, IsFree-named m r l later e)
  ]

  level_found :
      (name : Bytes) (m : Levels) (global : Level) (r : Registry)
      → get name r ≡ or_else (lookup name m) none
      → default_level r ≡ global
      → level_for lib name r ≡ get_or name m global
  unfolding level_for get_or
  level_found name m global r found default = elim (Option-cases (lookup name m)) [
    | inl e ↦ ground (arith, found, e, default)
    | inr (l, e) ↦ ground (arith, found, e)
  ]

  -- If spdlog does what its documentation says and no logger has a name yet, a logger section that
  -- the parser accepts and that gives no level to an empty name sets up the loggers without an
  -- exception, and every part that asks for a logger by its name then logs at the level that the
  -- section gives to this name, or at the global level if it gives none.
  pub setup_logging-level_for :
      (ops : RealOps) (yaml : YamlOps ops.Real) (n : yaml.Node) (cfg : LoggerConfig) (r : Registry)
      → parse_logger ops yaml n ≡ some cfg
      → lookup [] cfg.module_levels ≡ none
      → ((j : Bytes) → bytes_eq [] j ≡ false → get j r ≡ none)
      → (r' : Registry) × (setup_logging lib cfg r ≡ some r')
        × ((name : Bytes)
            → bytes_eq [] name ≡ false
            → level_for lib name r' ≡ get_or name cfg.module_levels cfg.global_level)
  unfolding setup_logging level_for get_or
  setup_logging-level_for ops yaml n cfg r parsed named fresh =
      let start = lib.set_default cfg.global_level r in
      let (r', a) =
        register_all-AreRegistered cfg.module_levels start
          (parse_logger-IsOrdered ops yaml n cfg parsed)
          (IsFree-named cfg.module_levels r cfg.global_level named fresh) in
      let default = a.default_same ∙ documented.default_set cfg.global_level r in
      let unnamed : (name : Bytes) → bytes_eq [] name ≡ false → get name start ≡ none =
        λ name e. documented.default_kept cfg.global_level r name e ∙ fresh name e in
      (
        r',
        a.made,
        λ name e.
            level_found name cfg.module_levels cfg.global_level r'
              (a.levels name ∙ ap (or_else (lookup name cfg.module_levels)) (unnamed name e))
              default,
      )
