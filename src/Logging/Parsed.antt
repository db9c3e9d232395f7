-- ===== src/Logging/Parsed.antt =====
-- The levels that the parser collects stand in the order of their names.
use smartmeter_gateway.Prelude.{
  not, List, [], ◌∷◌, ◌≡◌, Option, none, some, ◌>>=◌, ◌++◌, if_both, Bytes, codes,
}
use smartmeter_gateway.SortedMap.Order.{IsOrdered, insert-IsOrdered}
use smartmeter_gateway.Real.{RealOps}
use smartmeter_gateway.Config.{Level, LoggerConfig}
use smartmeter_gateway.Config.Yaml.{YamlOps}
use smartmeter_gateway.Config.Parse.{parse_log_level}
use smartmeter_gateway.Config.Valid.{IfThere}
use smartmeter_gateway.Config.Load.{add_submodules, add_module, add_modules, parse_logger}

abbrev pub Levels : Type 0
Levels = List (Bytes × Level)

-- What holds of every result of a chain.
bind-IfThere :
    {A B : Type 0} (P : B → Type 0) (o : Option A) (f : A → Option B)
    → ((a : A) → IfThere P (f a))
    → IfThere P (o >>= f)
bind-IfThere P none f h = tt
bind-IfThere P (some a) f h = h a

chain-IfThere :
    {A B : Type 0} (Q : A → Type 0) (P : B → Type 0) (o : Option A) (f : A → Option B)
    → IfThere Q o
    → ((a : A) → Q a → IfThere P (f a))
    → IfThere P (o >>= f)
chain-IfThere Q P none f q h = tt
chain-IfThere Q P (some a) f q h = h a q

some-IfThere : {A : Type 0} (P : A → Type 0) (o : Option A) (a : A) → o ≡ some a → IfThere P o → P a
some-IfThere P o a e h = rw e at h

module _ (ops : RealOps) (yaml : YamlOps ops.Real) where
  open yaml use {Node, get, defined, is_map, entries, as_string}

  abbrev AreOrdered : Option Levels → Type 0
  AreOrdered o = IfThere IsOrdered o

  add_submodules-AreOrdered :
      (key : Bytes) (es : List (Node × Node)) (m : Levels)
      → IsOrdered m
      → AreOrdered (add_submodules ops yaml key es m)
  unfolding add_submodules
  add_submodules-AreOrdered key [] m o = o
  add_submodules-AreOrdered key ((k, v) ∷ es) m o =
      bind-IfThere IsOrdered (as_string k) _ (λ subkey.
        bind-IfThere IsOrdered (as_string v >>= parse_log_level) _ (λ level.
          add_submodules-AreOrdered key es _ (insert-IsOrdered (key ++ b'.' ∷ subkey) level m o)))

  add_module-AreOrdered :
      (key : Bytes) (v : Node) (m : Levels) → IsOrdered m → AreOrdered (add_module ops yaml key v m)
  unfolding add_module
  add_module-AreOrdered key v m o =
      if_both AreOrdered (is_map v) _ _
        (bind-IfThere IsOrdered (entries v) _ (λ subs. add_submodules-AreOrdered key subs m o))
        (bind-IfThere IsOrdered (as_string v >>= parse_log_level) _
          (λ level. insert-IsOrdered key level m o))

  add_modules-AreOrdered :
      (es : List (Node × Node)) (m : Levels) → IsOrdered m → AreOrdered (add_modules ops yaml es m)
  unfolding add_modules
  add_modules-AreOrdered [] m o = o
  add_modules-AreOrdered ((k, v) ∷ es) m o = bind-IfThere IsOrdered (as_string k) _ (λ key.
      chain-IfThere IsOrdered IsOrdered (add_module ops yaml key v m) _
        (add_module-AreOrdered key v m o) (add_modules-AreOrdered es))

  pub parse_logger-IsOrdered :
      (n : Node) (cfg : LoggerConfig)
      → parse_logger ops yaml n ≡ some cfg
      → IsOrdered cfg.module_levels
  unfolding parse_logger
  parse_logger-IsOrdered n cfg e =
      some-IfThere (λ c. IsOrdered c.module_levels) _ cfg e
        (if_both (IfThere (λ c. IsOrdered c.module_levels)) (not (defined n)) _ _ tt (
          bind-IfThere _ (get n (codes "level") >>= _) _ (λ level.
            chain-IfThere IsOrdered _ (get n (codes "modules") >>= _) _
              (bind-IfThere IsOrdered (get n (codes "modules")) _ (λ mods.
                if_both AreOrdered (defined mods) _ _
                  (bind-IfThere IsOrdered (entries mods) _ (λ es. add_modules-AreOrdered es [] tt))
                  tt))
              (λ levels o. o))))
