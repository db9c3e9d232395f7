-- ===== src/Config/Yaml.antt =====
-- What src/config_yaml.cpp uses of yaml-cpp, a parameter of the parsers.
use smartmeter_gateway.Prelude.{ℕ, Bool, Option, Bytes, List}
use smartmeter_gateway.Prelude.Int.{ℤ}

-- A call gives none where it throws. `R` stands for `double`.
pub record YamlOps (R : Type 0) : Type 1 where
  pub Node : Type 0
  -- `node[key]`, `if (node)`, `IsMap` and the iteration over a map.
  pub get : Node → Bytes → Option Node
  pub defined : Node → Bool
  pub is_map : Node → Bool
  pub entries : Node → Option (List (Node × Node))
  -- `as<std::string>()`.
  pub as_string : Node → Option Bytes
  -- `as<T>(fallback)`.
  pub as_string_or : Node → Bytes → Bytes
  pub as_int_or : Node → ℤ → ℤ
  pub as_size_or : Node → ℕ → ℕ
  pub as_bool_or : Node → Bool → Bool
  pub as_double_or : Node → R → R
