-- ===== src/Decoder/Settings.antt =====
-- The part of `Decoder::init` of src/decoder.cc that checks the keys of the user's configuration
-- and makes the one that goes to the `setup` of each module, with ConfigDef and `define_config` of
-- src/module.hpp and src/module.cc.
pub mod Choice
pub mod Keys
use Prim.Native.String.{String, ◌++◌ as ◌<>◌}
use text.Mathlib.Text.{◌==◌}
use text.Mathlib.TextEquality.{eq_iff}
use packetmachine.Base.{
  ℕ, ◌≡◌, ◌⊎◌, ◌↔◌, ◌∙◌, sym, refl, ap, Bool, true, false, Bool-cases, inl, inr, Option, none, some,
  Option-cases, List, [], ◌∷◌, ◌++◌, arith, if◌then◌else◌, Outcome, ok, throw, fault, config_error,
  ◌>>=◌,
}
use packetmachine.Value.Maps.{Map, lookup, find, insert, lookup-append}
use packetmachine.Config.{
  pos, int, bool, ConfigValue, Config, set_ptr, has, is_there, get, value_at, lookup-put,
}

-- `module_id` is none until `finalize` gives it.
pub record ConfigDef : Type 0 where
  pub module_id : Option ℕ
  pub name : String
  pub local_name : String
  pub default_value : Option ConfigValue

unfoldable pub construct_def : String → ConfigDef
construct_def local_name = record {
  module_id = none;
  name = "";
  local_name = local_name;
  default_value = none;
}

unfoldable pub set_default : ConfigDef → ConfigValue → ConfigDef
set_default def val = record def { default_value = some val }

unfoldable pub finalize : ConfigDef → ℕ → String → ConfigDef
finalize def mod_id prefix = record def {
  module_id = some mod_id;
  name = (prefix <> ".") <> def.local_name;
}

-- The name and the definition, after the assertion that the name is new.
unfoldable pub add_def :
    List (String × ConfigDef) → String → ConfigDef → Outcome (List (String × ConfigDef))
unfolding lookup
add_def defs name def = elim (lookup defs name) [
  | none ↦ ok (defs ++ ((name, def) ∷ []))
  | some old ↦ fault
]

-- `define_config` without a default, and with one.
unfoldable pub define_config :
    List (String × ConfigDef) → String → Outcome (List (String × ConfigDef))
unfolding add_def construct_def
define_config defs name = add_def defs name (construct_def name)

unfoldable pub define_default :
    List (String × ConfigDef) → String → ConfigValue → Outcome (List (String × ConfigDef))
unfolding add_def construct_def set_default
define_default defs name val = add_def defs name (set_default (construct_def name) val)

-- What the constructor of TCP in src/modules/tcp.cc defines.
unfoldable pub tcp_configs : Outcome (List (String × ConfigDef))
unfolding define_default
tcp_configs = do
  defs1 ← define_default [] "enable_session_mgmt" (bool "enable_session_mgmt" true)
  defs2 ← define_default defs1 "session_table_size" (int "session_table_size" (pos 65521))
  define_default defs2 "session_timeout" (int "session_timeout" (pos 300))

-- What `Decoder::init` needs of a module: its id, name and `config_map`.
pub record ModuleConfigs : Type 0 where
  pub id : ℕ
  pub name : String
  pub config_map : List (String × ConfigDef)

unfoldable pub finalize_all : ℕ → String → List (String × ConfigDef) → List (String × ConfigDef)
unfolding finalize
finalize_all mod_id prefix [] = []
finalize_all mod_id prefix ((k, d) ∷ rest) =
    (k, finalize d mod_id prefix) ∷ finalize_all mod_id prefix rest

-- The loop that fills `config_map_` from the definitions of one module, and from all.
unfoldable pub add_names : Map ConfigDef → List (String × ConfigDef) → Map ConfigDef
unfolding insert
add_names map [] = map
add_names map ((k, d) ∷ rest) = add_names (insert map d.name d) rest

unfoldable pub config_names : Map ConfigDef → List ModuleConfigs → Map ConfigDef
unfolding add_names finalize_all
config_names map [] = map
config_names map (m ∷ rest) =
    config_names (add_names map (finalize_all m.id m.name m.config_map)) rest

unfoldable pub is_def : Option ConfigDef → Bool
is_def none = false
is_def (some d) = true

-- The loop that checks the keys; it ends with the same configuration.
unfoldable pub check_keys : Map ConfigDef → Config → List (String × ConfigValue) → Outcome Config
unfolding find is_def
check_keys map config [] = ok config
check_keys map config ((key, val) ∷ rest) =
    let more = check_keys map config rest in
    if is_def (find map key) then more else throw config_error

-- The definition's default, if there is one, where the user has given no value.
unfoldable pub set_or_skip : Config → String → Option ConfigValue → Config
unfolding set_ptr
set_or_skip local name none = local
set_or_skip local name (some val) = set_ptr local name val

unfoldable pub choose : Config → Config → ConfigDef → Outcome Config
unfolding has get set_ptr set_or_skip
choose config local def =
    let given = get config def.name >>= λ val. ok (set_ptr local def.local_name val) in
    let default = ok (set_or_skip local def.local_name def.default_value) in
    if has config def.name then given else default

-- The loop over the definitions of one module, which makes its `local_config`.
unfoldable pub choose_all : Config → Config → List (String × ConfigDef) → Outcome Config
unfolding choose
choose_all config local [] = ok local
choose_all config local ((k, d) ∷ rest) =
    choose config local d >>= λ local1. choose_all config local1 rest

unfoldable pub local_config : Config → ModuleConfigs → Outcome Config
unfolding choose_all finalize_all
local_config config m =
    choose_all config (record { kv_map = [] }) (finalize_all m.id m.name m.config_map)
