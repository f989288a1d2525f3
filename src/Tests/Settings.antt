-- ===== src/Tests/Settings.antt =====
-- Configurations, and the options of the module for TCP.
use Prim.Native.String.{String}
use packetmachine.Base.{
  ◌≡◌, refl, true, none, some, List, [], ◌∷◌, ok, throw, type_error, config_error, ◌>>=◌, ◌↔◌, ◌⊎◌,
}
use packetmachine.Value.Maps.{Map, find}
use packetmachine.Config.{
  pos, negsuc, int, bool, ConfigValue, Config, as_int, as_str, as_bool, set_int, set_true, has, get,
  value_at, get-set_int,
}
use packetmachine.Decoder.Settings.{
  ConfigDef, ModuleConfigs, tcp_configs, config_names, check_keys, finalize, is_def, local_config,
}
use packetmachine.Decoder.Settings.Choice.{IsKeyed, local_config-get}
use packetmachine.Decoder.Settings.Keys.{check_keys_lem}

abbrev given : Config
given = record { kv_map = ("TCP.session_timeout", int "TCP.session_timeout" (pos 60)) ∷ [] }

get-set_int_example :
    ((get (set_int given "size" (negsuc 4)) "size" >>= as_int) ≡ ok (negsuc 4))
    × ((get (set_int given "size" (negsuc 4)) "size" >>= as_str) ≡ throw type_error)
    × ((get (set_int given "size" (negsuc 4)) "size" >>= as_bool) ≡ throw type_error)
    × (get (set_int given "size" (negsuc 4)) "TCP.session_timeout"
        ≡ get given "TCP.session_timeout")
    × (has (set_int given "size" (negsuc 4)) "TCP.session_timeout"
        ≡ has given "TCP.session_timeout")
get-set_int_example = get-set_int given "size" "TCP.session_timeout" (negsuc 4) refl

abbrev option : String → ConfigValue → ConfigDef
option name val = record {
  module_id = none;
  name = "";
  local_name = name;
  default_value = some val;
}

abbrev timeout : ConfigDef
timeout = option "session_timeout" (int "session_timeout" (pos 300))

abbrev defined : List (String × ConfigDef)
defined =
    ("enable_session_mgmt", option "enable_session_mgmt" (bool "enable_session_mgmt" true))
    ∷ ("session_table_size", option "session_table_size" (int "session_table_size" (pos 65521)))
    ∷ ("session_timeout", timeout)
    ∷ []

tcp_configs_lem : tcp_configs ≡ ok defined
unfolding tcp_configs
tcp_configs_lem = refl

abbrev tcp : ModuleConfigs
tcp = record { id = 10; name = "TCP"; config_map = defined }

local_config-get_example :
    (local_config given tcp >>= λ local. get local "session_timeout")
    ≡ ok (int "TCP.session_timeout" (pos 60))
unfolding IsKeyed value_at finalize
local_config-get_example =
    local_config-get given tcp "session_timeout" timeout
      (refl, refl, (refl, refl, (refl, refl, tt))) refl

abbrev known : Map ConfigDef
known = config_names (record { map = [] }) (tcp ∷ [])

check_keys_lem_example :
    ((check_keys known given given.kv_map ≡ ok given)
      ↔ ((key : String) → has given key ≡ true → is_def (find known key) ≡ true))
    × ((check_keys known given given.kv_map ≡ ok given)
        ⊎ (check_keys known given given.kv_map ≡ throw config_error))
check_keys_lem_example = check_keys_lem known given

given_passes : check_keys known given given.kv_map ≡ ok given
unfolding check_keys config_names
given_passes = refl

unknown_throws :
    check_keys known (set_true given "TCP.no_option") (set_true given "TCP.no_option").kv_map
    ≡ throw config_error
unfolding check_keys set_true config_names
unknown_throws = refl
