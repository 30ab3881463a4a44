-- ===== src/Config/Examples.antt =====
-- The loader at concrete configuration files.
use poolfrontend.Prelude.{true, false, refl, ◌≡◌}
use poolfrontend.Json.Sample.{sample_json}
use poolfrontend.Config.Loader.{◌>>=◌, load_all, call, leave, pure, set_error_description}
use poolfrontend.Config.Readers.{
  check, json_parse_boolean, json_parse_uint, json_parse_uint_or, json_parse_string_or,
  json_parse_string, json_parse_boolean_or, json_parse_double, json_parse_double_or,
  json_parse_string_array, read, read_or, read_strings,
}
use poolfrontend.Config.Frontend.{load, load_settings, finish, is_ok, load_frontend}
use poolfrontend.Config.Coin.{load_coin, empty_coin, check_mining_addresses}
use poolfrontend.Config.Decode.Schema.{frontend_of}
use poolfrontend.Config.Follows.Load.{Loads, load-Loads}
use poolfrontend.Config.Follows.Keeps.{load-Keeps, Keeps}
use poolfrontend.Config.Parts.{
  load_instance, load_node, load_fee, load_mining_address, stratum_share_diff,
}
use poolfrontend.Config.Follows.Reports.{IsMessage}
use poolfrontend.Config.Follows.Reported.{load-IsMessage}
use poolfrontend.Config.Sample.{node, coin, document, empty_config}

load_accepts : (load sample_json document empty_config "").accepted ≡ true
unfolding load ◌>>=◌ check load_settings json_parse_boolean json_parse_uint json_parse_uint_or
    json_parse_string_or json_parse_string json_parse_boolean_or load_all load_coin load_node
    load_fee json_parse_double check_mining_addresses load_mining_address json_parse_double_or
    empty_coin finish is_ok load_frontend call leave pure set_error_description load_instance
    stratum_share_diff json_parse_string_array read read_or read_strings
load_accepts = refl

load-Loads_example :
    Loads sample_json ""
      (frontend_of sample_json document)
      (load sample_json document empty_config "")
load-Loads_example = load-Loads sample_json "" document empty_config refl refl

load-Keeps_example :
    Keeps (load_instance sample_json coin)
    × Keeps (load_node sample_json "coins" coin)
    × Keeps (load_fee sample_json "coins" coin)
    × Keeps (load_mining_address sample_json "coins" coin)
load-Keeps_example = load-Keeps sample_json coin "coins"

node_rejected : (load sample_json node empty_config "").accepted ≡ false
unfolding load ◌>>=◌ check load_settings json_parse_boolean json_parse_uint json_parse_uint_or
    json_parse_string_or json_parse_string json_parse_boolean_or load_all load_coin load_node
    load_fee json_parse_double check_mining_addresses load_mining_address json_parse_double_or
    empty_coin finish is_ok load_frontend call leave pure set_error_description load_instance
    stratum_share_diff json_parse_string_array read read_or read_strings
node_rejected = refl

load-IsMessage_example : IsMessage (load sample_json node empty_config "").error_description
load-IsMessage_example = load-IsMessage sample_json node empty_config "" node_rejected
