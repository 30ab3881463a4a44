-- ===== src/Config/Parts.antt =====
-- The load functions of config.cpp for an instance, a node, a fee and a mining address. A record is
-- created by `resize`, which leaves strings empty and numbers 0.
use Prim.Native.String.{◌++◌}
use poolfrontend.Prelude.{true, false, String, str_eq, if◌then◌else◌}
use poolfrontend.Json.{Json}
use poolfrontend.Config.Types.{InstanceConfig, NodeConfig, FeeConfig, MiningAddressConfig}
use poolfrontend.Config.Loader.{Loader, ◌>>=◌, pure}
use poolfrontend.Config.Readers.{
  json_parse_string, json_parse_string_or, json_parse_boolean_or, json_parse_uint,
  json_parse_uint_or, json_parse_double, json_parse_string_array,
}

module _ (j : Json) where
  open j use {Value, Double}

  unfoldable pub stratum_share_diff : String → Value → Double
  stratum_share_diff protocol value =
      if str_eq protocol "stratum"
      then (if j.has_member value "shareDiff"
          then (if j.is_uint64 (j.member value "shareDiff")
              then j.double_of (j.get_uint64 (j.member value "shareDiff"))
              else (if j.is_double (j.member value "shareDiff")
                  then j.get_double (j.member value "shareDiff")
                  else j.zero_double))
          else j.zero_double)
      else j.zero_double

  -- CInstanceConfig::load
  unfoldable pub load_instance :
      Value → Loader (InstanceConfig Value Double) (InstanceConfig Value Double)
  load_instance value = do
    name ← json_parse_string j value "name" "" "instances"
    let local_path = "instances" ++ " -> " ++ name
    type ← json_parse_string j value "type" "" local_path
    protocol ← json_parse_string j value "protocol" "" local_path
    backends ← json_parse_string_array j value "backends" local_path
    port ← json_parse_uint_or j value "port" 0 0 local_path
    pure (record {
      name = name;
      type = type;
      protocol = protocol;
      backends = backends;
      port = port;
      stratum_share_diff = stratum_share_diff protocol value;
      instance_config = value;
    })

  -- CNodeConfig::load
  unfoldable pub load_node : String → Value → Loader NodeConfig NodeConfig
  load_node path value = do
    let local_path = path ++ " -> nodes"
    type ← json_parse_string j value "type" "" local_path
    address ← json_parse_string j value "address" "" local_path
    login ← json_parse_string_or j value "login" "" "" local_path
    password ← json_parse_string_or j value "password" "" "" local_path
    wallet ← json_parse_string_or j value "wallet" "" "" local_path
    long_poll_enabled ← json_parse_boolean_or j value "longPollEnabled" false true local_path
    pure (record {
      type = type;
      address = address;
      login = login;
      password = password;
      wallet = wallet;
      long_poll_enabled = long_poll_enabled;
    })

  -- CFeeConfig::load
  unfoldable pub load_fee : String → Value → Loader (FeeConfig Double) (FeeConfig Double)
  load_fee path value = do
    let local_path = path ++ " -> fees"
    address ← json_parse_string j value "address" "" local_path
    percentage ← json_parse_double j value "percentage" j.zero_double local_path
    pure (record { address = address; percentage = percentage })

  -- One turn of the loop over miningAddresses.
  unfoldable pub load_mining_address :
      String → Value → Loader MiningAddressConfig MiningAddressConfig
  load_mining_address local_path value = do
    address ← json_parse_string j value "address" "" (local_path ++ " -> miningAddresses")
    private_key ← json_parse_string_or j value "privateKey" "" "" (local_path ++ " -> privateKey")
    weight ← json_parse_uint j value "weight" 0 (local_path ++ " -> miningAddresses")
    pure (record { address = address; private_key = private_key; weight = weight })
