-- ===== src/Config/Follows/Parts.antt =====
-- The load functions follow the records that the decoder reads.
use poolfrontend.Prelude.{
  ℕ, List, Bool, true, false, ◌&&◌, ◌≡◌, refl, ap, some, none, str_eq, if◌then◌else◌, String,
}
use poolfrontend.Json.{Json}
use poolfrontend.Config.Readers.{
  json_parse_string, json_parse_string_or, json_parse_boolean_or, json_parse_uint,
  json_parse_uint_or, json_parse_double,
}
use poolfrontend.Config.Types.{InstanceConfig}
use poolfrontend.Config.Loader.{pure}
use poolfrontend.Config.Parts.{
  stratum_share_diff, load_instance, load_node, load_fee, load_mining_address,
}
use poolfrontend.Config.Decode.Schema.{
  or_else, share_diff, instance_of, node_of, fee_of, mining_address_of,
}
use poolfrontend.Config.Decode.{field}
use poolfrontend.Config.Follows.{
  Follows, Follows-bind, Follows-pure, Follows-call, Follows-load_all,
}
use poolfrontend.Config.Follows.Readers.{
  Follows-read, Follows-read_or, Follows-check, Follows-json_parse_string_array,
}

pub ruleset loader_rules = (
  Follows-bind, Follows-pure, Follows-load_all, Follows-read, Follows-read_or, Follows-check,
  Follows-json_parse_string_array,
)

module _ (j : Json) where
  open j use {Value, Double}

  pub Follows-load_fee :
      (path : String) (value : Value) → Follows (load_fee j path value) (fee_of j value)
  unfolding load_fee fee_of json_parse_string json_parse_double
  Follows-load_fee path value = search loader_rules depth 20

  pub Follows-load_node :
      (path : String) (value : Value) → Follows (load_node j path value) (node_of j value)
  unfolding load_node node_of json_parse_string json_parse_string_or json_parse_boolean_or
  Follows-load_node path value = search loader_rules depth 20

  pub Follows-load_mining_address :
      (path : String) (value : Value)
      → Follows (load_mining_address j path value) (mining_address_of j value)
  unfolding load_mining_address mining_address_of json_parse_string json_parse_string_or
      json_parse_uint
  Follows-load_mining_address path value = search loader_rules depth 20

  read_either :
      (there whole fraction : Bool) (a b zero : Double)
      → (if there then (if whole then a else (if fraction then b else zero)) else zero)
        ≡ or_else j
            (if there && whole then some a else none)
            (or_else j (if there && fraction then some b else none) zero)
  unfolding or_else
  read_either false whole fraction a b zero = refl
  read_either true true fraction a b zero = refl
  read_either true false true a b zero = refl
  read_either true false false a b zero = refl

  stratum_share_diff-share_diff :
      (protocol : String) (value : Value)
      → stratum_share_diff j protocol value ≡ share_diff j protocol value
  unfolding stratum_share_diff share_diff field
  stratum_share_diff-share_diff protocol value =
      let v = j.member value "shareDiff" in
      ap (λ x. if str_eq protocol "stratum" then x else j.zero_double)
        (read_either (j.has_member value "shareDiff") (j.is_uint64 v) (j.is_double v)
          (j.double_of (j.get_uint64 v)) (j.get_double v) j.zero_double)

  Follows-pure_instance :
      (name type protocol : String) (backends : List String) (port : ℕ) (value : Value)
      → Follows {C = InstanceConfig Value Double} {A = InstanceConfig Value Double}
          (pure (record {
            name = name;
            type = type;
            protocol = protocol;
            backends = backends;
            port = port;
            stratum_share_diff = stratum_share_diff j protocol value;
            instance_config = value;
          }))
          (some (record {
            name = name;
            type = type;
            protocol = protocol;
            backends = backends;
            port = port;
            stratum_share_diff = share_diff j protocol value;
            instance_config = value;
          }))
  Follows-pure_instance name type protocol backends port value =
      rw (stratum_share_diff-share_diff protocol value) (Follows-pure _)

  pub Follows-load_instance :
      (value : Value) → Follows (load_instance j value) (instance_of j value)
  unfolding load_instance instance_of json_parse_string json_parse_uint_or
  Follows-load_instance value = search (loader_rules, Follows-pure_instance) depth 20
