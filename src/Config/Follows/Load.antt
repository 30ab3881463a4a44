-- ===== src/Config/Follows/Load.antt =====
-- CCoinConfig::load and CPoolFrontendConfig::load follow the decoder.
use poolfrontend.Prelude.{subst, true, false, ◌≡◌, String, Option, none, some, []}
use poolfrontend.Json.{Json}
use poolfrontend.Config.Types.{CoinConfig, PoolFrontendConfig}
use poolfrontend.Config.Loader.{
  ErrorType, ok, not_exists, type_mismatch, Outcome, next, returned, leave, set_error_description,
}
use poolfrontend.Config.Readers.{
  json_parse_string, json_parse_string_or, json_parse_boolean, json_parse_boolean_or,
  json_parse_uint, json_parse_uint_or, json_parse_double_or,
}
use poolfrontend.Config.Coin.{load_coin, check_mining_addresses}
use poolfrontend.Config.Frontend.{load_settings, load_frontend, load, Loaded, finish, is_ok}
use poolfrontend.Config.Decode.{each, holds}
use poolfrontend.Config.Decode.Schema.{coin_of, settings_of, frontend_of}
use poolfrontend.Config.Follows.{Follows, FollowsAt, IsError}
use poolfrontend.Config.Follows.Readers.{Follows-test}
use poolfrontend.Config.Follows.Parts.{
  loader_rules, Follows-load_instance, Follows-load_node, Follows-load_fee,
  Follows-load_mining_address,
}

module _ (j : Json) where
  open j use {Value, Double}

  pub Follows-load_settings :
      (object : Value) (config : PoolFrontendConfig Value Double)
      → Follows (load_settings j object config) (settings_of j object config.coins config.instances)
  unfolding load_settings settings_of json_parse_string json_parse_string_or json_parse_uint
      json_parse_uint_or json_parse_boolean json_parse_boolean_or
  Follows-load_settings object config = search loader_rules depth 60

  Follows-check_mining_addresses :
      (value : Value) (place : String) (c : CoinConfig Double)
      → Follows
          (check_mining_addresses j value place c)
          (holds j j.is_array value "miningAddresses")
  unfolding check_mining_addresses holds leave set_error_description
  Follows-check_mining_addresses value place c = Follows-test _ _ (λ st. tt)

  pub Follows-load_coin : (value : Value) → Follows (load_coin j value) (coin_of j value)
  unfolding load_coin coin_of json_parse_string json_parse_string_or json_parse_uint
      json_parse_uint_or json_parse_double_or each
  Follows-load_coin value =
      search
        (
          loader_rules,
          Follows-load_node j,
          Follows-load_fee j,
          Follows-load_mining_address j,
          Follows-check_mining_addresses,
        )
        depth 60

  Follows-load_settings_empty :
      (object : Value) (config : PoolFrontendConfig Value Double)
      → config.coins ≡ []
      → config.instances ≡ []
      → Follows (load_settings j object config) (settings_of j object [] [])
  Follows-load_settings_empty object config ec ei =
      subst (λ cs. Follows (load_settings j object config) (settings_of j object cs [])) ec
        (subst
          (λ is. Follows (load_settings j object config) (settings_of j object config.coins is)) ei
          (Follows-load_settings object config))

  Follows-load_frontend :
      (document : Value) (config : PoolFrontendConfig Value Double)
      → config.coins ≡ []
      → config.instances ≡ []
      → Follows (load_frontend j document config) (frontend_of j document)
  unfolding load_frontend frontend_of each
  Follows-load_frontend document config ec ei =
      let settings = λ (object : Value). Follows-load_settings_empty object config ec ei in
      search (loader_rules, Follows-load_coin, Follows-load_instance j, settings) depth 30

-- What CPoolFrontendConfig::load leaves when the file has the schema, and when it has not.
pub data Loads (j : Json) (description : String)
    : Option (PoolFrontendConfig j.Value j.Double) → Loaded j.Value j.Double → Type 0 where
  accepts :
      (config : PoolFrontendConfig j.Value j.Double)
      → Loads j description
          (some config)
          (record { accepted = true; config = config; error_description = description })
  rejects :
      (config : PoolFrontendConfig j.Value j.Double) (error_description : String)
      → Loads j description none
          (record { accepted = false; config = config; error_description = error_description })

module _ (j : Json) (description : String) where
  finish_error :
      (e : ErrorType) (d : String) (config : PoolFrontendConfig j.Value j.Double)
      → IsError e
      → Loads j description none (finish j (next config (record { error = e; description = d })))
  unfolding finish is_ok
  finish_error ok d config h = absurd h
  finish_error not_exists d config h = rejects config d
  finish_error type_mismatch d config h = rejects config d

  finish-Loads :
      (out : Outcome (PoolFrontendConfig j.Value j.Double) (PoolFrontendConfig j.Value j.Double))
      (o : Option (PoolFrontendConfig j.Value j.Double))
      → FollowsAt ok (record { error = ok; description = description }) out o
      → Loads j description o (finish j out)
  unfolding finish is_ok
  finish-Loads out (some config) h = rw h (accepts config)
  finish-Loads (next config st) none h = finish_error st.error st.description config h
  finish-Loads (returned config st) none h = rejects config st.description

  -- Started on a configuration without coins and instances, `load` accepts just the files that have
  -- the schema, with the values decoded and the description left as it was.
  pub load-Loads :
      (document : j.Value) (config : PoolFrontendConfig j.Value j.Double)
      → config.coins ≡ []
      → config.instances ≡ []
      → Loads j description (frontend_of j document) (load j document config description)
  unfolding load
  load-Loads document config ec ei = finish-Loads _ _ (
      (Follows-load_frontend j document config ec ei).at
        (record { error = ok; description = description }))
