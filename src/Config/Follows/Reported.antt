-- ===== src/Config/Follows/Reported.antt =====
-- The load functions report an error with a message.
use poolfrontend.Prelude.{false, ◌≡◌, String, arith}
use poolfrontend.Json.{Json}
use poolfrontend.Config.Types.{CoinConfig, PoolFrontendConfig}
use poolfrontend.Config.Loader.{ErrorType, ok, Outcome, next, returned}
use poolfrontend.Config.Readers.{
  json_parse_string, json_parse_string_or, json_parse_boolean, json_parse_boolean_or,
  json_parse_uint, json_parse_uint_or, json_parse_double, json_parse_double_or,
}
use poolfrontend.Config.Follows.Reports.{
  IsMessage, Described, no_error, described, DescribedAt, Reports, Reports-pure, Reports-if,
  Reports-leave, report_rules,
}
use poolfrontend.Config.Parts.{load_instance, load_node, load_fee, load_mining_address}
use poolfrontend.Config.Coin.{load_coin, check_mining_addresses}
use poolfrontend.Config.Frontend.{load, load_frontend, load_settings, finish, is_ok}

module _ (j : Json) where
  open j use {Value, Double}

  Reports-parts :
      (value : Value) (path : String)
      → Reports (load_instance j value)
        × Reports (load_node j path value)
        × Reports (load_fee j path value)
        × Reports (load_mining_address j path value)
  unfolding load_instance load_node load_fee load_mining_address json_parse_string
      json_parse_string_or json_parse_boolean_or json_parse_uint json_parse_uint_or
      json_parse_double
  Reports-parts value path = (
    search report_rules depth 20,
    search report_rules depth 20,
    search report_rules depth 20,
    search report_rules depth 20,
  )

  Reports-check_mining_addresses :
      (value : Value) (place : String) (c : CoinConfig Double)
      → Reports (check_mining_addresses j value place c)
  unfolding check_mining_addresses
  Reports-check_mining_addresses value place c =
      Reports-if _ _ _ (Reports-pure tt)
        ((Reports-leave place "miningAddress" "array of objects" c).1)

  Reports-load_coin : (value : Value) → Reports (load_coin j value)
  unfolding load_coin json_parse_string json_parse_string_or json_parse_uint json_parse_uint_or
      json_parse_double_or
  Reports-load_coin value =
      let node = λ (path : String) (v : Value). (Reports-parts v path).1 in
      let fee = λ (path : String) (v : Value). (Reports-parts v path).2 in
      let address = λ (path : String) (v : Value). (Reports-parts v path).3 in
      search (report_rules, Reports-check_mining_addresses, node, fee, address) depth 60

  Reports-load_settings :
      (object : Value) (config : PoolFrontendConfig Value Double)
      → Reports (load_settings j object config)
  unfolding load_settings json_parse_string json_parse_string_or json_parse_uint json_parse_uint_or
      json_parse_boolean json_parse_boolean_or
  Reports-load_settings object config = search report_rules depth 60

  Reports-load_frontend :
      (document : Value) (config : PoolFrontendConfig Value Double)
      → Reports (load_frontend j document config)
  unfolding load_frontend
  Reports-load_frontend document config =
      let instance_ = λ (v : Value). (Reports-parts v "").0 in
      search (report_rules, Reports-load_settings, Reports-load_coin, instance_) depth 30

  Described-IsMessage :
      (e : ErrorType) (d : String) → is_ok j e ≡ false → Described e d → IsMessage d
  unfolding is_ok
  Described-IsMessage ok d h no_error = ground arith
  Described-IsMessage e d h (described m) = m

  finished :
      (out : Outcome (PoolFrontendConfig Value Double) (PoolFrontendConfig Value Double))
      → DescribedAt out
      → (finish j out).accepted ≡ false
      → IsMessage (finish j out).error_description
  unfolding finish
  finished (next config st) d h = Described-IsMessage st.error st.description h d
  finished (returned config st) d h = d

  -- A file that is not accepted is reported with a message about a parameter that is missing or
  -- has the wrong type.
  pub load-IsMessage :
      (document : Value) (config : PoolFrontendConfig Value Double) (description : String)
      → (load j document config description).accepted ≡ false
      → IsMessage (load j document config description).error_description
  unfolding load
  load-IsMessage document config description h =
      finished _
        ((Reports-load_frontend document config).at
          (record { error = ok; description = description }) no_error)
        h
