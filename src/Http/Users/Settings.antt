-- ===== src/Http/Users/Settings.antt =====
-- onUserGetSettings and onUserUpdateSettings of http.cpp: the payout settings of each coin.
use poolfrontend.Prelude.{false, true, Option, none, some, [], ◌∷◌, map}
use poolfrontend.Json.{Json}
use poolfrontend.Http.Out.{Out, obj, arr, str, boolean, null}
use poolfrontend.Http.Services.{Services}
use poolfrontend.Http.Types.{UserSettings, UserWithAccessRights, CoinInfo}
use poolfrontend.Http.Handler.{
  Handler, ◌>>=◌, ◌>>◌, reply, page, start_call, require, require_some, require_valid,
  update_settings,
}
use poolfrontend.Http.Fields.{json_parse_string, json_parse_string_or, json_parse_boolean}

module _ (j : Json) (s : Services j) where
  open j use {Value, Double}

  unfoldable pub settings_out : CoinInfo → Option UserSettings → Out Double
  settings_out coin none = obj (
      ("name", str coin.name)
      ∷ ("address", null)
      ∷ ("payoutThreshold", null)
      ∷ ("autoPayoutEnabled", boolean false)
      ∷ [])
  settings_out coin (some settings) = obj (
      ("name", str coin.name)
      ∷ ("address", str settings.address)
      ∷ ("payoutThreshold", str (s.format_money settings.minimal_payout coin.rational_part_size))
      ∷ ("autoPayoutEnabled", boolean settings.auto_payout)
      ∷ [])

  unfoldable pub session_settings_out : Option UserWithAccessRights → Out Double
  unfolding settings_out
  session_settings_out none = obj (("status", str "unknown_id") ∷ [])
  session_settings_out (some token_info) = obj (
      ("status", str "ok")
      ∷ (
        "coins",
        arr (
            map (λ coin. settings_out coin (s.get_user_coin_settings token_info.login coin.name))
              s.coin_info),
      )
      ∷ [])

  unfoldable pub on_user_get_settings : Value → Handler j s ⊥
  on_user_get_settings document = do
    session_id ← json_parse_string document "id" ""
    target_login ← json_parse_string_or document "targetLogin" "" ""
    require_valid
    reply (page (session_settings_out (s.validate_session session_id target_login false)))

  unfoldable pub on_user_update_settings : Value → Handler j s ⊥
  on_user_update_settings document = do
    session_id ← json_parse_string document "id" ""
    target_login ← json_parse_string_or document "targetLogin" "" ""
    coin ← json_parse_string document "coin" ""
    address ← json_parse_string document "address" ""
    payout_threshold ← json_parse_string document "payoutThreshold" ""
    auto_payout ← json_parse_boolean document "autoPayoutEnabled" false
    totp ← json_parse_string_or document "totp" "" ""
    require_valid
    coin_info ← require_some (s.find_coin coin) "invalid_coin"
    minimal_payout ←
        require_some (s.parse_money_value payout_threshold coin_info.rational_part_size)
          "request_format_error"
    require (s.check_address coin_info address) "invalid_address"
    token_info ← require_some (s.validate_session session_id target_login true) "unknown_id"
    start_call (
        update_settings
          (record {
            login = token_info.login;
            coin = coin;
            address = address;
            minimal_payout = minimal_payout;
            auto_payout = auto_payout;
          })
          totp)
