-- ===== src/Http/Calls/Settings.antt =====
-- onUserUpdateSettings.
use poolfrontend.Prelude.{◌≡◌, refl, subst, true, some, [], ◌∷◌, String}
use poolfrontend.Json.{Json}
use poolfrontend.Http.Services.{Services}
use poolfrontend.Http.Types.{UserWithAccessRights, UserSettings, CoinInfo}
use poolfrontend.Http.Handler.{
  Trace, events, write, start, increment_reference, update_settings, status_reply,
}
use poolfrontend.Http.Handler.Obeys.{
  Obeys, events-Obeys, Obeys-require-bind, Obeys-require_some-bind, Obeys-start_call,
}
use poolfrontend.Http.Access.Rules.{Checks-Obeys, Checks-require_valid}
use poolfrontend.Http.Access.Fields.{
  Checks-json_parse_string, Checks-json_parse_string_or, Checks-json_parse_boolean,
}
use poolfrontend.Prelude.Int.{ℤ}
use poolfrontend.Http.Fields.{json_parse_string, json_parse_string_or, json_parse_boolean}
use poolfrontend.Http.Handler.Runs.{
  Given, Defaulted, events-Runs, Runs-read, Runs-read_or, Runs-require_valid, Runs-require,
  Runs-require_some, Runs-start_call,
}
use poolfrontend.Http.Calls.{field}
use poolfrontend.Http.Users.Settings.{on_user_update_settings}

-- Settings that may be stored for a user: the coin is known, the payout threshold is a sum of that
-- coin, the address is one of its addresses, and they are the fields of the document.
pub record Checked {j : Json} (s : Services j) (document : j.Value) (user : UserWithAccessRights)
    (settings : UserSettings) : Type 0 where
  pub coin_info : CoinInfo
  pub of_user : settings.login ≡ user.login
  pub coin_field : settings.coin ≡ field j document "coin"
  pub coin_found : s.find_coin settings.coin ≡ some coin_info
  pub payout :
      s.parse_money_value (field j document "payoutThreshold") coin_info.rational_part_size
      ≡ some settings.minimal_payout
  pub address_field : settings.address ≡ field j document "address"
  pub address_checked : s.check_address coin_info settings.address ≡ true
  pub auto_payout_field : settings.auto_payout ≡ j.get_bool (j.member document "autoPayoutEnabled")

-- Either a status alone is written, or the one call stores checked settings for the user whose
-- session was accepted with write access.
pub data Updates {j : Json} {s : Services j} (document : j.Value) : Trace j s → Type 0 where
  refused : (status : String) → Updates document (write (status_reply status) ∷ [])
  updated :
      (settings : UserSettings) (totp target_login : String) (user : UserWithAccessRights)
      → s.validate_session (field j document "id") target_login true ≡ some user
      → Checked s document user settings
      → Updates document (increment_reference ∷ start (update_settings settings totp) ∷ [])

module _ {j : Json} {s : Services j} where
  on_user_update_settings-Obeys :
      (document : j.Value)
      → Obeys {j = j} {s = s} (Updates document) (on_user_update_settings j s document)
  unfolding on_user_update_settings
  on_user_update_settings-Obeys document = Checks-Obeys _ (
      Checks-json_parse_string document "id" _ _ λ id.
        Checks-json_parse_string_or document "targetLogin" _ _ _ λ target_login.
          Checks-json_parse_string document "coin" _ _ λ coin.
            Checks-json_parse_string document "address" _ _ λ address.
              Checks-json_parse_string document "payoutThreshold" _ _ λ payout_threshold.
                Checks-json_parse_boolean document "autoPayoutEnabled" _ _ λ auto_payout.
                  Checks-json_parse_string_or document "totp" _ _ _ λ totp.
                    Checks-require_valid _ (refused _) λ h.
                      Obeys-require_some-bind _ _ _ (refused _) λ coin_info found.
                        Obeys-require_some-bind _ _ _ (refused _) λ minimal_payout parsed.
                          Obeys-require-bind _ _ _ (refused _) λ checked.
                            Obeys-require_some-bind _ _ _ (refused _) λ user accepts.
                              Obeys-start_call _ (
                                updated _ totp target_login user
                                  (subst (λ x. s.validate_session x target_login true ≡ some user)
                                    h.0.0.0.0.1 accepts)
                                  (record {
                                    coin_info = coin_info;
                                    of_user = refl;
                                    coin_field = h.0.0.0.1;
                                    coin_found = found;
                                    payout =
                                        subst
                                          (λ x.
                                            s.parse_money_value x coin_info.rational_part_size
                                            ≡ some minimal_payout)
                                          h.0.1 parsed;
                                    address_field = h.0.0.1;
                                    address_checked = checked;
                                    auto_payout_field = h.1;
                                  })))

module _ (j : Json) (s : Services j) where
  -- For every document, onUserUpdateSettings either writes a status alone, or stores settings that are
  -- checked and are the document's, for the user whose session has write access.
  pub on_user_update_settings-Updates :
      (document : j.Value)
      → Updates {j = j} {s = s} document (events (on_user_update_settings j s document))
  on_user_update_settings-Updates document =
      events-Obeys _ _ (on_user_update_settings-Obeys document)

-- A document that the handler must accept: its fields are there with their types, and it passes the
-- checks, in the order of the code.
pub record Acceptable {j : Json} (s : Services j) (document : j.Value) : Type 0 where
  pub target_login : String
  pub totp : String
  pub coin_info : CoinInfo
  pub minimal_payout : ℤ
  pub user : UserWithAccessRights
  pub id_given : Given j j.is_string document "id"
  pub target_given : Defaulted j j.is_string j.get_string document "targetLogin" "" target_login
  pub coin_given : Given j j.is_string document "coin"
  pub address_given : Given j j.is_string document "address"
  pub threshold_given : Given j j.is_string document "payoutThreshold"
  pub auto_given : Given j j.is_bool document "autoPayoutEnabled"
  pub totp_given : Defaulted j j.is_string j.get_string document "totp" "" totp
  pub coin_found : s.find_coin (field j document "coin") ≡ some coin_info
  pub payout :
      s.parse_money_value (field j document "payoutThreshold") coin_info.rational_part_size
      ≡ some minimal_payout
  pub address_checked : s.check_address coin_info (field j document "address") ≡ true
  pub session_accepted : s.validate_session (field j document "id") target_login true ≡ some user

module _ (j : Json) (s : Services j) (document : j.Value) (a : Acceptable {j = j} s document) where
  abbrev pub accepted_settings : UserSettings
  accepted_settings = record {
    login = a.user.login;
    coin = field j document "coin";
    address = field j document "address";
    minimal_payout = a.minimal_payout;
    auto_payout = j.get_bool (j.member document "autoPayoutEnabled");
  }

  -- A document that is acceptable is not refused: the one call that stores its settings is started.
  pub on_user_update_settings-Acceptable :
      events (on_user_update_settings j s document)
      ≡ increment_reference ∷ start (update_settings accepted_settings a.totp) ∷ []
  unfolding on_user_update_settings json_parse_string json_parse_string_or json_parse_boolean
  on_user_update_settings-Acceptable = events-Runs (
      Runs-read j.is_string j.get_string document "id" _ _ a.id_given (
        Runs-read_or j.is_string j.get_string document "targetLogin" _ _ _ _ a.target_given (
          Runs-read j.is_string j.get_string document "coin" _ _ a.coin_given (
            Runs-read j.is_string j.get_string document "address" _ _ a.address_given (
              Runs-read j.is_string j.get_string document "payoutThreshold" _ _ a.threshold_given (
                Runs-read j.is_bool j.get_bool document "autoPayoutEnabled" _ _ a.auto_given (
                  Runs-read_or j.is_string j.get_string document "totp" _ _ _ _ a.totp_given (
                    Runs-require_valid _ (
                      Runs-require_some _ a.coin_info _ _ a.coin_found (
                        Runs-require_some _ a.minimal_payout _ _ a.payout (
                          Runs-require _ _ _ a.address_checked (
                            Runs-require_some _ a.user _ _ a.session_accepted
                              (Runs-start_call _)))))))))))))
