-- ===== src/Http/Access/Users.antt =====
-- The account handlers that act only for a session.
use poolfrontend.Prelude.{true, false, ◌≡◌, refl, Option, none, some, [], ◌∷◌, String}
use poolfrontend.Json.{Json}
use poolfrontend.Http.Services.{Services}
use poolfrontend.Http.Types.{UserWithAccessRights}
use poolfrontend.Http.Handler.{write, page}
use poolfrontend.Http.Handler.Obeys.{
  Obeys, Obeys-reply, handler_rules, Obeys-require_some-bind, Obeys-require-bind,
}
use poolfrontend.Http.Access.{Allowed, refused, accepted, anybody, session_id}
use poolfrontend.Http.Access.Rules.{Checks-Obeys, Checks-require_valid}
use poolfrontend.Http.Access.Fields.{
  Checks-json_parse_string, Checks-json_parse_boolean, Checks-json_parse_string_or,
}
use poolfrontend.Http.Users.{on_user_get_credentials, session_credentials_out}
use poolfrontend.Http.Users.Settings.{
  on_user_get_settings, session_settings_out, on_user_update_settings,
}

module _ {j : Json} {s : Services j} where
  session_credentials_out-Allowed :
      {id session : String} (target : String)
      → session ≡ id
      → (o : Option UserWithAccessRights) → s.validate_session session target false ≡ o
      → Allowed {j = j} {s = s} id false anybody (write (page (session_credentials_out j s o)) ∷ [])
  unfolding session_credentials_out
  session_credentials_out-Allowed target e none v = refused "unknown_id"
  session_credentials_out-Allowed target e (some u) v = accepted s target false anybody e v refl _

  pub on_user_get_credentials-Allowed :
      (document : j.Value)
      → Obeys {j = j} {s = s}
          (Allowed (session_id j document) false anybody)
          (on_user_get_credentials j s document)
  unfolding on_user_get_credentials
  on_user_get_credentials-Allowed document = Checks-Obeys _ (
      Checks-json_parse_string document "id" _ _ λ id.
        Checks-json_parse_string_or document "targetLogin" _ _ _ λ target_login.
          Checks-require_valid _ (refused _)
            λ h. Obeys-reply _ (session_credentials_out-Allowed target_login h.1 _ refl))

  session_settings_out-Allowed :
      {id session : String} (target : String)
      → session ≡ id
      → (o : Option UserWithAccessRights) → s.validate_session session target false ≡ o
      → Allowed {j = j} {s = s} id false anybody (write (page (session_settings_out j s o)) ∷ [])
  unfolding session_settings_out
  session_settings_out-Allowed target e none v = refused "unknown_id"
  session_settings_out-Allowed target e (some u) v = accepted s target false anybody e v refl _

  pub on_user_get_settings-Allowed :
      (document : j.Value)
      → Obeys {j = j} {s = s}
          (Allowed (session_id j document) false anybody)
          (on_user_get_settings j s document)
  unfolding on_user_get_settings
  on_user_get_settings-Allowed document = Checks-Obeys _ (
      Checks-json_parse_string document "id" _ _ λ id.
        Checks-json_parse_string_or document "targetLogin" _ _ _ λ target_login.
          Checks-require_valid _ (refused _)
            λ h. Obeys-reply _ (session_settings_out-Allowed target_login h.1 _ refl))

  pub on_user_update_settings-Allowed :
      (document : j.Value)
      → Obeys {j = j} {s = s}
          (Allowed (session_id j document) true anybody)
          (on_user_update_settings j s document)
  unfolding on_user_update_settings
  on_user_update_settings-Allowed document = Checks-Obeys _ (
      Checks-json_parse_string document "id" _ _ λ id.
        Checks-json_parse_string_or document "targetLogin" _ _ _ λ target_login.
          Checks-json_parse_string document "coin" _ _ λ coin.
            Checks-json_parse_string document "address" _ _ λ address.
              Checks-json_parse_string document "payoutThreshold" _ _ λ payout_threshold.
                Checks-json_parse_boolean document "autoPayoutEnabled" _ _ λ auto_payout.
                  Checks-json_parse_string_or document "totp" _ _ _ λ totp.
                    Checks-require_valid _ (refused _) λ h.
                      Obeys-require_some-bind _ _ _ (refused _) λ found is_found.
                        Obeys-require_some-bind _ _ _ (refused _) λ found is_found.
                          Obeys-require-bind _ _ _ (refused _) λ holds.
                            Obeys-require_some-bind _ _ _ (refused _) λ user accepts.
                              search
                                (handler_rules, accepted s _ true anybody h.0.0.0.0.1 accepts refl)
                                depth 9)
