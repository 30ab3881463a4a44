-- ===== src/Http/Responds/Users.antt =====
-- The account handlers of http.cpp respond exactly once.
use poolfrontend.Prelude.{◌⊎◌, inl, inr, List, String}
use poolfrontend.Json.{Json}
use poolfrontend.Http.Types.{UserFeePlan}
use poolfrontend.Http.Services.{Services}
use poolfrontend.Http.Handler.Obeys.{Obeys, handler_rules}
use poolfrontend.Http.Fields.Quiet.{field_rules}
use poolfrontend.Http.Lookup.{Server}
use poolfrontend.Http.Responds.{Responds, answered, configured, pending}
use poolfrontend.Http.Responds.Loops.{
  json_parse_user_fee_config-Obeys, read_coin_specific_fee-Obeys, require_backends-Obeys,
}
use poolfrontend.Http.Users.{
  on_user_action, on_user_create, on_user_resend_email, on_user_login, on_user_logout,
  on_user_query_monitoring_session, on_user_change_email, on_user_change_password_initiate,
  on_user_change_password_force, on_user_get_credentials, on_user_update_credentials,
  on_user_enumerate_all, on_user_activate2fa_initiate, on_user_deactivate2fa_initiate,
}
use poolfrontend.Http.Users.Settings.{on_user_get_settings, on_user_update_settings}
use poolfrontend.Http.Users.FeePlans.{
  on_user_update_fee_plan, on_user_enumerate_fee_plan, on_user_get_fee_plan,
  on_user_change_fee_plan, fee_plans_reply, fee_plan_reply,
}

ruleset rules = (handler_rules, field_rules, answered, configured, pending)

module _ {j : Json} {s : Services j} where
  pub on_user_action-Responds :
      (document : j.Value) → Obeys {j = j} {s = s} Responds (on_user_action j s document)
  unfolding on_user_action
  on_user_action-Responds document = search rules depth 20

  pub on_user_create-Responds :
      (document : j.Value) → Obeys {j = j} {s = s} Responds (on_user_create j s document)
  unfolding on_user_create
  on_user_create-Responds document = search rules depth 20

  pub on_user_resend_email-Responds :
      (document : j.Value) → Obeys {j = j} {s = s} Responds (on_user_resend_email j s document)
  unfolding on_user_resend_email
  on_user_resend_email-Responds document = search rules depth 20

  pub on_user_login-Responds :
      (document : j.Value) → Obeys {j = j} {s = s} Responds (on_user_login j s document)
  unfolding on_user_login
  on_user_login-Responds document = search rules depth 20

  pub on_user_logout-Responds :
      (document : j.Value) → Obeys {j = j} {s = s} Responds (on_user_logout j s document)
  unfolding on_user_logout
  on_user_logout-Responds document = search rules depth 20

  pub on_user_query_monitoring_session-Responds :
      (document : j.Value)
      → Obeys {j = j} {s = s} Responds (on_user_query_monitoring_session j s document)
  unfolding on_user_query_monitoring_session
  on_user_query_monitoring_session-Responds document = search rules depth 20

  pub on_user_change_email-Responds :
      (document : j.Value) → Obeys {j = j} {s = s} Responds (on_user_change_email j s document)
  unfolding on_user_change_email
  on_user_change_email-Responds document = search rules depth 20

  pub on_user_change_password_initiate-Responds :
      (document : j.Value)
      → Obeys {j = j} {s = s} Responds (on_user_change_password_initiate j s document)
  unfolding on_user_change_password_initiate
  on_user_change_password_initiate-Responds document = search rules depth 20

  pub on_user_change_password_force-Responds :
      (document : j.Value)
      → Obeys {j = j} {s = s} Responds (on_user_change_password_force j s document)
  unfolding on_user_change_password_force
  on_user_change_password_force-Responds document = search rules depth 20

  pub on_user_get_credentials-Responds :
      (document : j.Value) → Obeys {j = j} {s = s} Responds (on_user_get_credentials j s document)
  unfolding on_user_get_credentials
  on_user_get_credentials-Responds document = search rules depth 20

  pub on_user_update_credentials-Responds :
      (document : j.Value)
      → Obeys {j = j} {s = s} Responds (on_user_update_credentials j s document)
  unfolding on_user_update_credentials
  on_user_update_credentials-Responds document = search rules depth 20

  pub on_user_enumerate_all-Responds :
      (server : Server j s) (document : j.Value)
      → Obeys Responds (on_user_enumerate_all j s server document)
  unfolding on_user_enumerate_all
  on_user_enumerate_all-Responds server document = search rules depth 20

  pub on_user_activate2fa_initiate-Responds :
      (document : j.Value)
      → Obeys {j = j} {s = s} Responds (on_user_activate2fa_initiate j s document)
  unfolding on_user_activate2fa_initiate
  on_user_activate2fa_initiate-Responds document = search rules depth 20

  pub on_user_deactivate2fa_initiate-Responds :
      (document : j.Value)
      → Obeys {j = j} {s = s} Responds (on_user_deactivate2fa_initiate j s document)
  unfolding on_user_deactivate2fa_initiate
  on_user_deactivate2fa_initiate-Responds document = search rules depth 20

  pub on_user_get_settings-Responds :
      (document : j.Value) → Obeys {j = j} {s = s} Responds (on_user_get_settings j s document)
  unfolding on_user_get_settings
  on_user_get_settings-Responds document = search rules depth 20

  pub on_user_update_settings-Responds :
      (document : j.Value) → Obeys {j = j} {s = s} Responds (on_user_update_settings j s document)
  unfolding on_user_update_settings
  on_user_update_settings-Responds document = search rules depth 20

  pub on_user_update_fee_plan-Responds :
      (server : Server j s) (document : j.Value)
      → Obeys Responds (on_user_update_fee_plan j s server document)
  unfolding on_user_update_fee_plan
  on_user_update_fee_plan-Responds server document =
      search
        (
          rules, json_parse_user_fee_config-Obeys, read_coin_specific_fee-Obeys,
          require_backends-Obeys,
        )
        depth 20

  fee_plans_reply-Responds :
      (result : String ⊎ List (UserFeePlan j.Double))
      → Obeys {j = j} {s = s} Responds (fee_plans_reply j s result)
  unfolding fee_plans_reply
  fee_plans_reply-Responds (inl status) = search rules
  fee_plans_reply-Responds (inr plans) = search rules

  fee_plan_reply-Responds :
      (result : String ⊎ UserFeePlan j.Double)
      → Obeys {j = j} {s = s} Responds (fee_plan_reply j s result)
  unfolding fee_plan_reply
  fee_plan_reply-Responds (inl status) = search rules
  fee_plan_reply-Responds (inr plan) = search rules

  pub on_user_enumerate_fee_plan-Responds :
      (document : j.Value)
      → Obeys {j = j} {s = s} Responds (on_user_enumerate_fee_plan j s document)
  unfolding on_user_enumerate_fee_plan
  on_user_enumerate_fee_plan-Responds document = search (rules, fee_plans_reply-Responds) depth 20

  pub on_user_get_fee_plan-Responds :
      (document : j.Value) → Obeys {j = j} {s = s} Responds (on_user_get_fee_plan j s document)
  unfolding on_user_get_fee_plan
  on_user_get_fee_plan-Responds document = search (rules, fee_plan_reply-Responds) depth 20

  pub on_user_change_fee_plan-Responds :
      (document : j.Value) → Obeys {j = j} {s = s} Responds (on_user_change_fee_plan j s document)
  unfolding on_user_change_fee_plan
  on_user_change_fee_plan-Responds document = search rules depth 20
