-- ===== src/Http/Users.antt =====
-- The handlers of http.cpp for accounts and sessions. `document` is the parsed request; each
-- handler ends with one reply or with one call of the user manager, which takes a callback.
pub mod FeePlans
pub mod Settings
use poolfrontend.Prelude.{
  ℕ, Bool, false, true, ◌||◌, Option, none, some, [], ◌∷◌, map, String, str_eq, if◌then◌else◌,
}
use poolfrontend.Json.{Json}
use poolfrontend.Http.Out.{Out, obj, str, int, boolean}
use poolfrontend.Http.Services.{Services}
use poolfrontend.Http.Types.{Credentials, UserWithAccessRights, UserColumn}
use poolfrontend.Http.Handler.{
  Handler, ◌>>=◌, ◌>>◌, pure, reply, text, page, reply_with_status, start_call, require_some,
  require_valid, user_action, user_create, user_resend_email, user_login, user_logout,
  user_query_monitoring_session, user_change_password_initiate, user_change_password_force,
  update_credentials, enumerate_users, activate2fa_initiate, deactivate2fa_initiate, Reply,
}
use poolfrontend.Http.Fields.{
  json_parse_string, json_parse_string_or, json_parse_uint64_or, json_parse_boolean_or,
  parse_user_credentials,
}
use poolfrontend.Http.Lookup.{Server, statistic_db}

-- `sortBy` of onUserEnumerateAll
unfoldable pub user_column : String → Option UserColumn
user_column sort_by =
    if str_eq sort_by "login"
    then some UserColumn.login
    else if str_eq sort_by "workersNum"
    then some UserColumn.workers_num
    else if str_eq sort_by "averagePower"
    then some UserColumn.average_power
    else if str_eq sort_by "sharesPerSecond"
    then some UserColumn.shares_per_second
    else if str_eq sort_by "lastShareTime"
    then some UserColumn.last_share_time
    else none

-- The text of onUserChangeEmail and onBackendQueryPoolBalance.
abbrev pub not_implemented : {D : Type 0} → Reply D
not_implemented = text "{\"error\": \"not implemented\"}\n"

module _ (j : Json) (s : Services j) where
  open j use {Value, Double}

  unfoldable pub on_user_action : Value → Handler j s ⊥
  on_user_action document = do
    action_id ← json_parse_string document "actionId" ""
    new_password ← json_parse_string_or document "newPassword" "" ""
    totp ← json_parse_string_or document "totp" "" ""
    require_valid
    start_call (user_action action_id new_password totp)

  -- The login of the session that creates the user, and the empty login where there is no session.
  unfoldable pub creator_login : String → Handler j s String
  creator_login session_id = if str_eq session_id "" then pure "" else do
    token_info ← require_some (s.validate_session session_id "" false) "unknown_id"
    pure token_info.login

  unfoldable pub on_user_create : Value → Handler j s ⊥
  unfolding creator_login
  on_user_create document = do
    session_id ← json_parse_string_or document "id" "" ""
    credentials ← parse_user_credentials document s.default_credentials
    require_valid
    login ← creator_login session_id
    start_call (user_create login credentials)

  unfoldable pub on_user_resend_email : Value → Handler j s ⊥
  on_user_resend_email document = do
    credentials ← parse_user_credentials document s.default_credentials
    require_valid
    start_call (user_resend_email credentials)

  unfoldable pub on_user_login : Value → Handler j s ⊥
  on_user_login document = do
    credentials ← parse_user_credentials document s.default_credentials
    require_valid
    start_call (user_login credentials)

  unfoldable pub on_user_logout : Value → Handler j s ⊥
  on_user_logout document = do
    session_id ← json_parse_string document "id" ""
    require_valid
    start_call (user_logout session_id)

  unfoldable pub on_user_query_monitoring_session : Value → Handler j s ⊥
  on_user_query_monitoring_session document = do
    session_id ← json_parse_string document "id" ""
    target_login ← json_parse_string_or document "targetLogin" "" ""
    require_valid
    start_call (user_query_monitoring_session session_id target_login)

  unfoldable pub on_user_change_email : Value → Handler j s ⊥
  on_user_change_email document = reply not_implemented

  unfoldable pub on_user_change_password_initiate : Value → Handler j s ⊥
  on_user_change_password_initiate document = do
    login ← json_parse_string document "login" ""
    require_valid
    start_call (user_change_password_initiate login)

  unfoldable pub on_user_change_password_force : Value → Handler j s ⊥
  on_user_change_password_force document = do
    id ← json_parse_string document "id" ""
    login ← json_parse_string document "login" ""
    new_password ← json_parse_string document "newPassword" ""
    require_valid
    start_call (user_change_password_force id login new_password)

  abbrev unknown_id : Out Double
  unknown_id = obj (("status", str "unknown_id") ∷ [])

  -- The reply on a session's user. The read-only flag is set if the user or the session has it.
  unfoldable pub credentials_out : UserWithAccessRights → Option Credentials → Out Double
  credentials_out token_info none = unknown_id
  credentials_out token_info (some c) = obj (
      ("status", str "ok")
      ∷ ("login", str token_info.login)
      ∷ ("name", str c.name)
      ∷ ("email", str c.email)
      ∷ ("registrationDate", int c.registration_date)
      ∷ ("isActive", boolean c.is_active)
      ∷ ("isReadOnly", boolean (token_info.is_read_only || c.is_read_only))
      ∷ ("has2fa", boolean c.has_two_factor)
      ∷ [])

  unfoldable pub session_credentials_out : Option UserWithAccessRights → Out Double
  unfolding credentials_out
  session_credentials_out none = unknown_id
  session_credentials_out (some token_info) =
      credentials_out token_info (s.get_user_credentials token_info.login)

  unfoldable pub on_user_get_credentials : Value → Handler j s ⊥
  on_user_get_credentials document = do
    session_id ← json_parse_string document "id" ""
    target_login ← json_parse_string_or document "targetLogin" "" ""
    require_valid
    reply (page (session_credentials_out (s.validate_session session_id target_login false)))

  unfoldable pub on_user_update_credentials : Value → Handler j s ⊥
  on_user_update_credentials document = do
    session_id ← json_parse_string document "id" ""
    target_login ← json_parse_string_or document "targetLogin" "" ""
    credentials ← parse_user_credentials document s.default_credentials
    require_valid
    start_call (update_credentials session_id target_login credentials)

  unfoldable pub on_user_enumerate_all : Server j s → Value → Handler j s ⊥
  on_user_enumerate_all server document = do
    session_id ← json_parse_string document "id" ""
    coin ← json_parse_string_or document "coin" "" "sha256"
    offset ← json_parse_uint64_or document "offset" 0 0
    size ← json_parse_uint64_or document "size" 0 100
    sort_by ← json_parse_string_or document "sortBy" "" "averagePower"
    sort_descending ← json_parse_boolean_or document "sortDescending" false true
    require_valid
    column ← require_some (user_column sort_by) "unknown_column_name"
    statistic ← require_some (statistic_db server coin) "invalid_coin"
    start_call (enumerate_users session_id statistic offset size column sort_descending)

  unfoldable pub on_user_activate2fa_initiate : Value → Handler j s ⊥
  on_user_activate2fa_initiate document = do
    session_id ← json_parse_string document "sessionId" ""
    target_login ← json_parse_string_or document "targetLogin" "" ""
    require_valid
    start_call (activate2fa_initiate session_id target_login)

  unfoldable pub on_user_deactivate2fa_initiate : Value → Handler j s ⊥
  on_user_deactivate2fa_initiate document = do
    session_id ← json_parse_string document "sessionId" ""
    target_login ← json_parse_string_or document "targetLogin" "" ""
    require_valid
    start_call (deactivate2fa_initiate session_id target_login)
