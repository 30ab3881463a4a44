-- ===== src/Http/Dispatch.antt =====
-- PoolHttpConnection::onParse: the parts of a request as the parser of p2putils reports them, the
-- table of API functions, and the call of the handler. `post` is that parser's number of the
-- method POST, and `parse` is rapidjson's parse of a text, with no value on a parse error.
use poolfrontend.Prelude.{
  ℕ, Bool, true, false, not, ◌&&◌, Option, none, some, List, [], ◌∷◌, ◌++◌, String, str_eq, ◌==◌,
  if◌then◌else◌,
}
use poolfrontend.Json.{Json}
use poolfrontend.Http.Services.{Services}
use poolfrontend.Http.Handler.{Trace, write, not_found, status_reply, events}
use poolfrontend.Http.Lookup.{Server}
use poolfrontend.Http.Users
use poolfrontend.Http.Users.FeePlans
use poolfrontend.Http.Users.Settings
use poolfrontend.Http.Backend
use poolfrontend.Http.Backend.Statistic

-- PoolHttpConnection::FunctionTy
pub data Function : Type 0 where
  unknown api : Function
  user_action user_create user_resend_email user_login user_logout : Function
  user_query_monitoring_session user_change_email user_change_password_initiate : Function
  user_change_password_force user_get_credentials user_get_settings : Function
  user_update_credentials user_update_settings user_enumerate_all user_get_fee_plan : Function
  user_enumerate_fee_plan user_update_fee_plan user_change_fee_plan : Function
  user_activate2fa_initiate user_deactivate2fa_initiate : Function
  backend_manual_payout backend_query_coins backend_query_user_balance : Function
  backend_query_user_stats backend_query_user_stats_history : Function
  backend_query_worker_stats_history backend_query_found_blocks backend_query_payouts : Function
  backend_query_pool_balance backend_query_pool_stats backend_query_pool_stats_history : Function
  backend_query_profit_switch_coeff backend_query_pplns_payouts backend_query_pplns_acc : Function
  backend_update_profit_switch_coeff backend_pool_luck : Function
  instance_enumerate_all complex_mining_stats_get_info : Function

-- FunctionNameMap_, where every entry has the method POST
unfoldable pub function_name_map : List (String × Function)
function_name_map =
    ("userAction", user_action)
    ∷ ("userCreate", user_create)
    ∷ ("userResendEmail", user_resend_email)
    ∷ ("userLogin", user_login)
    ∷ ("userLogout", user_logout)
    ∷ ("userQueryMonitoringSession", user_query_monitoring_session)
    ∷ ("userChangeEmail", user_change_email)
    ∷ ("userChangePasswordForce", user_change_password_force)
    ∷ ("userChangePasswordInitiate", user_change_password_initiate)
    ∷ ("userGetCredentials", user_get_credentials)
    ∷ ("userGetSettings", user_get_settings)
    ∷ ("userUpdateCredentials", user_update_credentials)
    ∷ ("userUpdateSettings", user_update_settings)
    ∷ ("userEnumerateAll", user_enumerate_all)
    ∷ ("userEnumerateFeePlan", user_enumerate_fee_plan)
    ∷ ("userGetFeePlan", user_get_fee_plan)
    ∷ ("userUpdateFeePlan", user_update_fee_plan)
    ∷ ("userChangeFeePlan", user_change_fee_plan)
    ∷ ("userActivate2faInitiate", user_activate2fa_initiate)
    ∷ ("userDeactivate2faInitiate", user_deactivate2fa_initiate)
    ∷ ("backendManualPayout", backend_manual_payout)
    ∷ ("backendQueryCoins", backend_query_coins)
    ∷ ("backendQueryFoundBlocks", backend_query_found_blocks)
    ∷ ("backendQueryPayouts", backend_query_payouts)
    ∷ ("backendQueryPoolBalance", backend_query_pool_balance)
    ∷ ("backendQueryPoolStats", backend_query_pool_stats)
    ∷ ("backendQueryPoolStatsHistory", backend_query_pool_stats_history)
    ∷ ("backendQueryProfitSwitchCoeff", backend_query_profit_switch_coeff)
    ∷ ("backendQueryUserBalance", backend_query_user_balance)
    ∷ ("backendQueryUserStats", backend_query_user_stats)
    ∷ ("backendQueryUserStatsHistory", backend_query_user_stats_history)
    ∷ ("backendQueryWorkerStatsHistory", backend_query_worker_stats_history)
    ∷ ("backendQueryPPLNSPayouts", backend_query_pplns_payouts)
    ∷ ("backendQueryPPLNSAcc", backend_query_pplns_acc)
    ∷ ("backendUpdateProfitSwitchCoeff", backend_update_profit_switch_coeff)
    ∷ ("backendPoolLuck", backend_pool_luck)
    ∷ ("instanceEnumerateAll", instance_enumerate_all)
    ∷ ("complexMiningStatsGetInfo", complex_mining_stats_get_info)
    ∷ []

abbrev pub find_function : List (String × Function) → String → Option Function
find_function [] name = none
find_function ((key, f) ∷ rest) name = if str_eq key name then some f else find_function rest name

-- HttpRequestComponent; `other` stands for the kinds that onParse passes over.
pub data Component : Type 0 where
  method : ℕ → Component
  uri_path_element : String → Component
  body : List ℕ → Component
  body_last : List ℕ → Component
  other : Component

-- PoolHttpConnection::Context; the request's text is a list of bytes.
pub record Context : Type 0 where
  pub method : ℕ
  pub function : Function
  pub request : List ℕ

-- What `c_str()` shows of a std::string: the bytes before the first zero.
unfoldable pub c_str : List ℕ → List ℕ
c_str [] = []
c_str (b ∷ bs) = if b == 0 then [] else b ∷ c_str bs

-- `!Context.Request.empty() ? Context.Request.c_str() : "{}"`
unfoldable pub request_text : List ℕ → List ℕ
unfolding c_str
request_text [] = 123 ∷ 125 ∷ []
request_text (b ∷ bs) = c_str (b ∷ bs)

-- The result of onParse: the context, what was done, and whether parsing goes on (1) or not (0).
pub record Parsed (j : Json) (s : Services j) : Type 0 where
  pub context : Context
  pub trace : Trace j s
  pub continues : Bool

module _ (j : Json) (s : Services j) (server : Server j s) where
  -- The switch over the function: the events of its handler, or nothing for the default label.
  unfoldable pub dispatch : Function → j.Value → Option (Trace j s)
  dispatch user_action d = some (events (Users.on_user_action j s d))
  dispatch user_create d = some (events (Users.on_user_create j s d))
  dispatch user_resend_email d = some (events (Users.on_user_resend_email j s d))
  dispatch user_login d = some (events (Users.on_user_login j s d))
  dispatch user_logout d = some (events (Users.on_user_logout j s d))
  dispatch user_query_monitoring_session d =
      some (events (Users.on_user_query_monitoring_session j s d))
  dispatch user_change_email d = some (events (Users.on_user_change_email j s d))
  dispatch user_change_password_initiate d =
      some (events (Users.on_user_change_password_initiate j s d))
  dispatch user_change_password_force d = some (events (Users.on_user_change_password_force j s d))
  dispatch user_get_credentials d = some (events (Users.on_user_get_credentials j s d))
  dispatch user_get_settings d = some (events (Settings.on_user_get_settings j s d))
  dispatch user_update_credentials d = some (events (Users.on_user_update_credentials j s d))
  dispatch user_update_settings d = some (events (Settings.on_user_update_settings j s d))
  dispatch user_enumerate_all d = some (events (Users.on_user_enumerate_all j s server d))
  dispatch user_get_fee_plan d = some (events (FeePlans.on_user_get_fee_plan j s d))
  dispatch user_enumerate_fee_plan d = some (events (FeePlans.on_user_enumerate_fee_plan j s d))
  dispatch user_update_fee_plan d = some (events (FeePlans.on_user_update_fee_plan j s server d))
  dispatch user_change_fee_plan d = some (events (FeePlans.on_user_change_fee_plan j s d))
  dispatch user_activate2fa_initiate d = some (events (Users.on_user_activate2fa_initiate j s d))
  dispatch user_deactivate2fa_initiate d =
      some (events (Users.on_user_deactivate2fa_initiate j s d))
  dispatch backend_manual_payout d = some (events (Backend.on_backend_manual_payout j s server d))
  dispatch backend_query_coins d = some (events (Backend.on_backend_query_coins j s server d))
  dispatch backend_query_user_balance d =
      some (events (Backend.on_backend_query_user_balance j s server d))
  dispatch backend_query_user_stats d =
      some (events (Statistic.on_backend_query_user_stats j s server d))
  dispatch backend_query_user_stats_history d =
      some (events (Statistic.on_backend_query_user_stats_history j s server d))
  dispatch backend_query_worker_stats_history d =
      some (events (Statistic.on_backend_query_worker_stats_history j s server d))
  dispatch backend_query_found_blocks d =
      some (events (Backend.on_backend_query_found_blocks j s server d))
  dispatch backend_query_payouts d = some (events (Backend.on_backend_query_payouts j s server d))
  dispatch backend_query_pool_balance d =
      some (events (Backend.on_backend_query_pool_balance j s d))
  dispatch backend_query_pool_stats d =
      some (events (Statistic.on_backend_query_pool_stats j s server d))
  dispatch backend_query_pool_stats_history d =
      some (events (Statistic.on_backend_query_pool_stats_history j s server d))
  dispatch backend_query_profit_switch_coeff d =
      some (events (Backend.on_backend_query_profit_switch_coeff j s server d))
  dispatch backend_query_pplns_payouts d =
      some (events (Backend.on_backend_query_pplns_payouts j s server d))
  dispatch backend_query_pplns_acc d =
      some (events (Backend.on_backend_query_pplns_acc j s server d))
  dispatch backend_update_profit_switch_coeff d =
      some (events (Backend.on_backend_update_profit_switch_coeff j s server d))
  dispatch backend_pool_luck d = some (events (Backend.on_backend_pool_luck j s server d))
  dispatch instance_enumerate_all d = some (events (Backend.on_instance_enumerate_all j s server d))
  dispatch complex_mining_stats_get_info d =
      some (events (Backend.on_complex_mining_stats_get_info j s d))
  dispatch unknown d = none
  dispatch api d = none

  -- reply404(); return 0;
  abbrev fail : Context → Parsed j s
  fail context = record { context = context; trace = write not_found ∷ []; continues = false }

  abbrev pass : Context → Trace j s → Parsed j s
  pass context trace = record { context = context; trace = trace; continues = true }

  unfoldable pub run_function : Context → Option (Trace j s) → Parsed j s
  run_function context none = fail context
  run_function context (some trace) = pass context trace

  unfoldable pub run_document : Context → Option j.Value → Parsed j s
  unfolding run_function
  run_document context none = pass context (write (status_reply "invalid_json") ∷ [])
  run_document context (some document) =
      if not (j.is_object document)
      then pass context (write (status_reply "invalid_json") ∷ [])
      else run_function context (dispatch context.function document)

  abbrev is_unknown : Function → Bool
  is_unknown unknown = true
  is_unknown _ = false

  abbrev is_api : Function → Bool
  is_api api = true
  is_api _ = false

  -- A function name that is not in the table, or a method that is not the entry's.
  unfoldable pub select_function : ℕ → Context → Option Function → Parsed j s
  select_function post context none = fail context
  select_function post context (some f) =
      if not (post == context.method)
      then fail context
      else pass (record context { function = f }) []

  module _ (post : ℕ) (parse : List ℕ → Option j.Value) where
    unfoldable pub on_parse : Context → Component → Parsed j s
    unfolding select_function run_document request_text
    on_parse context (method m) = pass (record context { method = m; function = unknown }) []
    on_parse context (uri_path_element name) =
        if is_unknown context.function && str_eq name "api"
        then pass (record context { function = api }) []
        else if is_api context.function
        then select_function post context (find_function function_name_map name)
        else fail context
    on_parse context (body bytes) = pass (record context { request = context.request ++ bytes }) []
    on_parse context (body_last bytes) =
        run_document (record context { request = context.request ++ bytes })
          (parse (request_text (context.request ++ bytes)))
    on_parse context other = pass context []
