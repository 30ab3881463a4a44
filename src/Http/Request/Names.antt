-- ===== src/Http/Request/Names.antt =====
-- The names of the API: which name of a path selects which function.
use poolfrontend.Prelude.{
  arith, ◌≡◌, refl, sym, ◌∙◌, ap, some, List, [], ◌∷◌, String, str_eq, eq_iff, Bool-cases, inl, inr,
  subst, ◌↔◌,
}
use poolfrontend.Http.Dispatch.{
  Function, unknown, api, user_action, user_create, user_resend_email, user_login, user_logout,
  user_query_monitoring_session, user_change_email, user_change_password_force,
  user_change_password_initiate, user_get_credentials, user_get_settings, user_update_credentials,
  user_update_settings, user_enumerate_all, user_enumerate_fee_plan, user_get_fee_plan,
  user_update_fee_plan, user_change_fee_plan, user_activate2fa_initiate,
  user_deactivate2fa_initiate, backend_manual_payout, backend_query_coins,
  backend_query_found_blocks, backend_query_payouts, backend_query_pool_balance,
  backend_query_pool_stats, backend_query_pool_stats_history, backend_query_profit_switch_coeff,
  backend_query_user_balance, backend_query_user_stats, backend_query_user_stats_history,
  backend_query_worker_stats_history, backend_query_pplns_payouts, backend_query_pplns_acc,
  backend_update_profit_switch_coeff, backend_pool_luck, instance_enumerate_all,
  complex_mining_stats_get_info, find_function, function_name_map,
}
use poolfrontend.Http.Request.Routing.{IsHandled, same_function}

-- The name of a function: its handler's, without the `on`. The two that stand for an incomplete path
-- have none.
abbrev pub api_name : Function → String
api_name unknown = ""
api_name api = ""
api_name user_action = "userAction"
api_name user_create = "userCreate"
api_name user_resend_email = "userResendEmail"
api_name user_login = "userLogin"
api_name user_logout = "userLogout"
api_name user_query_monitoring_session = "userQueryMonitoringSession"
api_name user_change_email = "userChangeEmail"
api_name user_change_password_force = "userChangePasswordForce"
api_name user_change_password_initiate = "userChangePasswordInitiate"
api_name user_get_credentials = "userGetCredentials"
api_name user_get_settings = "userGetSettings"
api_name user_update_credentials = "userUpdateCredentials"
api_name user_update_settings = "userUpdateSettings"
api_name user_enumerate_all = "userEnumerateAll"
api_name user_enumerate_fee_plan = "userEnumerateFeePlan"
api_name user_get_fee_plan = "userGetFeePlan"
api_name user_update_fee_plan = "userUpdateFeePlan"
api_name user_change_fee_plan = "userChangeFeePlan"
api_name user_activate2fa_initiate = "userActivate2faInitiate"
api_name user_deactivate2fa_initiate = "userDeactivate2faInitiate"
api_name backend_manual_payout = "backendManualPayout"
api_name backend_query_coins = "backendQueryCoins"
api_name backend_query_found_blocks = "backendQueryFoundBlocks"
api_name backend_query_payouts = "backendQueryPayouts"
api_name backend_query_pool_balance = "backendQueryPoolBalance"
api_name backend_query_pool_stats = "backendQueryPoolStats"
api_name backend_query_pool_stats_history = "backendQueryPoolStatsHistory"
api_name backend_query_profit_switch_coeff = "backendQueryProfitSwitchCoeff"
api_name backend_query_user_balance = "backendQueryUserBalance"
api_name backend_query_user_stats = "backendQueryUserStats"
api_name backend_query_user_stats_history = "backendQueryUserStatsHistory"
api_name backend_query_worker_stats_history = "backendQueryWorkerStatsHistory"
api_name backend_query_pplns_payouts = "backendQueryPPLNSPayouts"
api_name backend_query_pplns_acc = "backendQueryPPLNSAcc"
api_name backend_update_profit_switch_coeff = "backendUpdateProfitSwitchCoeff"
api_name backend_pool_luck = "backendPoolLuck"
api_name instance_enumerate_all = "instanceEnumerateAll"
api_name complex_mining_stats_get_info = "complexMiningStatsGetInfo"

abbrev AllNamed : List (String × Function) → Type 0
AllNamed [] = Unit
AllNamed ((key, f) ∷ rest) = (key ≡ api_name f) × AllNamed rest

found-api_name :
    (table : List (String × Function)) (name : String) (f : Function)
    → AllNamed table
    → find_function table name ≡ some f
    → name ≡ api_name f
found-api_name [] name f h e = cc
found-api_name ((key, g) ∷ rest) name f h e = elim (Bool-cases (str_eq key name)) [
  | inl here ↦ sym ((eq_iff key name).0 here) ∙ h.0 ∙ ap api_name (same_function (rw here at e))
  | inr there ↦ found-api_name rest name f h.1 (rw there at e)
]

table-AllNamed : AllNamed function_name_map
unfolding function_name_map
table-AllNamed = ground arith

named : (f : Function) → IsHandled f → find_function function_name_map (api_name f) ≡ some f
unfolding function_name_map
named unknown h = absurd h
named api h = absurd h
named user_action h = refl
named user_create h = refl
named user_resend_email h = refl
named user_login h = refl
named user_logout h = refl
named user_query_monitoring_session h = refl
named user_change_email h = refl
named user_change_password_force h = refl
named user_change_password_initiate h = refl
named user_get_credentials h = refl
named user_get_settings h = refl
named user_update_credentials h = refl
named user_update_settings h = refl
named user_enumerate_all h = refl
named user_enumerate_fee_plan h = refl
named user_get_fee_plan h = refl
named user_update_fee_plan h = refl
named user_change_fee_plan h = refl
named user_activate2fa_initiate h = refl
named user_deactivate2fa_initiate h = refl
named backend_manual_payout h = refl
named backend_query_coins h = refl
named backend_query_found_blocks h = refl
named backend_query_payouts h = refl
named backend_query_pool_balance h = refl
named backend_query_pool_stats h = refl
named backend_query_pool_stats_history h = refl
named backend_query_profit_switch_coeff h = refl
named backend_query_user_balance h = refl
named backend_query_user_stats h = refl
named backend_query_user_stats_history h = refl
named backend_query_worker_stats_history h = refl
named backend_query_pplns_payouts h = refl
named backend_query_pplns_acc h = refl
named backend_update_profit_switch_coeff h = refl
named backend_pool_luck h = refl
named instance_enumerate_all h = refl
named complex_mining_stats_get_info h = refl

-- Every function but the two that stand for an incomplete path is found under one name of the table,
-- that of its handler without the `on`, and under no other.
pub find_function_iff :
    (f : Function) (name : String)
    → IsHandled f
    → (find_function function_name_map name ≡ some f) ↔ (name ≡ api_name f)
find_function_iff f name h = (
  found-api_name function_name_map name f table-AllNamed,
  λ e. subst (λ x. find_function function_name_map x ≡ some f) (sym e) (named f h),
)
