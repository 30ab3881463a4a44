-- ===== src/Http/Request/Parse.antt =====
-- What onParse does with each part of a request, for every context.
use poolfrontend.Prelude.{ℕ, suc, inl, inr, Option, none, some, List, Bool-cases}
use poolfrontend.Json.{Json}
use poolfrontend.Http.Services.{Services}
use poolfrontend.Http.Handler.{Trace, not_found, ServiceCall, status_reply}
use poolfrontend.Http.Handler.Obeys.{events-Obeys}
use poolfrontend.Http.Lookup.{Server}
use poolfrontend.Http.Callback.{Answer}
use poolfrontend.Http.Responds.{Responds, answered}
use poolfrontend.Http.Responds.Users.{
  on_user_action-Responds, on_user_create-Responds, on_user_resend_email-Responds,
  on_user_login-Responds, on_user_logout-Responds, on_user_query_monitoring_session-Responds,
  on_user_change_email-Responds, on_user_change_password_initiate-Responds,
  on_user_change_password_force-Responds, on_user_get_credentials-Responds,
  on_user_get_settings-Responds, on_user_update_credentials-Responds,
  on_user_update_settings-Responds, on_user_enumerate_all-Responds, on_user_get_fee_plan-Responds,
  on_user_enumerate_fee_plan-Responds, on_user_update_fee_plan-Responds,
  on_user_change_fee_plan-Responds, on_user_activate2fa_initiate-Responds,
  on_user_deactivate2fa_initiate-Responds,
}
use poolfrontend.Http.Responds.Backends.{
  on_backend_manual_payout-Responds, on_backend_query_coins-Responds,
  on_backend_query_user_balance-Responds, on_backend_query_user_stats-Responds,
  on_backend_query_user_stats_history-Responds, on_backend_query_worker_stats_history-Responds,
  on_backend_query_found_blocks-Responds, on_backend_query_payouts-Responds,
  on_backend_query_pool_balance-Responds, on_backend_query_pool_stats-Responds,
  on_backend_query_pool_stats_history-Responds, on_backend_query_profit_switch_coeff-Responds,
  on_backend_query_pplns_payouts-Responds, on_backend_query_pplns_acc-Responds,
  on_backend_update_profit_switch_coeff-Responds, on_backend_pool_luck-Responds,
  on_instance_enumerate_all-Responds, on_complex_mining_stats_get_info-Responds,
}
use poolfrontend.Http.Request.{run_calls}
use poolfrontend.Http.Request.Served.{Completed, run_calls-Completed}
use poolfrontend.Http.Dispatch.{
  Function, unknown, api, user_action, user_create, user_resend_email, user_login, user_logout,
  user_query_monitoring_session, user_change_email, user_change_password_initiate,
  user_change_password_force, user_get_credentials, user_get_settings, user_update_credentials,
  user_update_settings, user_enumerate_all, user_get_fee_plan, user_enumerate_fee_plan,
  user_update_fee_plan, user_change_fee_plan, user_activate2fa_initiate,
  user_deactivate2fa_initiate, backend_manual_payout, backend_query_coins,
  backend_query_user_balance, backend_query_user_stats, backend_query_user_stats_history,
  backend_query_worker_stats_history, backend_query_found_blocks, backend_query_payouts,
  backend_query_pool_balance, backend_query_pool_stats, backend_query_pool_stats_history,
  backend_query_profit_switch_coeff, backend_query_pplns_payouts, backend_query_pplns_acc,
  backend_update_profit_switch_coeff, backend_pool_luck, instance_enumerate_all,
  complex_mining_stats_get_info, body_last, Context, dispatch, run_document, on_parse, run_function,
}

module _ {j : Json} {s : Services j} (server : Server j s) where
  abbrev RespondsAt : Option (Trace j s) → Type 0
  RespondsAt none = Unit
  RespondsAt (some t) = Responds t

  dispatch-Responds : (f : Function) (d : j.Value) → RespondsAt (dispatch j s server f d)
  unfolding dispatch
  dispatch-Responds unknown d = tt
  dispatch-Responds api d = tt
  dispatch-Responds user_action d = events-Obeys Responds _ (on_user_action-Responds d)
  dispatch-Responds user_create d = events-Obeys Responds _ (on_user_create-Responds d)
  dispatch-Responds user_resend_email d = events-Obeys Responds _ (on_user_resend_email-Responds d)
  dispatch-Responds user_login d = events-Obeys Responds _ (on_user_login-Responds d)
  dispatch-Responds user_logout d = events-Obeys Responds _ (on_user_logout-Responds d)
  dispatch-Responds user_query_monitoring_session d =
      events-Obeys Responds _ (on_user_query_monitoring_session-Responds d)
  dispatch-Responds user_change_email d = events-Obeys Responds _ (on_user_change_email-Responds d)
  dispatch-Responds user_change_password_initiate d =
      events-Obeys Responds _ (on_user_change_password_initiate-Responds d)
  dispatch-Responds user_change_password_force d =
      events-Obeys Responds _ (on_user_change_password_force-Responds d)
  dispatch-Responds user_get_credentials d =
      events-Obeys Responds _ (on_user_get_credentials-Responds d)
  dispatch-Responds user_get_settings d = events-Obeys Responds _ (on_user_get_settings-Responds d)
  dispatch-Responds user_update_credentials d =
      events-Obeys Responds _ (on_user_update_credentials-Responds d)
  dispatch-Responds user_update_settings d =
      events-Obeys Responds _ (on_user_update_settings-Responds d)
  dispatch-Responds user_enumerate_all d =
      events-Obeys Responds _ (on_user_enumerate_all-Responds server d)
  dispatch-Responds user_get_fee_plan d = events-Obeys Responds _ (on_user_get_fee_plan-Responds d)
  dispatch-Responds user_enumerate_fee_plan d =
      events-Obeys Responds _ (on_user_enumerate_fee_plan-Responds d)
  dispatch-Responds user_update_fee_plan d =
      events-Obeys Responds _ (on_user_update_fee_plan-Responds server d)
  dispatch-Responds user_change_fee_plan d =
      events-Obeys Responds _ (on_user_change_fee_plan-Responds d)
  dispatch-Responds user_activate2fa_initiate d =
      events-Obeys Responds _ (on_user_activate2fa_initiate-Responds d)
  dispatch-Responds user_deactivate2fa_initiate d =
      events-Obeys Responds _ (on_user_deactivate2fa_initiate-Responds d)
  dispatch-Responds backend_manual_payout d =
      events-Obeys Responds _ (on_backend_manual_payout-Responds server d)
  dispatch-Responds backend_query_coins d =
      events-Obeys Responds _ (on_backend_query_coins-Responds server d)
  dispatch-Responds backend_query_user_balance d =
      events-Obeys Responds _ (on_backend_query_user_balance-Responds server d)
  dispatch-Responds backend_query_user_stats d =
      events-Obeys Responds _ (on_backend_query_user_stats-Responds server d)
  dispatch-Responds backend_query_user_stats_history d =
      events-Obeys Responds _ (on_backend_query_user_stats_history-Responds server d)
  dispatch-Responds backend_query_worker_stats_history d =
      events-Obeys Responds _ (on_backend_query_worker_stats_history-Responds server d)
  dispatch-Responds backend_query_found_blocks d =
      events-Obeys Responds _ (on_backend_query_found_blocks-Responds server d)
  dispatch-Responds backend_query_payouts d =
      events-Obeys Responds _ (on_backend_query_payouts-Responds server d)
  dispatch-Responds backend_query_pool_balance d =
      events-Obeys Responds _ (on_backend_query_pool_balance-Responds d)
  dispatch-Responds backend_query_pool_stats d =
      events-Obeys Responds _ (on_backend_query_pool_stats-Responds server d)
  dispatch-Responds backend_query_pool_stats_history d =
      events-Obeys Responds _ (on_backend_query_pool_stats_history-Responds server d)
  dispatch-Responds backend_query_profit_switch_coeff d =
      events-Obeys Responds _ (on_backend_query_profit_switch_coeff-Responds server d)
  dispatch-Responds backend_query_pplns_payouts d =
      events-Obeys Responds _ (on_backend_query_pplns_payouts-Responds server d)
  dispatch-Responds backend_query_pplns_acc d =
      events-Obeys Responds _ (on_backend_query_pplns_acc-Responds server d)
  dispatch-Responds backend_update_profit_switch_coeff d =
      events-Obeys Responds _ (on_backend_update_profit_switch_coeff-Responds server d)
  dispatch-Responds backend_pool_luck d =
      events-Obeys Responds _ (on_backend_pool_luck-Responds server d)
  dispatch-Responds instance_enumerate_all d =
      events-Obeys Responds _ (on_instance_enumerate_all-Responds server d)
  dispatch-Responds complex_mining_stats_get_info d =
      events-Obeys Responds _ (on_complex_mining_stats_get_info-Responds d)

  run_function-Responds :
      (context : Context) (o : Option (Trace j s))
      → RespondsAt o
      → Responds (run_function j s server context o).trace
  unfolding run_function
  run_function-Responds context none h = answered not_found
  run_function-Responds context (some t) h = h

  run_document-Responds :
      (context : Context) (o : Option j.Value) → Responds (run_document j s server context o).trace
  unfolding run_document
  run_document-Responds context none = answered (status_reply "invalid_json")
  run_document-Responds context (some document) = elim (Bool-cases (j.is_object document)) [
    | inl is ↦ rw is (run_function-Responds context _ (dispatch-Responds context.function document))
    | inr is_not ↦ rw is_not (answered (status_reply "invalid_json"))
  ]

module _ (j : Json) (s : Services j) (server : Server j s) (post : ℕ)
    (parse : List ℕ → Option j.Value) where
  -- Whatever has arrived before, the last byte of a body makes the connection respond: with a reply,
  -- with the change of the coefficient and a reply, or with one reference taken and one call started.
  pub on_parse-Responds :
      (context : Context) (bytes : List ℕ)
      → Responds (on_parse j s server post parse context (body_last bytes)).trace
  unfolding on_parse
  on_parse-Responds context bytes = run_document-Responds server _ _

  -- Whatever has arrived before, after the last byte of a body, with every call that is started
  -- answered and with fuel of at least three, the request is completed: one reply is written, and a
  -- reference taken and given back around the calls, if there are any.
  pub on_parse-Completed :
      (answer : (c : ServiceCall j s) → Answer c) (context : Context) (bytes : List ℕ) (n : ℕ)
      → Completed (
          run_calls j s server answer
            (suc (suc (suc n)))
            (on_parse j s server post parse context (body_last bytes)).trace)
  on_parse-Completed answer context bytes n =
      run_calls-Completed server answer n (on_parse-Responds context bytes)
