-- ===== src/Http/Responds/Backends.antt =====
-- The backend and statistics handlers of http.cpp respond exactly once.
use poolfrontend.Json.{Json}
use poolfrontend.Http.Services.{Services}
use poolfrontend.Http.Handler.Obeys.{Obeys, handler_rules}
use poolfrontend.Http.Fields.Quiet.{field_rules}
use poolfrontend.Http.Lookup.{Server}
use poolfrontend.Http.Responds.{Responds, answered, configured, pending}
use poolfrontend.Http.Responds.Loops.{read_intervals-Obeys}
use poolfrontend.Http.Backend.{
  on_backend_manual_payout, on_backend_query_user_balance, on_backend_query_coins,
  on_backend_query_found_blocks, on_backend_query_payouts, on_backend_query_pool_balance,
  on_backend_query_profit_switch_coeff, on_backend_query_pplns_payouts, on_backend_query_pplns_acc,
  on_backend_update_profit_switch_coeff, on_backend_pool_luck, on_instance_enumerate_all,
  on_complex_mining_stats_get_info,
}
use poolfrontend.Http.Backend.Statistic.{
  on_backend_query_user_stats, on_backend_query_user_stats_history,
  on_backend_query_worker_stats_history, on_backend_query_pool_stats,
  on_backend_query_pool_stats_history,
}

ruleset rules = (handler_rules, field_rules, answered, configured, pending)

module _ {j : Json} {s : Services j} where
  pub on_backend_manual_payout-Responds :
      (server : Server j s) (document : j.Value)
      → Obeys Responds (on_backend_manual_payout j s server document)
  unfolding on_backend_manual_payout
  on_backend_manual_payout-Responds server document = search rules depth 20

  pub on_backend_query_user_balance-Responds :
      (server : Server j s) (document : j.Value)
      → Obeys Responds (on_backend_query_user_balance j s server document)
  unfolding on_backend_query_user_balance
  on_backend_query_user_balance-Responds server document = search rules depth 20

  pub on_backend_query_coins-Responds :
      (server : Server j s) (document : j.Value)
      → Obeys Responds (on_backend_query_coins j s server document)
  unfolding on_backend_query_coins
  on_backend_query_coins-Responds server document = search rules depth 20

  pub on_backend_query_found_blocks-Responds :
      (server : Server j s) (document : j.Value)
      → Obeys Responds (on_backend_query_found_blocks j s server document)
  unfolding on_backend_query_found_blocks
  on_backend_query_found_blocks-Responds server document = search rules depth 20

  pub on_backend_query_payouts-Responds :
      (server : Server j s) (document : j.Value)
      → Obeys Responds (on_backend_query_payouts j s server document)
  unfolding on_backend_query_payouts
  on_backend_query_payouts-Responds server document = search rules depth 20

  pub on_backend_query_pool_balance-Responds :
      (document : j.Value)
      → Obeys {j = j} {s = s} Responds (on_backend_query_pool_balance j s document)
  unfolding on_backend_query_pool_balance
  on_backend_query_pool_balance-Responds document = search rules depth 20

  pub on_backend_query_profit_switch_coeff-Responds :
      (server : Server j s) (document : j.Value)
      → Obeys Responds (on_backend_query_profit_switch_coeff j s server document)
  unfolding on_backend_query_profit_switch_coeff
  on_backend_query_profit_switch_coeff-Responds server document = search rules depth 20

  pub on_backend_query_pplns_payouts-Responds :
      (server : Server j s) (document : j.Value)
      → Obeys Responds (on_backend_query_pplns_payouts j s server document)
  unfolding on_backend_query_pplns_payouts
  on_backend_query_pplns_payouts-Responds server document = search rules depth 20

  pub on_backend_query_pplns_acc-Responds :
      (server : Server j s) (document : j.Value)
      → Obeys Responds (on_backend_query_pplns_acc j s server document)
  unfolding on_backend_query_pplns_acc
  on_backend_query_pplns_acc-Responds server document = search rules depth 20

  pub on_backend_update_profit_switch_coeff-Responds :
      (server : Server j s) (document : j.Value)
      → Obeys Responds (on_backend_update_profit_switch_coeff j s server document)
  unfolding on_backend_update_profit_switch_coeff
  on_backend_update_profit_switch_coeff-Responds server document = search rules depth 20

  pub on_backend_pool_luck-Responds :
      (server : Server j s) (document : j.Value)
      → Obeys Responds (on_backend_pool_luck j s server document)
  unfolding on_backend_pool_luck
  on_backend_pool_luck-Responds server document = search (rules, read_intervals-Obeys) depth 20

  pub on_instance_enumerate_all-Responds :
      (server : Server j s) (document : j.Value)
      → Obeys Responds (on_instance_enumerate_all j s server document)
  unfolding on_instance_enumerate_all
  on_instance_enumerate_all-Responds server document = search rules depth 20

  pub on_complex_mining_stats_get_info-Responds :
      (document : j.Value)
      → Obeys {j = j} {s = s} Responds (on_complex_mining_stats_get_info j s document)
  unfolding on_complex_mining_stats_get_info
  on_complex_mining_stats_get_info-Responds document = search rules depth 20

  pub on_backend_query_user_stats-Responds :
      (server : Server j s) (document : j.Value)
      → Obeys Responds (on_backend_query_user_stats j s server document)
  unfolding on_backend_query_user_stats
  on_backend_query_user_stats-Responds server document = search rules depth 20

  pub on_backend_query_user_stats_history-Responds :
      (server : Server j s) (document : j.Value)
      → Obeys Responds (on_backend_query_user_stats_history j s server document)
  unfolding on_backend_query_user_stats_history
  on_backend_query_user_stats_history-Responds server document = search rules depth 20

  pub on_backend_query_worker_stats_history-Responds :
      (server : Server j s) (document : j.Value)
      → Obeys Responds (on_backend_query_worker_stats_history j s server document)
  unfolding on_backend_query_worker_stats_history
  on_backend_query_worker_stats_history-Responds server document = search rules depth 20

  pub on_backend_query_pool_stats-Responds :
      (server : Server j s) (document : j.Value)
      → Obeys Responds (on_backend_query_pool_stats j s server document)
  unfolding on_backend_query_pool_stats
  on_backend_query_pool_stats-Responds server document = search rules depth 20

  pub on_backend_query_pool_stats_history-Responds :
      (server : Server j s) (document : j.Value)
      → Obeys Responds (on_backend_query_pool_stats_history j s server document)
  unfolding on_backend_query_pool_stats_history
  on_backend_query_pool_stats_history-Responds server document = search rules depth 20
