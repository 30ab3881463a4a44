-- ===== src/Http/Callback.antt =====
-- The callbacks that the handlers of http.cpp hand to poolcore: for each asynchronous call what it
-- answers, and what the callback does with the answer.
mod Replies
use poolfrontend.Prelude.{Bool, List, [], ◌∷◌, map, String, str_eq, if◌then◌else◌}
use poolfrontend.Prelude.Int.{pos}
use poolfrontend.Json.{Json}
use poolfrontend.Http.Out.{Out, obj, arr, str, int, boolean, double}
use poolfrontend.Http.Services.{Services}
use poolfrontend.Http.Types.{
  Credentials, CoinInfo, Stats, CredentialsWithStatistic, UserBalance, FoundBlock, PplnsPayout,
  PplnsPayoutAcc,
}
use poolfrontend.Http.Handler.{
  Reply, page, text, status_reply, Trace, ServiceCall, write, start, decrement_reference,
  user_action, user_create, user_resend_email, user_login, user_logout,
  user_query_monitoring_session, user_change_password_initiate, user_change_password_force,
  update_credentials, update_settings, enumerate_users, query_all_users_stats, update_fee_plan,
  change_fee_plan, activate2fa_initiate, deactivate2fa_initiate, manual_payout, query_user_balance,
  query_user_balance_multi, query_user_stats, query_found_blocks, query_pool_stats,
  query_pool_stats_multi, query_pplns_payouts, query_pplns_acc, pool_luck, query_mining_stats,
}
use poolfrontend.Http.Fields.{fnormalize}
use poolfrontend.Http.Lookup.{Server}
use poolfrontend.Http.Callback.Replies.{
  users_reply, login_reply, session_reply, key_reply, balance_out, balances_out, balances_reply,
  user_stats_reply, blocks_reply, pool_stats_reply, pools_reply, pplns_payouts_reply,
  pplns_acc_reply, luck_reply,
}

module _ {j : Json} {s : Services j} where
  -- The arguments of each callback. An operation that only reports a status has a text.
  abbrev pub Answer : ServiceCall j s → Type 0
  Answer (user_login credentials) = String × String × Bool
  Answer (user_query_monitoring_session id target) = String × String
  Answer (enumerate_users id statistic offset size column descending) = String × List Credentials
  Answer (query_all_users_stats statistic users status offset size column descending) =
      List (CredentialsWithStatistic j.Double)
  Answer (activate2fa_initiate id target) = String × String
  Answer (query_user_balance backend login) = UserBalance
  Answer (query_user_balance_multi backends login) = List UserBalance
  Answer (query_user_stats statistic login offset size column descending) =
      Stats j.Double × List (Stats j.Double)
  Answer (query_found_blocks backend height hash count) = List FoundBlock
  Answer (query_pool_stats statistic) = Stats j.Double
  Answer (query_pool_stats_multi statistics) = List (Stats j.Double)
  Answer (query_pplns_payouts backend login time_from hash count) = List (PplnsPayout j.Double)
  Answer (query_pplns_acc backend login time_from time_to group) = List (PplnsPayoutAcc j.Double)
  Answer (pool_luck backend intervals) = List j.Double
  Answer (query_mining_stats document) = String
  Answer _ = String

module _ (j : Json) (s : Services j) where
  open j use {Double}
  open s use {Backend, Statistic, backend_coin_info, statistic_coin_info, format_money}

  -- `aioWrite(…); objectDecrementReference(…, 1);`
  abbrev finish : Reply Double → Trace j s
  finish r = write r ∷ decrement_reference ∷ []

  unfoldable pub callback : Server j s → (call : ServiceCall j s) → Answer call → Trace j s
  unfolding users_reply login_reply session_reply key_reply balance_out balances_out balances_reply
      user_stats_reply blocks_reply pool_stats_reply pools_reply pplns_payouts_reply pplns_acc_reply
      luck_reply
  callback server (user_action action password totp) status = finish (status_reply status)
  callback server (user_create login credentials) status = finish (status_reply status)
  callback server (user_resend_email credentials) status = finish (status_reply status)
  callback server (user_login credentials) (session_id, status, is_read_only) =
      finish (login_reply j s session_id status is_read_only)
  callback server (user_logout id) status = finish (status_reply status)
  callback server (user_query_monitoring_session id target) (session_id, status) =
      finish (session_reply j s session_id status)
  callback server (user_change_password_initiate login) status = finish (status_reply status)
  callback server (user_change_password_force id login password) status =
      finish (status_reply status)
  callback server (update_credentials id target credentials) status = finish (status_reply status)
  callback server (update_settings settings totp) status = finish (status_reply status)
  callback server (enumerate_users id statistic offset size column descending) (status, users) =
      start (query_all_users_stats statistic users status offset size column descending) ∷ []
  callback server (query_all_users_stats statistic users status offset size column descending)
        result =
      finish (users_reply j s status result)
  callback server (update_fee_plan id plan) status = finish (status_reply status)
  callback server (change_fee_plan id target plan) status = finish (status_reply status)
  callback server (activate2fa_initiate id target) (status, key) = finish (key_reply j s status key)
  callback server (deactivate2fa_initiate id target) status = finish (status_reply status)
  callback server (manual_payout backend login) status = finish (status_reply status)
  callback server (query_user_balance backend login) balance =
      finish (balances_reply j s (balance_out j s (backend_coin_info backend) balance ∷ []))
  callback server (query_user_balance_multi backends login) balances =
      finish (balances_reply j s (balances_out j s server.backends balances))
  callback server (query_user_stats statistic login offset size column descending)
        (aggregate, workers) =
      finish (user_stats_reply j s statistic aggregate workers)
  callback server (query_found_blocks backend height hash count) blocks =
      finish (blocks_reply j s (backend_coin_info backend) blocks)
  callback server (query_pool_stats statistic) stats =
      finish (pool_stats_reply j s (statistic_coin_info statistic) stats)
  callback server (query_pool_stats_multi statistics) stats =
      finish (pools_reply j s server.backends stats)
  callback server (query_pplns_payouts backend login time_from hash count) payouts =
      finish (pplns_payouts_reply j s (backend_coin_info backend) payouts)
  callback server (query_pplns_acc backend login time_from time_to group) payouts =
      finish (pplns_acc_reply j s (backend_coin_info backend) payouts)
  callback server (pool_luck backend intervals) result = finish (luck_reply j s result)
  callback server (query_mining_stats document) answer = finish (text answer)
