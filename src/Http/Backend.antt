-- ===== src/Http/Backend.antt =====
-- The handlers of http.cpp for the backends of the coins: balances, payouts, blocks, the profit
-- switch coefficient, the pool's luck, and the mining statistics service.
pub mod Interval
pub mod Statistic
use poolfrontend.Prelude.{
  ℕ, Bool, false, true, not, ◌&&◌, ◌||◌, List, [], ◌∷◌, ◌++◌, map, String, str_eq, if◌then◌else◌,
}
use poolfrontend.Prelude.Int.{ℤ, pos, negsuc, leb_ℤ}
use poolfrontend.Json.{Json}
use poolfrontend.Config.Types.{InstanceConfig}
use poolfrontend.Http.Out.{Out, obj, arr, str, int, double}
use poolfrontend.Http.Services.{Services}
use poolfrontend.Http.Types.{CoinInfo, Payout}
use poolfrontend.Http.Handler.{
  Handler, ◌>>=◌, ◌>>◌, pure, emit, reply, page, reply_with_status, start_call, require,
  require_some, require_valid, manual_payout, query_user_balance, query_user_balance_multi,
  query_found_blocks, query_pplns_payouts, query_pplns_acc, pool_luck, query_mining_stats,
  set_profit_switch_coeff,
}
use poolfrontend.Http.Fields.{
  json_parse_string, json_parse_string_or, json_parse_int64, json_parse_int64_or,
  json_parse_uint64_or, json_parse_uint_or, json_parse_number,
}
use poolfrontend.Http.Lookup.{Server, find_backend}
use poolfrontend.Http.Users.{not_implemented}
use Interval.{bad_interval}

module _ (j : Json) (s : Services j) where
  open j use {Value, Double, has_member, member}
  open s use {Backend, backend_coin_info, format_money, validate_session}

  unfoldable pub on_backend_manual_payout : Server j s → Value → Handler j s ⊥
  on_backend_manual_payout server document = do
    session_id ← json_parse_string document "id" ""
    target_login ← json_parse_string_or document "targetLogin" "" ""
    coin ← json_parse_string_or document "coin" "" ""
    require_valid
    login ← require_some (validate_session session_id target_login true) "unknown_id"
    backend ← require_some (find_backend server coin) "invalid_coin"
    start_call (manual_payout backend login.login)

  -- With no coin named, all the backends are asked.
  unfoldable pub query_balance : Server j s → String → String → Handler j s ⊥
  query_balance server login coin =
      if not (str_eq coin "")
      then (do
        backend ← require_some (find_backend server coin) "invalid_coin"
        start_call (query_user_balance backend login))
      else start_call (query_user_balance_multi server.backends login)

  unfoldable pub on_backend_query_user_balance : Server j s → Value → Handler j s ⊥
  unfolding query_balance
  on_backend_query_user_balance server document = do
    session_id ← json_parse_string document "id" ""
    target_login ← json_parse_string_or document "targetLogin" "" ""
    coin ← json_parse_string_or document "coin" "" ""
    require_valid
    token_info ← require_some (validate_session session_id target_login false) "unknown_id"
    query_balance server token_info.login coin

  unfoldable pub coin_out : Backend → Out Double
  coin_out backend = obj (
      ("name", str (backend_coin_info backend).name)
      ∷ ("fullName", str (backend_coin_info backend).full_name)
      ∷ ("algorithm", str (backend_coin_info backend).algorithm)
      ∷ (
        "minimalPayout",
        str (
            format_money (s.minimal_allowed_payout backend)
              (backend_coin_info backend).rational_part_size),
      )
      ∷ ("totalFee", double j.zero_double)
      ∷ [])

  unfoldable pub on_backend_query_coins : Server j s → Value → Handler j s ⊥
  unfolding coin_out
  on_backend_query_coins server document =
      reply (page (obj (("status", str "ok") ∷ ("coins", arr (map coin_out server.backends)) ∷ [])))

  unfoldable pub on_backend_query_found_blocks : Server j s → Value → Handler j s ⊥
  on_backend_query_found_blocks server document = do
    coin ← json_parse_string document "coin" ""
    height_from ← json_parse_int64_or document "heightFrom" (pos 0) (negsuc 0)
    hash_from ← json_parse_string_or document "hashFrom" "" ""
    count ← json_parse_uint_or document "count" 0 20
    require_valid
    backend ← require_some (find_backend server coin) "invalid_coin"
    start_call (query_found_blocks backend height_from hash_from count)

  unfoldable pub payout_out : CoinInfo → Payout → Out Double
  payout_out coin p = obj (
      ("time", int p.time)
      ∷ ("txid", str p.transaction_id)
      ∷ ("value", str (format_money p.value coin.rational_part_size))
      ∷ ("status", int p.status)
      ∷ [])

  unfoldable pub on_backend_query_payouts : Server j s → Value → Handler j s ⊥
  unfolding payout_out
  on_backend_query_payouts server document = do
    session_id ← json_parse_string document "id" ""
    target_login ← json_parse_string_or document "targetLogin" "" ""
    coin ← json_parse_string_or document "coin" "" ""
    time_from ← json_parse_uint64_or document "timeFrom" 0 0
    count ← json_parse_uint_or document "count" 0 20
    require_valid
    token_info ← require_some (validate_session session_id target_login false) "unknown_id"
    backend ← require_some (find_backend server coin) "invalid_coin"
    reply (
        page (
          obj (
            ("status", str "ok")
            ∷ (
              "payouts",
              arr (
                  map (payout_out (backend_coin_info backend))
                    (s.query_payouts backend token_info.login time_from count)),
            )
            ∷ [])))

  unfoldable pub on_backend_query_pool_balance : Value → Handler j s ⊥
  on_backend_query_pool_balance document = reply not_implemented

  unfoldable pub profit_switch_out : Backend → Out Double
  profit_switch_out backend = obj (
      ("name", str (backend_coin_info backend).name)
      ∷ ("profitSwitchCoeff", double (s.profit_switch_coeff backend))
      ∷ [])

  unfoldable pub on_backend_query_profit_switch_coeff : Server j s → Value → Handler j s ⊥
  unfolding profit_switch_out
  on_backend_query_profit_switch_coeff server document = do
    session_id ← json_parse_string document "id" ""
    require_valid
    token_info ← require_some (validate_session session_id "" false) "unknown_id"
    require (str_eq token_info.login "admin" || str_eq token_info.login "observer") "unknown_id"
    reply (
        page (
          obj (("status", str "ok") ∷ ("coins", arr (map profit_switch_out server.backends)) ∷ [])))

  unfoldable pub on_backend_query_pplns_payouts : Server j s → Value → Handler j s ⊥
  on_backend_query_pplns_payouts server document = do
    session_id ← json_parse_string document "id" ""
    target_login ← json_parse_string_or document "targetLogin" "" ""
    coin ← json_parse_string document "coin" ""
    time_from ← json_parse_int64_or document "timeFrom" (pos 0) (pos 0)
    hash_from ← json_parse_string_or document "hashFrom" "" ""
    count ← json_parse_uint_or document "count" 0 20
    require_valid
    token_info ← require_some (validate_session session_id target_login false) "unknown_id"
    backend ← require_some (find_backend server coin) "invalid_coin"
    start_call (query_pplns_payouts backend token_info.login time_from hash_from count)

  unfoldable pub on_backend_query_pplns_acc : Server j s → Value → Handler j s ⊥
  on_backend_query_pplns_acc server document = do
    session_id ← json_parse_string document "id" ""
    target_login ← json_parse_string_or document "targetLogin" "" ""
    coin ← json_parse_string document "coin" ""
    time_from ← json_parse_int64 document "timeFrom" (pos 0)
    time_to ← json_parse_int64 document "timeTo" (pos 0)
    group_by_interval ← json_parse_int64 document "groupByInterval" (pos 0)
    require_valid
    token_info ← require_some (validate_session session_id target_login false) "unknown_id"
    backend ← require_some (find_backend server coin) "invalid_coin"
    require (not (bad_interval time_from time_to group_by_interval)) "invalid_interval"
    start_call (query_pplns_acc backend token_info.login time_from time_to group_by_interval)

  unfoldable pub on_backend_update_profit_switch_coeff : Server j s → Value → Handler j s ⊥
  on_backend_update_profit_switch_coeff server document = do
    session_id ← json_parse_string document "id" ""
    coin ← json_parse_string_or document "coin" "" ""
    profit_switch_coeff ← json_parse_number document "profitSwitchCoeff" j.zero_double
    require_valid
    token_info ← require_some (validate_session session_id "" false) "unknown_id"
    require (str_eq token_info.login "admin") "unknown_id"
    backend ← require_some (find_backend server coin) "invalid_coin"
    emit (set_profit_switch_coeff backend profit_switch_coeff)
    reply_with_status "ok"

  -- The intervals must rise strictly, from above 0.
  unfoldable pub read_intervals : ℤ → List Value → Handler j s (List ℤ)
  read_intervals prev_interval [] = pure []
  read_intervals prev_interval (v ∷ vs) = do
    require (j.is_int64 v) "json_format_error"
    require (not (leb_ℤ (j.get_int64 v) prev_interval)) "json_format_error"
    rest ← read_intervals (j.get_int64 v) vs
    pure (j.get_int64 v ∷ rest)

  unfoldable pub on_backend_pool_luck : Server j s → Value → Handler j s ⊥
  unfolding read_intervals
  on_backend_pool_luck server document = do
    require
        ((has_member document "coin" && j.is_string (member document "coin"))
          && (has_member document "intervals" && j.is_array (member document "intervals")))
        "json_format_error"
    backend ←
        require_some (find_backend server (j.get_string (member document "coin"))) "invalid_coin"
    intervals ← read_intervals (pos 0) (j.get_array (member document "intervals"))
    start_call (pool_luck backend intervals)

  -- A stratum instance shows its share difficulty too.
  unfoldable pub instance_out : InstanceConfig Value Double → Out Double
  instance_out i =
      let base =
        ("protocol", str i.protocol)
        ∷ ("type", str i.type)
        ∷ ("port", int (pos i.port))
        ∷ ("backends", arr (map str i.backends))
        ∷ [] in
      obj (
        if str_eq i.protocol "stratum"
        then base ++ ("shareDiff", double i.stratum_share_diff) ∷ []
        else base)

  unfoldable pub on_instance_enumerate_all : Server j s → Value → Handler j s ⊥
  unfolding instance_out
  on_instance_enumerate_all server document = reply (
      page
        (obj (("status", str "ok") ∷ ("instances", arr (map instance_out server.instances)) ∷ [])))

  unfoldable pub on_complex_mining_stats_get_info : Value → Handler j s ⊥
  on_complex_mining_stats_get_info document = do
    session_id ← json_parse_string document "id" ""
    require_valid
    token_info ← require_some (validate_session session_id "" false) "unknown_id"
    require (str_eq token_info.login "admin") "unknown_id"
    start_call (query_mining_stats document)
