-- ===== src/Http/Callback/Replies.antt =====
-- The replies that the callbacks of http.cpp write.
use poolfrontend.Prelude.{Bool, List, [], ◌∷◌, map, String, str_eq, if◌then◌else◌}
use poolfrontend.Prelude.Int.{pos}
use poolfrontend.Json.{Json}
use poolfrontend.Http.Out.{Out, obj, arr, str, int, boolean, double, undefined}
use poolfrontend.Http.Services.{Services}
use poolfrontend.Http.Types.{
  CoinInfo, Stats, CredentialsWithStatistic, UserBalance, FoundBlock, PplnsPayout, PplnsPayoutAcc,
}
use poolfrontend.Http.Handler.{Reply, page}
use poolfrontend.Http.Fields.{fnormalize}

module _ (j : Json) (s : Services j) where
  open j use {Double}
  open s use {Backend, Statistic, backend_coin_info, statistic_coin_info, format_money}

  unfoldable pub user_out : CredentialsWithStatistic Double → Out Double
  user_out user = obj (
      ("login", str user.credentials.login)
      ∷ ("name", str user.credentials.name)
      ∷ ("email", str user.credentials.email)
      ∷ ("registrationDate", int user.credentials.registration_date)
      ∷ ("isActive", boolean user.credentials.is_active)
      ∷ ("isReadOnly", boolean user.credentials.is_read_only)
      ∷ ("feePlanId", str user.credentials.fee_plan)
      ∷ ("workers", int user.workers_num)
      ∷ ("shareRate", double user.shares_per_second)
      ∷ ("power", int user.average_power)
      ∷ ("lastShareTime", int user.last_share_time)
      ∷ [])

  unfoldable pub balance_out : CoinInfo → UserBalance → Out Double
  balance_out coin record_ = obj (
      ("coin", str coin.name)
      ∷ (
        "balance",
        str (format_money (record_.balance coin.extra_multiplier) coin.rational_part_size),
      )
      ∷ ("requested", str (format_money record_.requested coin.rational_part_size))
      ∷ ("paid", str (format_money record_.paid coin.rational_part_size))
      ∷ ("queued", str (format_money record_.queued coin.rational_part_size))
      ∷ [])

  -- One entry for each record of the answer, with the backend at its index; `Server_.backend(i)` is not
  -- checked, and reads behind the end when there are more records than backends.
  unfoldable pub balances_out : List Backend → List UserBalance → List (Out Double)
  unfolding balance_out
  balances_out backends [] = []
  balances_out [] (r ∷ rs) = undefined ∷ balances_out [] rs
  balances_out (b ∷ bs) (r ∷ rs) = balance_out (backend_coin_info b) r ∷ balances_out bs rs

  unfoldable pub balances_reply : List (Out Double) → Reply Double
  balances_reply balances = page (obj (("status", str "ok") ∷ ("balances", arr balances) ∷ []))

  unfoldable pub worker_out : Stats Double → Out Double
  worker_out w = obj (
      ("name", str w.worker_id)
      ∷ ("shareRate", double w.shares_per_second)
      ∷ ("shareWork", double w.shares_work)
      ∷ ("power", int w.average_power)
      ∷ ("lastShareTime", int w.last_share_time)
      ∷ [])

  unfoldable pub user_stats_reply : Statistic → Stats Double → List (Stats Double) → Reply Double
  unfolding worker_out
  user_stats_reply statistic aggregate workers = page (
      obj (
        ("status", str "ok")
        ∷ ("powerUnit", str (statistic_coin_info statistic).power_unit_name)
        ∷ ("powerMultLog10", int (statistic_coin_info statistic).power_mult_log10)
        ∷ ("currentTime", int s.time)
        ∷ (
          "total",
          obj (
              ("clients", int aggregate.clients_num)
              ∷ ("workers", int aggregate.workers_num)
              ∷ ("shareRate", double aggregate.shares_per_second)
              ∷ ("shareWork", double aggregate.shares_work)
              ∷ ("power", int aggregate.average_power)
              ∷ ("lastShareTime", int aggregate.last_share_time)
              ∷ []),
        )
        ∷ ("workers", arr (map worker_out workers))
        ∷ []))

  unfoldable pub block_out : CoinInfo → FoundBlock → Out Double
  block_out coin b = obj (
      ("height", int b.height)
      ∷ ("hash", str (if str_eq b.public_hash "" then b.hash else b.public_hash))
      ∷ ("time", int b.time)
      ∷ ("confirmations", int b.confirmations)
      ∷ ("generatedCoins", str (format_money b.available_coins coin.rational_part_size))
      ∷ ("foundBy", str b.found_by)
      ∷ [])

  unfoldable pub pool_stats_reply : CoinInfo → Stats Double → Reply Double
  pool_stats_reply coin stats = page (
      obj (
        ("status", str "ok")
        ∷ ("currentTime", int s.time)
        ∷ (
          "stats",
          arr (
              obj (
                ("coin", str coin.name)
                ∷ ("powerUnit", str coin.power_unit_name)
                ∷ ("powerMultLog10", int coin.power_mult_log10)
                ∷ ("clients", int stats.clients_num)
                ∷ ("workers", int stats.workers_num)
                ∷ ("shareRate", double stats.shares_per_second)
                ∷ ("shareWork", double stats.shares_work)
                ∷ ("power", int stats.average_power)
                ∷ ("lastShareTime", int stats.last_share_time)
                ∷ [])
              ∷ []),
        )
        ∷ []))

  -- One entry for each record of the answer, as in balances_out. The reply on all pools shows neither
  -- the current time nor that of the last share.
  unfoldable pub pools_out : List Backend → List (Stats Double) → List (Out Double)
  pools_out backends [] = []
  pools_out [] (r ∷ rs) = undefined ∷ pools_out [] rs
  pools_out (b ∷ bs) (r ∷ rs) =
      obj (
        ("coin", str (backend_coin_info b).name)
        ∷ ("powerUnit", str (backend_coin_info b).power_unit_name)
        ∷ ("powerMultLog10", int (backend_coin_info b).power_mult_log10)
        ∷ ("clients", int r.clients_num)
        ∷ ("workers", int r.workers_num)
        ∷ ("shareRate", double r.shares_per_second)
        ∷ ("shareWork", double r.shares_work)
        ∷ ("power", int r.average_power)
        ∷ [])
      ∷ pools_out bs rs

  unfoldable pub pplns_payout_out : CoinInfo → PplnsPayout Double → Out Double
  pplns_payout_out coin p = obj (
      ("startTime", int p.round_start_time)
      ∷ ("endTime", int p.round_end_time)
      ∷ ("hash", str p.block_hash)
      ∷ ("height", int p.block_height)
      ∷ ("value", str (format_money p.payout_value coin.rational_part_size))
      ∷ ("coinBtcRate", double (fnormalize j p.rate_to_btc))
      ∷ ("btcUsdRate", double (fnormalize j p.rate_btc_to_usd))
      ∷ [])

  unfoldable pub pplns_acc_out : CoinInfo → PplnsPayoutAcc Double → Out Double
  pplns_acc_out coin p = obj (
      ("timeLabel", int p.interval_end)
      ∷ ("value", str (format_money p.total_coin coin.rational_part_size))
      ∷ ("valueBTC", str (format_money p.total_btc (pos 100000000)))
      ∷ ("valueUSD", double (fnormalize j p.total_usd))
      ∷ ("avghashrate", int p.avg_hash_rate)
      ∷ [])

  unfoldable pub users_reply : String → List (CredentialsWithStatistic Double) → Reply Double
  unfolding user_out
  users_reply status result =
      page (obj (("status", str status) ∷ ("users", arr (map user_out result)) ∷ []))

  unfoldable pub login_reply : String → String → Bool → Reply Double
  login_reply session_id status is_read_only = page (
      obj (
        ("status", str status)
        ∷ ("sessionid", str session_id)
        ∷ ("isReadOnly", boolean is_read_only)
        ∷ []))

  unfoldable pub session_reply : String → String → Reply Double
  session_reply session_id status =
      page (obj (("status", str status) ∷ ("sessionid", str session_id) ∷ []))

  unfoldable pub key_reply : String → String → Reply Double
  key_reply status key = page (obj (("status", str status) ∷ ("key", str key) ∷ []))

  unfoldable pub blocks_reply : CoinInfo → List FoundBlock → Reply Double
  unfolding block_out
  blocks_reply coin blocks =
      page (obj (("status", str "ok") ∷ ("blocks", arr (map (block_out coin) blocks)) ∷ []))

  unfoldable pub pools_reply : List Backend → List (Stats Double) → Reply Double
  unfolding pools_out
  pools_reply backends stats =
      page (obj (("status", str "ok") ∷ ("stats", arr (pools_out backends stats)) ∷ []))

  unfoldable pub pplns_payouts_reply : CoinInfo → List (PplnsPayout Double) → Reply Double
  unfolding pplns_payout_out
  pplns_payouts_reply coin payouts =
      page
        (obj (("status", str "ok") ∷ ("payouts", arr (map (pplns_payout_out coin) payouts)) ∷ []))

  unfoldable pub pplns_acc_reply : CoinInfo → List (PplnsPayoutAcc Double) → Reply Double
  unfolding pplns_acc_out
  pplns_acc_reply coin payouts =
      page (obj (("status", str "ok") ∷ ("payouts", arr (map (pplns_acc_out coin) payouts)) ∷ []))

  unfoldable pub luck_reply : List Double → Reply Double
  luck_reply result = page (obj (("status", str "ok") ∷ ("luck", arr (map double result)) ∷ []))
