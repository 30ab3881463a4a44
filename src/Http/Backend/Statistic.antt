-- ===== src/Http/Backend/Statistic.antt =====
-- The statistics handlers of http.cpp.
use poolfrontend.Prelude.{
  false, not, Option, none, some, [], ◌∷◌, map, String, str_eq, if◌then◌else◌,
}
use poolfrontend.Prelude.Int.{ℤ, pos, ◌-ℤ◌}
use poolfrontend.Json.{Json}
use poolfrontend.Http.Out.{Out, obj, arr, str, int, double}
use poolfrontend.Http.Services.{Services}
use poolfrontend.Http.Types.{Stats, StatsColumn}
use poolfrontend.Http.Handler.{
  Handler, ◌>>=◌, ◌>>◌, reply, page, start_call, require_some, require_valid, query_user_stats,
  query_pool_stats, query_pool_stats_multi,
}
use poolfrontend.Http.Fields.{
  json_parse_string, json_parse_string_or, json_parse_int64_or, json_parse_uint64_or,
  json_parse_boolean_or,
}
use poolfrontend.Http.Lookup.{Server, statistic_db}

-- `sortBy` of onBackendQueryUserStats
unfoldable pub stats_column : String → Option StatsColumn
stats_column sort_by =
    if str_eq sort_by "name"
    then some StatsColumn.name
    else if str_eq sort_by "averagePower"
    then some StatsColumn.average_power
    else if str_eq sort_by "sharesPerSecond"
    then some StatsColumn.shares_per_second
    else if str_eq sort_by "lastShareTime"
    then some StatsColumn.last_share_time
    else none

module _ (j : Json) (s : Services j) where
  open j use {Value, Double}
  open s use {Statistic, statistic_coin_info, validate_session}

  unfoldable pub on_backend_query_user_stats : Server j s → Value → Handler j s ⊥
  on_backend_query_user_stats server document = do
    session_id ← json_parse_string document "id" ""
    target_login ← json_parse_string_or document "targetLogin" "" ""
    coin ← json_parse_string_or document "coin" "" ""
    offset ← json_parse_uint64_or document "offset" 0 0
    size ← json_parse_uint64_or document "size" 0 4096
    sort_by ← json_parse_string_or document "sortBy" "" "name"
    sort_descending ← json_parse_boolean_or document "sortDescending" false false
    require_valid
    column ← require_some (stats_column sort_by) "unknown_column_name"
    token_info ← require_some (validate_session session_id target_login false) "unknown_id"
    statistic ← require_some (statistic_db server coin) "invalid_coin"
    start_call (query_user_stats statistic token_info.login offset size column sort_descending)

  unfoldable pub history_point_out : Stats Double → Out Double
  history_point_out p = obj (
      ("name", str p.worker_id)
      ∷ ("time", int p.time)
      ∷ ("shareRate", double p.shares_per_second)
      ∷ ("shareWork", double p.shares_work)
      ∷ ("power", int p.average_power)
      ∷ [])

  unfoldable pub query_stats_history : Statistic → String → String → ℤ → ℤ → ℤ → ℤ → Handler j s ⊥
  unfolding history_point_out
  query_stats_history statistic login worker time_from time_to group_by_interval current_time =
      reply (
        page (
          obj (
            ("status", str "ok")
            ∷ ("powerUnit", str (statistic_coin_info statistic).power_unit_name)
            ∷ ("powerMultLog10", int (statistic_coin_info statistic).power_mult_log10)
            ∷ ("currentTime", int current_time)
            ∷ (
              "stats",
              arr (
                  map history_point_out
                    (s.get_history statistic login worker time_from time_to group_by_interval)),
            )
            ∷ [])))

  -- currentTime - 24*3600
  abbrev pub one_day_ago : ℤ
  one_day_ago = s.time -ℤ pos 86400

  unfoldable pub on_backend_query_user_stats_history : Server j s → Value → Handler j s ⊥
  unfolding query_stats_history
  on_backend_query_user_stats_history server document = do
    session_id ← json_parse_string document "id" ""
    target_login ← json_parse_string_or document "targetLogin" "" ""
    coin ← json_parse_string_or document "coin" "" ""
    time_from ← json_parse_int64_or document "timeFrom" (pos 0) one_day_ago
    time_to ← json_parse_int64_or document "timeTo" (pos 0) s.time
    group_by_interval ← json_parse_int64_or document "groupByInterval" (pos 0) (pos 3600)
    require_valid
    token_info ← require_some (validate_session session_id target_login false) "unknown_id"
    statistic ← require_some (statistic_db server coin) "invalid_coin"
    query_stats_history statistic token_info.login "" time_from time_to group_by_interval s.time

  unfoldable pub on_backend_query_worker_stats_history : Server j s → Value → Handler j s ⊥
  unfolding query_stats_history
  on_backend_query_worker_stats_history server document = do
    session_id ← json_parse_string document "id" ""
    target_login ← json_parse_string_or document "targetLogin" "" ""
    coin ← json_parse_string document "coin" ""
    worker_id ← json_parse_string document "workerId" ""
    time_from ← json_parse_int64_or document "timeFrom" (pos 0) one_day_ago
    time_to ← json_parse_int64_or document "timeTo" (pos 0) s.time
    group_by_interval ← json_parse_int64_or document "groupByInterval" (pos 0) (pos 3600)
    require_valid
    token_info ← require_some (validate_session session_id target_login false) "unknown_id"
    statistic ← require_some (statistic_db server coin) "invalid_coin"
    query_stats_history statistic token_info.login worker_id time_from time_to group_by_interval
        s.time

  -- With no coin named, the statistics of all the backends are asked.
  unfoldable pub query_pool : Server j s → String → Handler j s ⊥
  query_pool server coin =
      if not (str_eq coin "")
      then (do
        statistic ← require_some (statistic_db server coin) "invalid_coin"
        start_call (query_pool_stats statistic))
      else start_call (query_pool_stats_multi (map s.backend_statistic server.backends))

  unfoldable pub on_backend_query_pool_stats : Server j s → Value → Handler j s ⊥
  unfolding query_pool
  on_backend_query_pool_stats server document = do
    coin ← json_parse_string_or document "coin" "" ""
    require_valid
    query_pool server coin

  unfoldable pub on_backend_query_pool_stats_history : Server j s → Value → Handler j s ⊥
  unfolding query_stats_history
  on_backend_query_pool_stats_history server document = do
    coin ← json_parse_string_or document "coin" "" ""
    time_from ← json_parse_int64_or document "timeFrom" (pos 0) one_day_ago
    time_to ← json_parse_int64_or document "timeTo" (pos 0) s.time
    group_by_interval ← json_parse_int64_or document "groupByInterval" (pos 0) (pos 3600)
    require_valid
    statistic ← require_some (statistic_db server coin) "invalid_coin"
    query_stats_history statistic "" "" time_from time_to group_by_interval s.time
