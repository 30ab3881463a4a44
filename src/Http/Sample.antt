-- ===== src/Http/Sample.antt =====
-- A concrete setting for the examples: two coins, one user with a session, one request.
use poolfrontend.Prelude.{
  ℕ, Bool, true, false, Option, none, some, List, [], ◌∷◌, String, str_eq, inl, if◌then◌else◌,
}
use poolfrontend.Prelude.Int.{ℤ, pos}
use poolfrontend.Json.Sample.{Doc, Docs, text, obj, field, end, sample_json}
use poolfrontend.Http.Types.{Credentials, UserWithAccessRights, CoinInfo, Stats}
use poolfrontend.Http.Services.{Services}
use poolfrontend.Http.Handler.{
  ServiceCall, user_login, user_query_monitoring_session, enumerate_users, query_all_users_stats,
  activate2fa_initiate, query_user_balance, query_user_balance_multi, query_user_stats,
  query_found_blocks, query_pool_stats, query_pool_stats_multi, query_pplns_payouts,
  query_pplns_acc, pool_luck,
}
use poolfrontend.Http.Lookup.{Server, make_server}
use poolfrontend.Http.Callback.{Answer}

abbrev coin : String → CoinInfo
coin name = record {
  name = name;
  full_name = name;
  algorithm = "sha256";
  rational_part_size = pos 100000000;
  extra_multiplier = pos 1;
  payout_address_type = 0;
  power_mult_log10 = pos 6;
  power_unit_name = "hash";
}

abbrev pub bitcoin : CoinInfo
bitcoin = coin "BTC"

abbrev pub litecoin : CoinInfo
litecoin = coin "LTC"

abbrev blank : Credentials
blank = record {
  login = "";
  password = "";
  name = "";
  email = "";
  two_factor = "";
  is_active = false;
  is_read_only = false;
  fee_plan = "default";
  registration_date = pos 0;
  has_two_factor = false;
}

-- The session "s1" is the user alice's, who may write; "s0" is that of the administrator.
abbrev sessions : String → String → Bool → Option UserWithAccessRights
sessions id target needs_write =
    if str_eq id "s1"
    then some (record { login = "alice"; is_read_only = false })
    else if str_eq id "s0"
    then some (record { login = "admin"; is_read_only = false })
    else none

abbrev coins : String → Option CoinInfo
coins name =
    if str_eq name "BTC" then some bitcoin else if str_eq name "LTC" then some litecoin else none

abbrev pub sample_services : Services sample_json
sample_services = record {
  Backend = CoinInfo;
  Statistic = CoinInfo;
  backend_coin_info = λ c. c;
  backend_statistic = λ c. c;
  minimal_allowed_payout = λ c. pos 1000;
  profit_switch_coeff = λ c. pos 0;
  query_payouts = λ c login from count. [];
  statistic_coin_info = λ c. c;
  get_history = λ c login worker from to group. [];
  validate_session = sessions;
  default_credentials = blank;
  get_user_credentials = λ login. none;
  get_user_coin_settings = λ login c. none;
  enumerate_fee_plan = λ id. inl "no_fee_plan";
  get_fee_plan = λ id plan. inl "no_fee_plan";
  coin_info = bitcoin ∷ litecoin ∷ [];
  find_coin = coins;
  check_address = λ c address. str_eq address "addr1";
  parse_money_value = λ value multiplier. if str_eq value "1" then some multiplier else none;
  format_money = λ value multiplier. "1";
  time = pos 1600000000;
}

abbrev pub sample_server : Server sample_json sample_services
unfolding make_server
sample_server = make_server (litecoin ∷ bitcoin ∷ []) (coin "sha256" ∷ []) []

-- The request's document, for whatever text.
abbrev pub document : Doc
document = obj (
    field "id" (text "s1") (
      field "coin" (text "BTC") (
        field "address" (text "addr1")
          (field "payoutThreshold" (text "1") (field "autoPayoutEnabled" (Doc.boolean true) end)))))

abbrev pub luck_document : Doc
luck_document = obj (
    field "coin" (text "LTC") (
      field "intervals"
        (Doc.arr (Docs.cons (Doc.num (pos 60)) (Docs.cons (Doc.num (pos 3600)) Docs.nil))) end))

abbrev pub acc_document : Doc
acc_document = obj (
    field "id" (text "s1") (
      field "coin" (text "LTC") (
        field "timeFrom" (Doc.num (pos 100)) (
          field "timeTo" (Doc.num (pos 7300)) (field "groupByInterval" (Doc.num (pos 3600)) end)))))

abbrev pub sample_parse : List ℕ → Option Doc
sample_parse bytes = some document

abbrev no_stats : Stats ℤ
no_stats = record {
  worker_id = "";
  time = pos 0;
  clients_num = pos 0;
  workers_num = pos 0;
  shares_per_second = pos 0;
  shares_work = pos 0;
  average_power = pos 0;
  last_share_time = pos 0;
}

abbrev pub sample_answer : (c : ServiceCall sample_json sample_services) → Answer c
sample_answer (user_login credentials) = ("s1", "ok", false)
sample_answer (user_query_monitoring_session id target) = ("s2", "ok")
sample_answer (enumerate_users id statistic offset size column descending) = ("ok", [])
sample_answer (query_all_users_stats statistic users status offset size column descending) = []
sample_answer (activate2fa_initiate id target) = ("key", "ok")
sample_answer (query_user_balance backend login) = record {
  balance = λ n. n;
  requested = pos 0;
  paid = pos 0;
  queued = pos 0;
}
sample_answer (query_user_balance_multi backends login) = []
sample_answer (query_user_stats statistic login offset size column descending) = (no_stats, [])
sample_answer (query_found_blocks backend height hash count) = []
sample_answer (query_pool_stats statistic) = no_stats
sample_answer (query_pool_stats_multi statistics) = []
sample_answer (query_pplns_payouts backend login from hash count) = []
sample_answer (query_pplns_acc backend login from to group) = []
sample_answer (pool_luck backend intervals) = []
sample_answer _ = "ok"
