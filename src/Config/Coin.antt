-- ===== src/Config/Coin.antt =====
-- CCoinConfig::load of config.cpp.
use Prim.Native.String.{◌++◌}
use poolfrontend.Prelude.{[], String, if◌then◌else◌, ◌&&◌}
use poolfrontend.Json.{Json}
use poolfrontend.Config.Types.{CoinConfig}
use poolfrontend.Config.Loader.{Loader, ◌>>=◌, ◌>>◌, pure, leave, load_all, type_mismatch}
use poolfrontend.Config.Readers.{
  json_parse_string, json_parse_string_or, json_parse_uint, json_parse_uint_or,
  json_parse_double_or, check,
}
use poolfrontend.Config.Parts.{load_node, load_fee, load_mining_address}

module _ (j : Json) where
  open j use {Value, Double}

  -- The test of miningAddresses.
  unfoldable pub check_mining_addresses :
      Value → String → CoinConfig Double → Loader (CoinConfig Double) (Unit {0})
  unfolding pure leave
  check_mining_addresses value place c =
      if j.has_member value "miningAddresses" && j.is_array (j.member value "miningAddresses")
      then pure tt
      else leave type_mismatch place "miningAddress" "array of objects" c

  -- What `resize` creates.
  unfoldable pub empty_coin : CoinConfig Double
  empty_coin = record {
    name = "";
    get_work_nodes = [];
    rpc_nodes = [];
    fees = [];
    required_confirmations = 0;
    default_payout_threshold = "";
    minimal_allowed_payout = "";
    keep_round_time = 0;
    keep_stats_time = 0;
    confirmations_check_interval = 0;
    payout_interval = 0;
    balance_check_interval = 0;
    statistic_check_interval = 0;
    share_target = 0;
    stratum_work_life_time = 0;
    mining_addresses = [];
    coinbase_msg = "";
    profit_switch_coeff = j.zero_double;
    pool_zaddr = "";
    pool_taddr = "";
  }

  unfoldable pub load_coin : Value → Loader (CoinConfig Double) (CoinConfig Double)
  load_coin value = do
    name ← json_parse_string j value "name" "" "coins"
    let local_path = "coins" ++ " -> " ++ name
    let c = record empty_coin { name = name }
    check j j.is_array "array of objects" value "getWorkNodes" local_path c
    check j j.is_array "array of objects" value "RPCNodes" local_path c
    get_work_nodes ← load_all (load_node j local_path) (j.get_array (j.member value "getWorkNodes"))
    rpc_nodes ← load_all (load_node j local_path) (j.get_array (j.member value "RPCNodes"))
    let c = record c { get_work_nodes = get_work_nodes; rpc_nodes = rpc_nodes }
    check j j.is_array "array of objects" value "fees" local_path c
    fees ← load_all (load_fee j local_path) (j.get_array (j.member value "fees"))
    required_confirmations ← json_parse_uint j value "requiredConfirmations" 0 local_path
    default_payout_threshold ← json_parse_string j value "defaultPayoutThreshold" "" local_path
    minimal_allowed_payout ← json_parse_string j value "minimalAllowedPayout" "" local_path
    keep_round_time ← json_parse_uint j value "keepRoundTime" 0 local_path
    keep_stats_time ← json_parse_uint j value "keepStatsTime" 0 local_path
    confirmations_check_interval ← json_parse_uint j value "confirmationsCheckInterval" 0 local_path
    payout_interval ← json_parse_uint j value "payoutInterval" 0 local_path
    balance_check_interval ← json_parse_uint j value "balanceCheckInterval" 0 local_path
    statistic_check_interval ← json_parse_uint j value "statisticCheckInterval" 0 local_path
    share_target ← json_parse_uint j value "shareTarget" 0 local_path
    stratum_work_life_time ← json_parse_uint_or j value "stratumWorkLifeTime" 0 0 local_path
    let c = record c {
      fees = fees;
      required_confirmations = required_confirmations;
      default_payout_threshold = default_payout_threshold;
      minimal_allowed_payout = minimal_allowed_payout;
      keep_round_time = keep_round_time;
      keep_stats_time = keep_stats_time;
      confirmations_check_interval = confirmations_check_interval;
      payout_interval = payout_interval;
      balance_check_interval = balance_check_interval;
      statistic_check_interval = statistic_check_interval;
      share_target = share_target;
      stratum_work_life_time = stratum_work_life_time;
    }
    check_mining_addresses value local_path c
    mining_addresses ←
        load_all (load_mining_address j local_path) (j.get_array (j.member value "miningAddresses"))
    coinbase_msg ← json_parse_string_or j value "coinbaseMsg" "" "" local_path
    profit_switch_coeff ←
        json_parse_double_or j value "profitSwitchCoeff" j.zero_double j.zero_double local_path
    pool_zaddr ← json_parse_string_or j value "pool_zaddr" "" "" local_path
    pool_taddr ← json_parse_string_or j value "pool_taddr" "" "" local_path
    pure (record c {
      mining_addresses = mining_addresses;
      coinbase_msg = coinbase_msg;
      profit_switch_coeff = profit_switch_coeff;
      pool_zaddr = pool_zaddr;
      pool_taddr = pool_taddr;
    })
