-- ===== src/Config/Decode/Schema.antt =====
-- The records of config.h as they stand in the file.
use poolfrontend.Prelude.{true, false, Option, none, some, List, [], String, str_eq, if◌then◌else◌}
use poolfrontend.Json.{Json}
use poolfrontend.Config.Types.{
  InstanceConfig, NodeConfig, FeeConfig, MiningAddressConfig, CoinConfig, PoolFrontendConfig,
}
use poolfrontend.Config.Decode.{◌>>=◌, ◌>>◌, field, field_or, strings, holds, each}

module _ (j : Json) where
  open j use {Value, Double}

  unfoldable pub or_else : {A : Type 0} → Option A → A → A
  or_else o default = elim o [ some a ↦ a | none ↦ default ]

  -- The difficulty of an instance: that of a stratum instance's shareDiff, an unsigned integer of 64
  -- bits or a floating point number, and 0 otherwise.
  unfoldable pub share_diff : String → Value → Double
  unfolding or_else
  share_diff protocol value =
      let whole = field j j.is_uint64 (λ v. j.double_of (j.get_uint64 v)) value "shareDiff" in
      let fraction = field j j.is_double j.get_double value "shareDiff" in
      if str_eq protocol "stratum"
      then or_else whole (or_else fraction j.zero_double)
      else j.zero_double

  unfoldable pub instance_of : Value → Option (InstanceConfig Value Double)
  instance_of value = do
    name ← field j j.is_string j.get_string value "name"
    type ← field j j.is_string j.get_string value "type"
    protocol ← field j j.is_string j.get_string value "protocol"
    backends ← strings j value "backends"
    port ← field_or j j.is_uint j.get_uint value "port" 0
    some (record {
      name = name;
      type = type;
      protocol = protocol;
      backends = backends;
      port = port;
      stratum_share_diff = share_diff protocol value;
      instance_config = value;
    })

  unfoldable pub node_of : Value → Option NodeConfig
  node_of value = do
    type ← field j j.is_string j.get_string value "type"
    address ← field j j.is_string j.get_string value "address"
    login ← field_or j j.is_string j.get_string value "login" ""
    password ← field_or j j.is_string j.get_string value "password" ""
    wallet ← field_or j j.is_string j.get_string value "wallet" ""
    long_poll_enabled ← field_or j j.is_bool j.get_bool value "longPollEnabled" true
    some (record {
      type = type;
      address = address;
      login = login;
      password = password;
      wallet = wallet;
      long_poll_enabled = long_poll_enabled;
    })

  unfoldable pub fee_of : Value → Option (FeeConfig Double)
  fee_of value = do
    address ← field j j.is_string j.get_string value "address"
    percentage ← field j j.is_float j.get_double value "percentage"
    some (record { address = address; percentage = percentage })

  unfoldable pub mining_address_of : Value → Option MiningAddressConfig
  mining_address_of value = do
    address ← field j j.is_string j.get_string value "address"
    private_key ← field_or j j.is_string j.get_string value "privateKey" ""
    weight ← field j j.is_uint j.get_uint value "weight"
    some (record { address = address; private_key = private_key; weight = weight })

  unfoldable pub coin_of : Value → Option (CoinConfig Double)
  coin_of value = do
    name ← field j j.is_string j.get_string value "name"
    holds j j.is_array value "getWorkNodes"
    holds j j.is_array value "RPCNodes"
    get_work_nodes ← each j node_of value "getWorkNodes"
    rpc_nodes ← each j node_of value "RPCNodes"
    holds j j.is_array value "fees"
    fees ← each j fee_of value "fees"
    required_confirmations ← field j j.is_uint j.get_uint value "requiredConfirmations"
    default_payout_threshold ← field j j.is_string j.get_string value "defaultPayoutThreshold"
    minimal_allowed_payout ← field j j.is_string j.get_string value "minimalAllowedPayout"
    keep_round_time ← field j j.is_uint j.get_uint value "keepRoundTime"
    keep_stats_time ← field j j.is_uint j.get_uint value "keepStatsTime"
    confirmations_check_interval ← field j j.is_uint j.get_uint value "confirmationsCheckInterval"
    payout_interval ← field j j.is_uint j.get_uint value "payoutInterval"
    balance_check_interval ← field j j.is_uint j.get_uint value "balanceCheckInterval"
    statistic_check_interval ← field j j.is_uint j.get_uint value "statisticCheckInterval"
    share_target ← field j j.is_uint j.get_uint value "shareTarget"
    stratum_work_life_time ← field_or j j.is_uint j.get_uint value "stratumWorkLifeTime" 0
    holds j j.is_array value "miningAddresses"
    mining_addresses ← each j mining_address_of value "miningAddresses"
    coinbase_msg ← field_or j j.is_string j.get_string value "coinbaseMsg" ""
    profit_switch_coeff ← field_or j j.is_float j.get_double value "profitSwitchCoeff" j.zero_double
    pool_zaddr ← field_or j j.is_string j.get_string value "pool_zaddr" ""
    pool_taddr ← field_or j j.is_string j.get_string value "pool_taddr" ""
    some (record {
      name = name;
      get_work_nodes = get_work_nodes;
      rpc_nodes = rpc_nodes;
      fees = fees;
      required_confirmations = required_confirmations;
      default_payout_threshold = default_payout_threshold;
      minimal_allowed_payout = minimal_allowed_payout;
      keep_round_time = keep_round_time;
      keep_stats_time = keep_stats_time;
      confirmations_check_interval = confirmations_check_interval;
      payout_interval = payout_interval;
      balance_check_interval = balance_check_interval;
      statistic_check_interval = statistic_check_interval;
      share_target = share_target;
      stratum_work_life_time = stratum_work_life_time;
      mining_addresses = mining_addresses;
      coinbase_msg = coinbase_msg;
      profit_switch_coeff = profit_switch_coeff;
      pool_zaddr = pool_zaddr;
      pool_taddr = pool_taddr;
    })

  -- The settings with the coins and instances given.
  unfoldable pub settings_of :
      Value
      → List (CoinConfig Double)
      → List (InstanceConfig Value Double)
      → Option (PoolFrontendConfig Value Double)
  settings_of object coins instances = do
    is_master ← field j j.is_bool j.get_bool object "isMaster"
    http_port ← field j j.is_uint j.get_uint object "httpPort"
    worker_threads_num ← field_or j j.is_uint j.get_uint object "workerThreadsNum" 0
    http_threads_num ← field_or j j.is_uint j.get_uint object "httpThreadsNum" 0
    admin_password_hash ← field_or j j.is_string j.get_string object "adminPasswordHash" ""
    observer_password_hash ← field_or j j.is_string j.get_string object "observerPasswordHash" ""
    db_path ← field j j.is_string j.get_string object "dbPath"
    pool_name ← field j j.is_string j.get_string object "poolName"
    pool_host_protocol ← field j j.is_string j.get_string object "poolHostProtocol"
    pool_host_address ← field j j.is_string j.get_string object "poolHostAddress"
    pool_activate_link_prefix ← field j j.is_string j.get_string object "poolActivateLinkPrefix"
    pool_change_password_link_prefix ←
        field j j.is_string j.get_string object "poolChangePasswordLinkPrefix"
    pool_activate2fa_link_prefix ←
        field j j.is_string j.get_string object "poolActivate2faLinkPrefix"
    pool_deactivate2fa_link_prefix ←
        field j j.is_string j.get_string object "poolDeactivate2faLinkPrefix"
    smtp_enabled ← field j j.is_bool j.get_bool object "smtpEnabled"
    smtp_server ← field j j.is_string j.get_string object "smtpServer"
    smtp_login ← field j j.is_string j.get_string object "smtpLogin"
    smtp_password ← field j j.is_string j.get_string object "smtpPassword"
    smtp_sender_address ← field j j.is_string j.get_string object "smtpSenderAddress"
    smtp_use_smtps ← field_or j j.is_bool j.get_bool object "smtpUseSmtps" false
    smtp_use_start_tls ← field_or j j.is_bool j.get_bool object "smtpUseStartTLS" true
    some (record {
      is_master = is_master;
      http_port = http_port;
      worker_threads_num = worker_threads_num;
      http_threads_num = http_threads_num;
      admin_password_hash = admin_password_hash;
      observer_password_hash = observer_password_hash;
      db_path = db_path;
      pool_name = pool_name;
      pool_host_protocol = pool_host_protocol;
      pool_host_address = pool_host_address;
      pool_activate_link_prefix = pool_activate_link_prefix;
      pool_change_password_link_prefix = pool_change_password_link_prefix;
      pool_activate2fa_link_prefix = pool_activate2fa_link_prefix;
      pool_deactivate2fa_link_prefix = pool_deactivate2fa_link_prefix;
      smtp_enabled = smtp_enabled;
      smtp_server = smtp_server;
      smtp_login = smtp_login;
      smtp_password = smtp_password;
      smtp_sender_address = smtp_sender_address;
      smtp_use_smtps = smtp_use_smtps;
      smtp_use_start_tls = smtp_use_start_tls;
      coins = coins;
      instances = instances;
    })

  unfoldable pub frontend_of : Value → Option (PoolFrontendConfig Value Double)
  frontend_of document = do
    holds j j.is_object document "poolfrontend"
    config ← settings_of (j.member document "poolfrontend") [] []
    holds j j.is_array document "coins"
    coins ← each j coin_of document "coins"
    holds j j.is_array document "instances"
    instances ← each j instance_of document "instances"
    some (record config { coins = coins; instances = instances })
