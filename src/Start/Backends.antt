-- ===== src/Start/Backends.antt =====
-- main.cpp: the coins of the configuration and the backend of each.
use poolfrontend.Prelude.{
  ℕ, ◌*◌, ◌%◌, ◌^◌, Bool, not, Option, none, some, List, [], ◌∷◌, ◌++◌, String, str_eq, ltb,
  if◌then◌else◌,
}
use poolfrontend.Json.{Json}
use poolfrontend.Config.Types.{CoinConfig, NodeConfig, MiningAddressConfig}
use poolfrontend.Start.Types.{
  Core, Backend, Client, bitcoin_rpc, ethereum_rpc, StatisticServer, PoolBackendConfig,
  MiningAddress, Result, done, failed, ◌>>=◌, ◌>>◌, require, require_some, each, unknown_coin,
  bad_default_payout_threshold, bad_minimal_payout, too_few_confirmations, invalid_mining_address,
  unknown_node_type, unknown_algorithm,
}
use poolfrontend.Start.Text.{◌/path◌}

-- unsigned arithmetic: days, minutes and minutes into seconds, seconds and microseconds
unfoldable pub days_in_seconds : ℕ → ℕ
days_in_seconds days = days * 24 % 2 ^ 32 * 3600 % 2 ^ 32

unfoldable pub minutes_in_seconds : ℕ → ℕ
minutes_in_seconds minutes = minutes * 60 % 2 ^ 32

unfoldable pub minutes_in_microseconds : ℕ → ℕ
minutes_in_microseconds minutes = minutes * 60 % 2 ^ 32 * 1000000 % 2 ^ 32

abbrev or_default : String → String → String
or_default text default = if str_eq text "" then default else text

module _ (j : Json) (core : Core j.Double j.Value) where
  open j use {Value, Double}
  open core use {CoinInfo}

  -- The loop that looks up each coin.
  unfoldable pub lookup_coin : CoinConfig Double → Result CoinInfo
  lookup_coin coin = do
    let coin_info = core.get coin.name
    require (not (str_eq (core.name coin_info) "")) (unknown_coin coin.name)
    done coin_info

  unfoldable pub mining_address : CoinInfo → MiningAddressConfig → Result MiningAddress
  mining_address coin_info addr = do
    require (core.check_address coin_info addr.address) (invalid_mining_address addr.address)
    done (record { address = addr.address; private_key = addr.private_key; weight = addr.weight })

  -- What is set before the nodes are created. The pool is `is_master`, `path` and `pool_name`.
  unfoldable pub backend_config :
      Bool → String → String → CoinConfig Double → CoinInfo → Result PoolBackendConfig
  backend_config is_master path pool_name coin coin_info = do
    default_payout_threshold ←
        require_some (core.parse_money_value coin_info coin.default_payout_threshold)
          (bad_default_payout_threshold coin.name)
    minimal_allowed_payout ←
        require_some (core.parse_money_value coin_info coin.minimal_allowed_payout)
          (bad_minimal_payout coin.name)
    require (not (ltb coin.required_confirmations (core.minimal_confirmations_number coin_info)))
        (too_few_confirmations (core.name coin_info) (core.minimal_confirmations_number coin_info))
    mining_addresses ← each (mining_address coin_info) coin.mining_addresses
    done (record {
      is_master = is_master;
      db_path = path /path core.name coin_info;
      default_payout_threshold = default_payout_threshold;
      minimal_allowed_payout = minimal_allowed_payout;
      required_confirmations = coin.required_confirmations;
      keep_round_time = days_in_seconds coin.keep_round_time;
      keep_stats_time = minutes_in_seconds coin.keep_stats_time;
      confirmations_check_interval = minutes_in_microseconds coin.confirmations_check_interval;
      payout_interval = minutes_in_microseconds coin.payout_interval;
      balance_check_interval = minutes_in_microseconds coin.balance_check_interval;
      mining_addresses = mining_addresses;
      coin_base_msg = or_default coin.coinbase_msg pool_name;
      pool_zaddr = coin.pool_zaddr;
      pool_taddr = coin.pool_taddr;
    })

  unfoldable pub create_client :
      ℕ → CoinInfo → PoolBackendConfig → NodeConfig → Result (Client CoinInfo)
  create_client threads coin_info config node =
      if str_eq node.type "bitcoinrpc"
      then done (
          bitcoin_rpc threads coin_info node.address node.login node.password node.wallet
            node.long_poll_enabled)
      else (if str_eq node.type "ethereumrpc"
          then done (ethereum_rpc threads coin_info node.address config)
          else failed (unknown_node_type node.type))

  -- knownAlgo, by the algorithm's name
  abbrev pub Servers : Type 0
  Servers = List (String × StatisticServer CoinInfo)

  abbrev pub find_server : Servers → String → Option (StatisticServer CoinInfo)
  find_server [] algorithm = none
  find_server ((name, server) ∷ servers) algorithm =
      let rest = find_server servers algorithm in
      if str_eq name algorithm then some server else rest

  -- The server of a coin's algorithm, and the servers known from then on.
  unfoldable pub algo_server :
      String → CoinInfo → Servers → Result (StatisticServer CoinInfo × Servers)
  algo_server path coin_info known = elim (find_server known (core.algorithm coin_info)) [
    | some server ↦ done (server, known)
    | none ↦ do
      let algo_info = core.get (core.algorithm coin_info)
      require (not (str_eq (core.name algo_info) ""))
          (unknown_algorithm (core.name coin_info) (core.algorithm coin_info))
      let server : StatisticServer CoinInfo = record {
        db_path = path /path core.name algo_info;
        coin_info = algo_info;
      }
      done (server, known ++ (core.algorithm coin_info, server) ∷ [])
  ]

  -- One turn of the loop over the coins.
  unfoldable pub create_backend :
      Bool
      → String
      → String
      → ℕ
      → CoinConfig Double
      → CoinInfo
      → Servers
      → Result (Backend CoinInfo Double × Servers)
  create_backend is_master path pool_name threads coin coin_info known = do
    config ← backend_config is_master path pool_name coin coin_info
    get_work_clients ← each (create_client threads coin_info config) coin.get_work_nodes
    rpc_clients ← each (create_client threads coin_info config) coin.rpc_nodes
    (server, known) ← algo_server path coin_info known
    done (
      record {
        config = config;
        coin_info = coin_info;
        get_work_clients = get_work_clients;
        rpc_clients = rpc_clients;
        profit_switch_coeff =
            if core.is_zero coin.profit_switch_coeff then none else some coin.profit_switch_coeff;
        algo_meta_statistic = server;
      },
      known,
    )

  -- The loop over the coins and their entries of the library.
  unfoldable pub create_backends :
      Bool
      → String
      → String
      → ℕ
      → List (CoinConfig Double)
      → List CoinInfo
      → Servers
      → Result (List (Backend CoinInfo Double) × Servers)
  create_backends is_master path pool_name threads (coin ∷ coins) (coin_info ∷ coin_infos) known =
      do
        (backend, known) ← create_backend is_master path pool_name threads coin coin_info known
        (backends, known) ← create_backends is_master path pool_name threads coins coin_infos known
        done (backend ∷ backends, known)
  create_backends is_master path pool_name threads _ _ known = done ([], known)
