-- ===== src/Config/Types.antt =====
-- config.h: the structures that the configuration file is loaded into. `V` is the type of JSON
-- values and `D` that of floating point numbers.
use poolfrontend.Prelude.{ℕ, Bool, List, String}

-- CInstanceConfig
pub record InstanceConfig (V D : Type 0) : Type 0 where
  pub name : String
  pub type : String
  pub protocol : String
  pub backends : List String
  pub port : ℕ
  pub stratum_share_diff : D
  pub instance_config : V

-- CNodeConfig
pub record NodeConfig : Type 0 where
  pub type : String
  pub address : String
  pub login : String
  pub password : String
  pub wallet : String
  pub long_poll_enabled : Bool

-- CFeeConfig
pub record FeeConfig (D : Type 0) : Type 0 where
  pub address : String
  pub percentage : D

-- CMiningAddressConfig
pub record MiningAddressConfig : Type 0 where
  pub address : String
  pub private_key : String
  pub weight : ℕ

-- CCoinConfig
pub record CoinConfig (D : Type 0) : Type 0 where
  pub name : String
  pub get_work_nodes : List NodeConfig
  pub rpc_nodes : List NodeConfig
  pub fees : List (FeeConfig D)
  pub required_confirmations : ℕ
  pub default_payout_threshold : String
  pub minimal_allowed_payout : String
  pub keep_round_time : ℕ
  pub keep_stats_time : ℕ
  pub confirmations_check_interval : ℕ
  pub payout_interval : ℕ
  pub balance_check_interval : ℕ
  pub statistic_check_interval : ℕ
  pub share_target : ℕ
  pub stratum_work_life_time : ℕ
  pub mining_addresses : List MiningAddressConfig
  pub coinbase_msg : String
  pub profit_switch_coeff : D
  pub pool_zaddr : String
  pub pool_taddr : String

-- CPoolFrontendConfig
pub record PoolFrontendConfig (V D : Type 0) : Type 0 where
  pub is_master : Bool
  pub http_port : ℕ
  pub worker_threads_num : ℕ
  pub http_threads_num : ℕ
  pub admin_password_hash : String
  pub observer_password_hash : String
  pub db_path : String
  pub pool_name : String
  pub pool_host_protocol : String
  pub pool_host_address : String
  pub pool_activate_link_prefix : String
  pub pool_change_password_link_prefix : String
  pub pool_activate2fa_link_prefix : String
  pub pool_deactivate2fa_link_prefix : String
  pub smtp_enabled : Bool
  pub smtp_server : String
  pub smtp_login : String
  pub smtp_password : String
  pub smtp_sender_address : String
  pub smtp_use_smtps : Bool
  pub smtp_use_start_tls : Bool
  pub coins : List (CoinConfig D)
  pub instances : List (InstanceConfig V D)
