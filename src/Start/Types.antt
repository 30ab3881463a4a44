-- ===== src/Start/Types.antt =====
-- What main.cpp builds: PoolContext and the objects in it. `C` is the type of the coin library's
-- entries, `D` that of floating point numbers and `V` that of JSON values.
use poolfrontend.Prelude.{ℕ, Bool, Option, List, String}
use poolfrontend.Prelude.Int.{ℤ}

-- CMiningAddress, with its weight
pub record MiningAddress : Type 0 where
  pub address : String
  pub private_key : String
  pub weight : ℕ

-- The members of PoolBackendConfig that main sets.
pub record PoolBackendConfig : Type 0 where
  pub is_master : Bool
  pub db_path : String
  pub default_payout_threshold : ℤ
  pub minimal_allowed_payout : ℤ
  pub required_confirmations : ℕ
  pub keep_round_time : ℕ
  pub keep_stats_time : ℕ
  pub confirmations_check_interval : ℕ
  pub payout_interval : ℕ
  pub balance_check_interval : ℕ
  pub mining_addresses : List MiningAddress
  pub coin_base_msg : String
  pub pool_zaddr : String
  pub pool_taddr : String

-- CBitcoinRpcClient and CEthereumRpcClient, by the arguments of their constructors
pub data Client (C : Type 0) : Type 0 where
  bitcoin_rpc : ℕ → C → String → String → String → String → Bool → Client C
  ethereum_rpc : ℕ → C → String → PoolBackendConfig → Client C

-- StatisticServer of an algorithm
pub record StatisticServer (C : Type 0) : Type 0 where
  pub db_path : String
  pub coin_info : C

-- PoolBackend, with its CNetworkClientDispatcher
pub record Backend (C D : Type 0) : Type 0 where
  pub config : PoolBackendConfig
  pub coin_info : C
  pub get_work_clients : List (Client C)
  pub rpc_clients : List (Client C)
  pub profit_switch_coeff : Option D
  pub algo_meta_statistic : StatisticServer C

-- CPoolInstance: the arguments of PoolInstanceFabric::get and what main sets afterwards
pub record Instance (C D V : Type 0) : Type 0 where
  pub linked_backends : List (Backend C D)
  pub type : String
  pub protocol : String
  pub index : ℕ
  pub count : ℕ
  pub config : V
  pub algo_meta_statistic : Option (StatisticServer C)

-- The SMTP arguments of UserManager::enableSMTP
pub record Smtp : Type 0 where
  pub ipv4 : ℕ
  pub port : ℕ
  pub login : String
  pub password : String
  pub sender_address : String
  pub use_smtps : Bool
  pub use_start_tls : Bool

-- The arguments of UserManager::setBaseCfg
pub record BaseCfg : Type 0 where
  pub pool_name : String
  pub pool_host_protocol : String
  pub pool_host_address : String
  pub pool_activate_link_prefix : String
  pub pool_change_password_link_prefix : String
  pub pool_activate2fa_link_prefix : String
  pub pool_deactivate2fa_link_prefix : String

pub data SpecialUser : Type 0 where
  admin observer : SpecialUser

-- gethostbyname: no entry, or the number that main reads where its address stands, 0 when there is
-- none
pub data Host : Type 0 where
  no_host : Host
  host : ℕ → Host

-- What main uses of poolcore, poolinstances and the machine.
pub record Core (D V : Type 0) : Type 1 where
  pub CoinInfo : Type 0
  -- CCoinLibrary::get, whose entry of an unknown coin has no name
  pub get : String → CoinInfo
  pub name : CoinInfo → String
  pub algorithm : CoinInfo → String
  pub minimal_confirmations_number : CoinInfo → ℕ
  -- parseMoneyValue with the coin's RationalPartSize, checkAddress with its PayoutAddressType
  pub parse_money_value : CoinInfo → String → Option ℤ
  pub check_address : CoinInfo → String → Bool
  -- PoolInstanceFabric::get answers an instance
  pub can_create : List (Backend CoinInfo D) → String → String → ℕ → ℕ → V → Bool
  pub is_zero : D → Bool
  pub gethostbyname : String → Host
  pub home : String
  pub hardware_concurrency : ℕ

-- How main ends early: the message that it logs, or the null pointer that it dereferences.
pub data Failure : Type 0 where
  invalid_server : String → Failure
  null_host : String → Failure
  no_address : String → Failure
  unknown_coin : String → Failure
  bad_default_payout_threshold : String → Failure
  bad_minimal_payout : String → Failure
  too_few_confirmations : String → ℕ → Failure
  invalid_mining_address : String → Failure
  unknown_node_type : String → Failure
  unknown_algorithm : String → String → Failure
  non_existent_coin : String → String → Failure
  cannot_create : String → String → Failure
  different_algorithms : String → String → String → Failure
  usage : Failure
  cannot_open : Failure
  invalid_json : Failure
  config_error : String → Failure

pub data Result (A : Type 0) : Type 0 where
  done : A → Result A
  failed : Failure → Result A

infixl 5 ◌>>=◌ ◌>>◌
unfoldable pub ◌>>=◌ : {A B : Type 0} → Result A → (A → Result B) → Result B
r >>= f = elim r [ done a ↦ f a | failed e ↦ failed e ]

abbrev pub ◌>>◌ : {A B : Type 0} → Result A → Result B → Result B
r >> p = r >>= λ _. p

-- `if (!test) { log; return 1; }`
unfoldable pub require : Bool → Failure → Result (Unit {0})
require ok failure = elim ok [ Bool.true ↦ done tt | Bool.false ↦ failed failure ]

unfoldable pub require_some : {A : Type 0} → Option A → Failure → Result A
require_some o failure = elim o [ Option.some a ↦ done a | Option.none ↦ failed failure ]

-- A loop whose body may return from main.
unfoldable pub each : {A B : Type 0} → (A → Result B) → List A → Result (List B)
each f List.[] = done List.[]
each f (List.◌∷◌ a rest) = do b ← f a; bs ← each f rest; done (List.◌∷◌ b bs)
