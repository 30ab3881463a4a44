-- ===== src/Start/Run.antt =====
-- main.cpp: main, up to the running threads, and the thread that stops them.
use poolfrontend.Prelude.{ℕ, Bool, Option, List, [], ◌∷◌, ◌++◌, map, String, length, ◌==◌}
use poolfrontend.Prelude.Int.{ℤ}
use poolfrontend.Json.{Json}
use poolfrontend.Config.Types.{PoolFrontendConfig}
use poolfrontend.Config.Frontend.{load}
use poolfrontend.Http.Lookup.{sort_by}
use poolfrontend.Start.Types.{
  Core, Backend, Instance, StatisticServer, BaseCfg, Smtp, SpecialUser, Result, done, ◌>>=◌, ◌>>◌,
  require, require_some, each, usage, cannot_open, invalid_json, config_error,
}
use poolfrontend.Start.Settings.{
  database_path, http_port, worker_threads_num, http_threads_num, total_threads_num, special_users,
  smtp,
}
use poolfrontend.Start.Backends.{lookup_coin, create_backends}
use poolfrontend.Start.Instances.{backend_name, create_instances}

-- PoolContext, with what main has told the user manager and the numbers of threads
pub record PoolContext (C D V : Type 0) : Type 0 where
  pub is_master : Bool
  pub database_path : String
  pub http_port : ℕ
  pub worker_threads_num : ℕ
  pub http_threads_num : ℕ
  pub total_threads_num : ℕ
  pub base_cfg : BaseCfg
  pub special_users : List (SpecialUser × String)
  pub smtp : Option Smtp
  pub coin_list : List C
  pub user_coins : List (C × ℤ)
  pub backends : List (Backend C D)
  pub algo_meta_statistic : List (StatisticServer C)
  pub instances : List (Instance C D V)

module _ (j : Json) (core : Core j.Double j.Value) where
  open j use {Value, Double}
  open core use {CoinInfo}

  abbrev user_coin : Backend CoinInfo Double → CoinInfo × ℤ
  user_coin backend = (backend.coin_info, backend.config.default_payout_threshold)

  abbrev pub second : String × StatisticServer CoinInfo → StatisticServer CoinInfo
  second (algorithm, server) = server

  -- From the loaded configuration to the services.
  unfoldable pub configure :
      PoolFrontendConfig Value Double → Result (PoolContext CoinInfo Double Value)
  configure config = do
    let path = database_path core.home config.db_path
    let workers = worker_threads_num core.hardware_concurrency config.worker_threads_num
    let http_threads = http_threads_num config.http_threads_num
    let threads = total_threads_num workers (length config.coins) http_threads
    smtp ← smtp j core config
    coin_list ← each (lookup_coin j core) config.coins
    (created, known) ←
        create_backends j core config.is_master path config.pool_name threads config.coins coin_list
          []
    let backends = sort_by (backend_name j core) created
    instances ← create_instances j core backends (length config.instances) 0 config.instances
    done (record {
      is_master = config.is_master;
      database_path = path;
      http_port = http_port config.http_port;
      worker_threads_num = workers;
      http_threads_num = http_threads;
      total_threads_num = threads;
      base_cfg = record {
        pool_name = config.pool_name;
        pool_host_protocol = config.pool_host_protocol;
        pool_host_address = config.pool_host_address;
        pool_activate_link_prefix = config.pool_activate_link_prefix;
        pool_change_password_link_prefix = config.pool_change_password_link_prefix;
        pool_activate2fa_link_prefix = config.pool_activate2fa_link_prefix;
        pool_deactivate2fa_link_prefix = config.pool_deactivate2fa_link_prefix;
      };
      special_users = special_users config.admin_password_hash config.observer_password_hash;
      smtp = smtp;
      coin_list = coin_list;
      user_coins = map user_coin created;
      backends = backends;
      algo_meta_statistic = map second known;
      instances = instances;
    })

  -- main up to the services. `file` is what the configuration file holds, if it can be opened, and
  -- `parse` rapidjson's parser; `config` is the object that main declares.
  unfoldable pub boot :
      ℕ
      → Option String
      → (String → Option Value)
      → PoolFrontendConfig Value Double
      → Result (PoolContext CoinInfo Double Value)
  boot argc file parse config = do
    require (argc == 2) usage
    data_ ← require_some file cannot_open
    document ← require_some (parse data_) invalid_json
    let loaded = load j document config ""
    require loaded.accepted (config_error loaded.error_description)
    configure loaded.config

-- The services, an index for each of those in a list.
pub data Service : Type 0 where
  thread_pool user_mgr http_server monitor : Service
  backend algo_server dispatcher : ℕ → Service

pub data Action : Type 0 where
  start stop : Service → Action

unfoldable pub indexed : {A : Type 0} → (ℕ → Service) → ℕ → List A → List Service
indexed service i [] = []
indexed service i (x ∷ xs) = service i ∷ indexed service (ℕ.suc i) xs

module _ {C D V : Type 0} (context : PoolContext C D V) where
  -- The order in which main starts them.
  unfoldable pub start_all : List Action
  start_all = map start (
      (thread_pool ∷ user_mgr ∷ [])
      ++ (indexed backend 0 context.backends
          ++ (indexed algo_server 0 context.algo_meta_statistic
              ++ (indexed dispatcher 0 context.backends ++ (http_server ∷ monitor ∷ [])))))

  -- The order in which sigIntThread stops them.
  unfoldable pub stop_all : List Action
  stop_all = map stop (
      (http_server ∷ thread_pool ∷ [])
      ++ (indexed backend 0 context.backends
          ++ (indexed algo_server 0 context.algo_meta_statistic ++ (user_mgr ∷ monitor ∷ []))))
