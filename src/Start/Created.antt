-- ===== src/Start/Created.antt =====
-- The backends that main.cpp creates.
use poolfrontend.Prelude.{ℕ, Bool, ◌≡◌, some, List, [], ◌∷◌, String, map}
use poolfrontend.Json.{Json}
use poolfrontend.Config.Types.{CoinConfig, NodeConfig}
use poolfrontend.Start.Types.{Core, Backend}
use poolfrontend.Start.Known.{
  IsServer, IsKnown, IsGrown, IsGrown-refl, IsGrown-trans, IsRegistered, Ensures-algo_server,
}
use poolfrontend.Start.Backends.{
  create_client, Servers, find_server, create_backend, create_backends,
}
use poolfrontend.Start.Ensures.{
  Ensures, holds, Ensures-bind, Ensures-each, Pointwise, next, empty, All, and_all, none_left,
}
use poolfrontend.Start.Checked.{
  IsEntry, IsBackendConfig, IsClient, Ensures-backend_config, Ensures-create_client,
}

module _ (j : Json) (core : Core j.Double j.Value) where
  open j use {Value, Double}
  open core use {CoinInfo}

  -- A backend as the configuration asks for it.
  pub record IsBackend (path : String) (threads : ℕ) (coin : CoinConfig Double)
      (backend : Backend CoinInfo Double) : Type 0 where
    pub coin_info : IsEntry j core coin backend.coin_info
    pub config : IsBackendConfig j core coin backend.coin_info backend.config
    pub get_work_clients :
        Pointwise
          (IsClient j core threads backend.coin_info backend.config)
          coin.get_work_nodes
          backend.get_work_clients
    pub rpc_clients :
        Pointwise
          (IsClient j core threads backend.coin_info backend.config)
          coin.rpc_nodes
          backend.rpc_clients
    pub algo_meta_statistic :
        IsServer j core path (core.algorithm backend.coin_info) backend.algo_meta_statistic

  -- A backend, and the servers known from then on, among which is its own.
  record IsMade (path : String) (threads : ℕ) (coin : CoinConfig Double) (known : Servers j core)
      (x : Backend CoinInfo Double × Servers j core) : Type 0 where
    pub backend : IsBackend path threads coin x.0
    pub known_is : IsKnown j core path x.1
    pub found : find_server j core x.1 (core.algorithm x.0.coin_info) ≡ some x.0.algo_meta_statistic
    pub grown : IsGrown j core (core.algorithm x.0.coin_info ∷ []) known x.1

  Ensures-create_backend :
      (is_master : Bool) (path pool_name : String) (threads : ℕ) (coin : CoinConfig Double)
      (coin_info : CoinInfo) (known : Servers j core)
      → IsEntry j core coin coin_info
      → IsKnown j core path known
      → Ensures
          (IsMade path threads coin known)
          (create_backend j core is_master path pool_name threads coin coin_info known)
  unfolding create_backend
  Ensures-create_backend is_master path pool_name threads coin coin_info known entry h =
      Ensures-bind (IsBackendConfig j core coin coin_info) _ _
        (Ensures-backend_config j core is_master path pool_name coin coin_info)
        (λ config config_is.
          let client = IsClient j core threads coin_info config in
          let clients = λ (nodes : List NodeConfig).
            Ensures-each client (create_client j core threads coin_info config) nodes
              (Ensures-create_client j core threads coin_info config) in
          Ensures-bind (Pointwise client coin.get_work_nodes) _ _ (clients coin.get_work_nodes)
            (λ works works_are.
              Ensures-bind (Pointwise client coin.rpc_nodes) _ _ (clients coin.rpc_nodes)
                (λ rpcs rpcs_are.
                  Ensures-bind (IsRegistered j core path (core.algorithm coin_info) known) _ _
                    (Ensures-algo_server j core path coin_info known h)
                    (λ (server, known_) registered. holds (record {
                      backend = record {
                        coin_info = entry;
                        config = config_is;
                        get_work_clients = works_are;
                        rpc_clients = rpcs_are;
                        algo_meta_statistic = registered.server_is;
                      };
                      known_is = registered.known_is;
                      found = registered.found;
                      grown = registered.grown;
                    })))))

  abbrev pub algorithm_of : Backend CoinInfo Double → String
  algorithm_of backend = core.algorithm backend.coin_info

  -- The backend's statistic server is the one that is registered for its algorithm.
  pub record IsServed (known : Servers j core) (backend : Backend CoinInfo Double) : Type 0 where
    pub found :
        find_server j core known (core.algorithm backend.coin_info)
        ≡ some backend.algo_meta_statistic

  -- The backends of the coins, and the servers known from then on.
  pub record IsCreated (path : String) (threads : ℕ) (coins : List (CoinConfig Double))
      (known : Servers j core) (x : List (Backend CoinInfo Double) × Servers j core) : Type 0 where
    pub backends : Pointwise (IsBackend path threads) coins x.0
    pub known_is : IsKnown j core path x.1
    pub served : All (IsServed x.1) x.0
    pub grown : IsGrown j core (map algorithm_of x.0) known x.1

  pub Ensures-create_backends :
      (is_master : Bool) (path pool_name : String) (threads : ℕ) {coins : List (CoinConfig Double)}
      {coin_infos : List CoinInfo} (known : Servers j core)
      → Pointwise (IsEntry j core) coins coin_infos
      → IsKnown j core path known
      → Ensures
          (IsCreated path threads coins known)
          (create_backends j core is_master path pool_name threads coins coin_infos known)
  unfolding create_backends
  Ensures-create_backends is_master path pool_name threads known empty h = holds (record {
    backends = empty;
    known_is = h;
    served = none_left;
    grown = IsGrown-refl j core [] known;
  })
  Ensures-create_backends is_master path pool_name threads known
        (next {a = coin} {b = coin_info} {as_ = coins} {bs = coin_infos} entry entries) h =
      Ensures-bind (IsMade path threads coin known) _ _
        (Ensures-create_backend is_master path pool_name threads coin coin_info known entry h)
        (λ (backend, known1) made.
          Ensures-bind (IsCreated path threads coins known1) _ _
            (Ensures-create_backends is_master path pool_name threads known1 entries made.known_is)
            (λ (backends, known2) rest. holds (record {
              backends = next made.backend rest.backends;
              known_is = rest.known_is;
              served = and_all (record { found = rest.grown.kept _ _ made.found }) rest.served;
              grown = IsGrown-trans j core made.grown rest.grown;
            })))
