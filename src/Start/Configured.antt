-- ===== src/Start/Configured.antt =====
-- What main.cpp has built when it starts the services.
use mathlib.Core.List.{Memᴰ, Permᴰ}
use mathlib.Core.List.Memᴰ
use poolfrontend.Prelude.{String, inl, inr, ℕ, suc, ◌≡◌, refl, List, [], ◌∷◌, length, map}
use poolfrontend.Json.{Json}
use poolfrontend.Config.Types.{InstanceConfig, PoolFrontendConfig}
use poolfrontend.Http.Lookup.{sort_by}
use poolfrontend.Http.Lookup.Sorted.{IsSorted, sort_by-IsSorted, sort_by-Permᴰ}
use poolfrontend.Start.Types.{Core, Backend, StatisticServer}
use poolfrontend.Start.Settings.{
  database_path, worker_threads_num, http_threads_num, total_threads_num, smtp,
}
use poolfrontend.Start.Backends.{Servers, lookup_coin}
use poolfrontend.Start.Instances.{backend_name, create_instances}
use poolfrontend.Start.Run.{PoolContext, configure, second}
use poolfrontend.Start.Ensures.{
  Ensures, holds, Ensures-any, Ensures-bind, Ensures-each, Pointwise, next, empty, All, All-from,
}
use poolfrontend.Start.Linked.{IsInstance, Ensures-create_instance}
use poolfrontend.Start.Checked.{IsEntry, Ensures-lookup_coin}
use poolfrontend.Start.Known.{IsKnown, none_known, IsGrown}
use poolfrontend.Start.Created.{
  IsBackend, IsServed, IsCreated, algorithm_of, Ensures-create_backends,
}

module _ (j : Json) (core : Core j.Double j.Value) where
  open j use {Value, Double}
  open core use {CoinInfo}

  Ensures-create_instances :
      (created : List (Backend CoinInfo Double)) (count index : ℕ)
      (configs : List (InstanceConfig Value Double))
      → Ensures
          (Pointwise (IsInstance j core created) configs)
          (create_instances j core (sort_by (backend_name j core) created) count index configs)
  unfolding create_instances
  Ensures-create_instances created count index [] = holds empty
  Ensures-create_instances created count index (config ∷ configs) =
      Ensures-bind (IsInstance j core created config) _ _
        (Ensures-create_instance j core created count index config)
        (λ instance instance_is.
          Ensures-bind (Pointwise (IsInstance j core created) configs) _ _
            (Ensures-create_instances created count (suc index) configs)
            (λ instances instances_are. holds (next instance_is instances_are)))

  -- The number of threads that the configuration asks for.
  abbrev pub threads_of : PoolFrontendConfig Value Double → ℕ
  threads_of config =
      total_threads_num (worker_threads_num core.hardware_concurrency config.worker_threads_num)
        (length config.coins) (http_threads_num config.http_threads_num)

  -- A registered server, with the algorithm that it is registered for, which a backend is of.
  pub record IsUsed (created : List (Backend CoinInfo Double))
      (entry : String × StatisticServer CoinInfo) : Type 0 where
    pub algorithm : Memᴰ entry.0 (map (algorithm_of j core) created)

  used :
      {created : List (Backend CoinInfo Double)} {known : Servers j core}
      → IsGrown j core (map (algorithm_of j core) created) [] known
      → (entry : String × StatisticServer CoinInfo) → Memᴰ entry known
      → IsUsed created entry
  used grown entry m = elim (grown.added entry m) [
    | inl before ↦ absurd (Memᴰ.not-nil before)
    | inr algorithm ↦ record { algorithm = algorithm }
  ]

  -- A context as the configuration asks for it: a backend for each coin, created in the order of the
  -- configuration and sorted by name; the statistic servers of the backends' algorithms, each
  -- registered once; and each instance linked to the backends that it names.
  pub data IsConfigured (config : PoolFrontendConfig Value Double)
      (context : PoolContext CoinInfo Double Value) : Type 0 where
    is_configured :
        (created : List (Backend CoinInfo Double)) (known : Servers j core)
        → Pointwise
            (IsBackend j core (database_path core.home config.db_path) (threads_of config))
            config.coins
            created
        → context.backends ≡ sort_by (backend_name j core) created
        → Permᴰ created context.backends
        → IsSorted (backend_name j core) context.backends
        → IsKnown j core (database_path core.home config.db_path) known
        → All (IsServed j core known) created
        → All (IsUsed created) known
        → context.algo_meta_statistic ≡ map (second j core) known
        → Pointwise (IsInstance j core created) config.instances context.instances
        → IsConfigured config context

  -- A context that `configure` is done with is as the configuration asks for it.
  pub configure-IsConfigured :
      (config : PoolFrontendConfig Value Double)
      → Ensures (IsConfigured config) (configure j core config)
  unfolding configure
  configure-IsConfigured config = Ensures-bind _ _ _ (Ensures-any (smtp j core config)) (λ smtp_ u.
      Ensures-bind (Pointwise (IsEntry j core) config.coins) _ _
        (Ensures-each (IsEntry j core) (lookup_coin j core) config.coins
          (Ensures-lookup_coin j core))
        (λ coin_list entries.
          Ensures-bind
            (IsCreated j core (database_path core.home config.db_path) (threads_of config)
              config.coins [])
            _ _
            (Ensures-create_backends j core config.is_master
              (database_path core.home config.db_path) config.pool_name (threads_of config) []
              entries none_known)
            (λ (created, known) made.
              Ensures-bind (Pointwise (IsInstance j core created) config.instances) _ _
                (Ensures-create_instances created (length config.instances) 0 config.instances)
                (λ instances instances_are. holds (
                  is_configured created known made.backends refl
                    (sort_by-Permᴰ (backend_name j core) created)
                    (sort_by-IsSorted (backend_name j core) created) made.known_is made.served
                    (All-from known (λ p m. used made.grown p m)) refl instances_are)))))
