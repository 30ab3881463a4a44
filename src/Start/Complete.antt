-- ===== src/Start/Complete.antt =====
-- When main.cpp gets as far as starting the services.
use poolfrontend.Start.Text.{split_at, colon}
use poolfrontend.Start.Types.{host, require_some, ◌>>=◌}
use poolfrontend.Prelude.{
  some, none, false, ◌==◌, Bool-cases, inl, inr, ℕ, Bool, ◌≡◌, sym, subst, List, [], String, length,
}
use poolfrontend.Json.{Json}
use poolfrontend.Config.Types.{CoinConfig, PoolFrontendConfig}
use poolfrontend.Start.Types.{Core}
use poolfrontend.Start.Settings.{smtp, resolve, database_path}
use poolfrontend.Start.Backends.{Servers, create_backend, create_backends, lookup_coin}
use poolfrontend.Start.Run.{configure}
use poolfrontend.Start.Ensures.{Pointwise, empty, next, Ensures-each, All, and_all, All-map}
use poolfrontend.Start.Checked.{IsEntry, Ensures-lookup_coin}
use poolfrontend.Start.Known.{none_known}
use poolfrontend.Start.Created.{IsCreated, Ensures-create_backends}
use poolfrontend.Start.Configured.{threads_of}
use poolfrontend.Start.Done.{
  IsDone, is_done, IsDone-bind, IsDone-step, IsDone-each, IsReady, lookup_coin-IsDone,
  create_backend-IsDone,
}
use poolfrontend.Start.Linkable.{IsReadyInstance, create_instances-IsDone}

module _ (j : Json) (core : Core j.Double j.Value) where
  open j use {Value, Double}
  open core use {CoinInfo}

  -- A configuration without a mail server, or whose server has a host with an address and a port.
  pub data IsReadyMail (config : PoolFrontendConfig Value Double) : Type 0 where
    unwanted : config.smtp_enabled ≡ false → IsReadyMail config
    resolved :
        (server port : String) (address : ℕ)
        → split_at colon config.smtp_server ≡ some (server, port)
        → core.gethostbyname server ≡ host address
        → (address == 0) ≡ false
        → IsReadyMail config

  smtp-IsDone :
      (config : PoolFrontendConfig Value Double) → IsReadyMail config → IsDone (smtp j core config)
  unfolding smtp resolve require_some ◌>>=◌
  smtp-IsDone config (unwanted off) = rw off (is_done none)
  smtp-IsDone config (resolved server port address split found known) =
      elim (Bool-cases config.smtp_enabled) [
        | inr off ↦ rw off (is_done none)
        | inl on ↦ rw (on, split, ◌>>=◌, require_some, resolve, found, known) (is_done _)
      ]

  create_backends-IsDone :
      (is_master : Bool) (path pool_name : String) (threads : ℕ) {coins : List (CoinConfig Double)}
      {coin_infos : List CoinInfo} (known : Servers j core)
      → Pointwise (IsEntry j core) coins coin_infos
      → All (IsReady j core) coins
      → IsDone (create_backends j core is_master path pool_name threads coins coin_infos known)
  unfolding create_backends
  create_backends-IsDone is_master path pool_name threads known empty h = is_done _
  create_backends-IsDone is_master path pool_name threads known
        (next {a = coin} {b = coin_info} entry entries) (and_all r rs) =
      IsDone-step _ _
        (subst (λ x. IsDone (create_backend j core is_master path pool_name threads coin x known))
          (sym entry.entry)
          (create_backend-IsDone j core is_master path pool_name threads coin known r))
        (λ (backend, known1).
          IsDone-step _ _
            (create_backends-IsDone is_master path pool_name threads known1 entries rs)
            (λ (backends, known2). is_done _))

  -- When entries of the coin library with one name are of one algorithm, the mail server is
  -- resolved or not wanted, every coin is ready, and every instance names coins of one algorithm,
  -- `configure` is done.
  pub configure-IsDone :
      (config : PoolFrontendConfig Value Double)
      → ((a b : CoinInfo) → core.name a ≡ core.name b → core.algorithm a ≡ core.algorithm b)
      → IsReadyMail config
      → All (IsReady j core) config.coins
      → All (IsReadyInstance j core config.coins (length config.instances)) config.instances
      → IsDone (configure j core config)
  unfolding configure
  configure-IsDone config same_algorithm mail coins instances =
      let path = database_path core.home config.db_path in
      let threads = threads_of j core config in
      IsDone-step _ _ (smtp-IsDone config mail) (λ smtp_.
        IsDone-bind (Pointwise (IsEntry j core) config.coins) _ _
          (IsDone-each (lookup_coin j core) config.coins
            (All-map config.coins (lookup_coin-IsDone j core) coins))
          (Ensures-each (IsEntry j core) (lookup_coin j core) config.coins
            (Ensures-lookup_coin j core))
          (λ coin_list entries.
            IsDone-bind (IsCreated j core path threads config.coins []) _ _
              (create_backends-IsDone config.is_master path config.pool_name threads [] entries
                coins)
              (Ensures-create_backends j core config.is_master path config.pool_name threads []
                entries none_known)
              (λ (created, known) created_is.
                IsDone-step _ _
                  (create_instances-IsDone j core same_algorithm path threads created_is.backends
                    (length config.instances) 0 config.instances instances)
                  (λ made. is_done _))))
