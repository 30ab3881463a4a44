-- ===== src/Start/Checked.antt =====
-- What main.cpp checks of a coin, its configuration and its nodes.
use poolfrontend.Prelude.{
  ℕ, ◌≤◌, Bool, true, not, ◌≡◌, ◌≢◌, refl, some, String, str_eq, eq_iff, arith, ltb,
}
use poolfrontend.Json.{Json}
use poolfrontend.Config.Types.{CoinConfig, NodeConfig, MiningAddressConfig}
use poolfrontend.Start.Types.{
  Core, Client, bitcoin_rpc, ethereum_rpc, PoolBackendConfig, MiningAddress, unknown_coin,
}
use poolfrontend.Start.Backends.{lookup_coin, mining_address, backend_config, create_client}
use poolfrontend.Start.Ensures.{
  Ensures, holds, fails, Ensures-bind, Ensures-if, Ensures-require, Ensures-require_some,
  Ensures-each, Pointwise,
}

pub not_empty : (s : String) → not (str_eq s "") ≡ true → s ≢ ""
not_empty s h e = let same = (eq_iff s "").1 e in ground arith

not_less : (m n : ℕ) → not (ltb n m) ≡ true → m ≤ n
not_less m n h = ground arith

module _ (j : Json) (core : Core j.Double j.Value) where
  open j use {Value, Double}
  open core use {CoinInfo}

  -- The library's entry of a coin that it knows.
  pub record IsEntry (coin : CoinConfig Double) (coin_info : CoinInfo) : Type 0 where
    pub entry : coin_info ≡ core.get coin.name
    pub known : core.name coin_info ≢ ""

  pub Ensures-lookup_coin :
      (coin : CoinConfig Double) → Ensures (IsEntry coin) (lookup_coin j core coin)
  unfolding lookup_coin
  Ensures-lookup_coin coin =
      Ensures-require (not (str_eq (core.name (core.get coin.name)) "")) (unknown_coin coin.name) _
        (λ ok. holds (record { entry = refl; known = not_empty _ ok }))

  pub record IsMiningAddress (coin_info : CoinInfo) (asked : MiningAddressConfig)
      (kept : MiningAddress) : Type 0 where
    pub accepted : core.check_address coin_info kept.address ≡ true
    pub address : kept.address ≡ asked.address
    pub private_key : kept.private_key ≡ asked.private_key
    pub weight : kept.weight ≡ asked.weight

  Ensures-mining_address :
      (coin_info : CoinInfo) (asked : MiningAddressConfig)
      → Ensures (IsMiningAddress coin_info asked) (mining_address j core coin_info asked)
  unfolding mining_address
  Ensures-mining_address coin_info asked =
      Ensures-require (core.check_address coin_info asked.address) _ _
        (λ ok. holds (record { accepted = ok; address = refl; private_key = refl; weight = refl }))

  -- What is promised of a backend's configuration.
  pub record IsBackendConfig (coin : CoinConfig Double) (coin_info : CoinInfo)
      (config : PoolBackendConfig) : Type 0 where
    pub confirmations : config.required_confirmations ≡ coin.required_confirmations
    pub enough : core.minimal_confirmations_number coin_info ≤ config.required_confirmations
    pub default_payout_threshold :
        core.parse_money_value coin_info coin.default_payout_threshold
        ≡ some config.default_payout_threshold
    pub minimal_allowed_payout :
        core.parse_money_value coin_info coin.minimal_allowed_payout
        ≡ some config.minimal_allowed_payout
    pub addresses :
        Pointwise (IsMiningAddress coin_info) coin.mining_addresses config.mining_addresses

  pub Ensures-backend_config :
      (is_master : Bool) (path pool_name : String) (coin : CoinConfig Double) (coin_info : CoinInfo)
      → Ensures
          (IsBackendConfig coin coin_info)
          (backend_config j core is_master path pool_name coin coin_info)
  unfolding backend_config
  Ensures-backend_config is_master path pool_name coin coin_info =
      Ensures-require_some (core.parse_money_value coin_info coin.default_payout_threshold) _ _
        (λ a ea.
          Ensures-require_some (core.parse_money_value coin_info coin.minimal_allowed_payout) _ _
            (λ b eb.
              Ensures-require
                (not
                  (ltb coin.required_confirmations (core.minimal_confirmations_number coin_info)))
                _ _
                (λ ok.
                  Ensures-bind (Pointwise (IsMiningAddress coin_info) coin.mining_addresses) _ _
                    (Ensures-each (IsMiningAddress coin_info) _ coin.mining_addresses
                      (Ensures-mining_address coin_info))
                    (λ addresses addresses_are. holds (record {
                      confirmations = refl;
                      enough = not_less _ _ ok;
                      default_payout_threshold = ea;
                      minimal_allowed_payout = eb;
                      addresses = addresses_are;
                    })))))

  -- The client of a node, by the node's type.
  pub data IsClient (threads : ℕ) (coin_info : CoinInfo) (config : PoolBackendConfig)
      : NodeConfig → Client CoinInfo → Type 0 where
    bitcoin :
        (node : NodeConfig)
        → node.type ≡ "bitcoinrpc"
        → IsClient threads coin_info config node (
            bitcoin_rpc threads coin_info node.address node.login node.password node.wallet
              node.long_poll_enabled)
    ethereum :
        (node : NodeConfig)
        → node.type ≡ "ethereumrpc"
        → IsClient threads coin_info config node
            (ethereum_rpc threads coin_info node.address config)

  pub Ensures-create_client :
      (threads : ℕ) (coin_info : CoinInfo) (config : PoolBackendConfig) (node : NodeConfig)
      → Ensures
          (IsClient threads coin_info config node)
          (create_client j core threads coin_info config node)
  unfolding create_client
  Ensures-create_client threads coin_info config node =
      Ensures-if (str_eq node.type "bitcoinrpc") _ _
        (λ is. holds (bitcoin node ((eq_iff _ _).0 is)))
        (λ is_not.
          Ensures-if (str_eq node.type "ethereumrpc") _ _
            (λ is. holds (ethereum node ((eq_iff _ _).0 is))) (λ is_not_either. fails))
