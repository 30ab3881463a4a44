-- ===== src/Start/Done.antt =====
-- When the steps of main.cpp succeed.
use poolfrontend.Prelude.{
  ℕ, ◌≤◌, Bool, true, false, not, ◌||◌, ◌≡◌, Option, none, some, List, [], ◌∷◌, String, str_eq, ltb,
  arith, inl, inr, Option-cases, if◌then◌else◌,
}
use poolfrontend.Prelude.Int.{ℤ}
use poolfrontend.Json.{Json}
use poolfrontend.Config.Types.{CoinConfig, NodeConfig, MiningAddressConfig}
use poolfrontend.Start.Types.{
  Core, PoolBackendConfig, Result, done, failed, Failure, ◌>>=◌, ◌>>◌, require, require_some, each,
}
use poolfrontend.Start.Backends.{
  lookup_coin, mining_address, backend_config, create_client, Servers, find_server, algo_server,
  create_backend,
}
use poolfrontend.Start.Ensures.{Ensures, holds, All, none_left, and_all, All-map}

pub data IsDone {A : Type 0} : Result A → Type 0 where
  is_done : (a : A) → IsDone (done a)

pub IsDone-bind :
    {A B : Type 0} (P : A → Type 0) (r : Result A) (f : A → Result B)
    → IsDone r
    → Ensures P r
    → ((a : A) → P a → IsDone (f a))
    → IsDone (r >>= f)
unfolding ◌>>=◌
IsDone-bind P (done a) f (is_done _) (holds p) h = h a p
IsDone-bind P (failed e) f d p h = elim d [ ]

pub IsDone-step :
    {A B : Type 0} (r : Result A) (f : A → Result B)
    → IsDone r
    → ((a : A) → IsDone (f a))
    → IsDone (r >>= f)
unfolding ◌>>=◌
IsDone-step (done a) f (is_done _) h = h a
IsDone-step (failed e) f d h = elim d [ ]

pub IsDone-require :
    {B : Type 0} (b : Bool) (e : Failure) (r : Result B)
    → b ≡ true
    → IsDone r
    → IsDone (require b e >> r)
unfolding ◌>>=◌ require
IsDone-require true e r h d = d
IsDone-require false e r h d = ground arith

pub IsDone-require_some :
    {A B : Type 0} (o : Option A) (e : Failure) (f : A → Result B) (a : A)
    → o ≡ some a
    → ((a : A) → IsDone (f a))
    → IsDone (require_some o e >>= f)
unfolding ◌>>=◌ require_some
IsDone-require_some (some x) e f a h d = d x
IsDone-require_some none e f a h d = ground arith

pub IsDone-each :
    {A B : Type 0} (f : A → Result B) (xs : List A)
    → All (λ x. IsDone (f x)) xs
    → IsDone (each f xs)
unfolding each
IsDone-each f [] none_left = is_done []
IsDone-each f (x ∷ xs) (and_all d ds) =
    IsDone-step (f x) _ d
      (λ b. IsDone-step (each f xs) _ (IsDone-each f xs ds) (λ bs. is_done (b ∷ bs)))

module _ (j : Json) (core : Core j.Double j.Value) where
  open j use {Value, Double}
  open core use {CoinInfo}

  -- A node of a type that main knows.
  abbrev IsNode : NodeConfig → Type 0
  IsNode node = (str_eq node.type "bitcoinrpc" || str_eq node.type "ethereumrpc") ≡ true

  -- A coin that the library knows, with its algorithm, whose configuration it accepts.
  pub record IsReady (coin : CoinConfig Double) : Type 0 where
    pub known : not (str_eq (core.name (core.get coin.name)) "") ≡ true
    pub default_payout_threshold : ℤ
    pub default_parses :
        core.parse_money_value (core.get coin.name) coin.default_payout_threshold
        ≡ some default_payout_threshold
    pub minimal_allowed_payout : ℤ
    pub minimal_parses :
        core.parse_money_value (core.get coin.name) coin.minimal_allowed_payout
        ≡ some minimal_allowed_payout
    pub enough :
        core.minimal_confirmations_number (core.get coin.name) ≤ coin.required_confirmations
    pub addresses :
        All
          (λ (a : MiningAddressConfig). core.check_address (core.get coin.name) a.address ≡ true)
          coin.mining_addresses
    pub get_work_nodes : All IsNode coin.get_work_nodes
    pub rpc_nodes : All IsNode coin.rpc_nodes
    pub algorithm :
        not (str_eq (core.name (core.get (core.algorithm (core.get coin.name)))) "") ≡ true

  pub lookup_coin-IsDone :
      (coin : CoinConfig Double) → IsReady coin → IsDone (lookup_coin j core coin)
  unfolding lookup_coin
  lookup_coin-IsDone coin r = IsDone-require _ _ _ r.known (is_done (core.get coin.name))

  not_less : (m n : ℕ) → m ≤ n → not (ltb n m) ≡ true
  not_less m n h = ground arith

  backend_config-IsDone :
      (is_master : Bool) (path pool_name : String) (coin : CoinConfig Double)
      → IsReady coin
      → IsDone (backend_config j core is_master path pool_name coin (core.get coin.name))
  unfolding backend_config mining_address
  backend_config-IsDone is_master path pool_name coin r =
      IsDone-require_some _ _ _ r.default_payout_threshold r.default_parses (λ a.
        IsDone-require_some _ _ _ r.minimal_allowed_payout r.minimal_parses (λ b.
          IsDone-require _ _ _ (not_less _ _ r.enough) (
            IsDone-step (each _ coin.mining_addresses) _
              (IsDone-each _ coin.mining_addresses (
                All-map coin.mining_addresses (λ addr ok. IsDone-require _ _ _ ok (is_done _))
                  r.addresses))
              (λ addresses. is_done _))))

  by_type :
      {A : Type 0} (b c : Bool) (x y : A) (e : Failure)
      → (b || c) ≡ true
      → IsDone (if b then done x else (if c then done y else failed e))
  by_type true c x y e h = is_done x
  by_type false true x y e h = is_done y
  by_type false false x y e h = ground arith

  create_clients-IsDone :
      (threads : ℕ) (coin_info : CoinInfo) (config : PoolBackendConfig) (nodes : List NodeConfig)
      → All IsNode nodes
      → IsDone (each (create_client j core threads coin_info config) nodes)
  unfolding create_client
  create_clients-IsDone threads coin_info config nodes h = IsDone-each _ nodes (
      All-map nodes
        (λ node is.
          by_type (str_eq node.type "bitcoinrpc") (str_eq node.type "ethereumrpc") _ _ _ is)
        h)

  algo_server-IsDone :
      (path : String) (coin : CoinConfig Double) (known : Servers j core)
      → IsReady coin
      → IsDone (algo_server j core path (core.get coin.name) known)
  unfolding algo_server
  algo_server-IsDone path coin known r =
      elim (Option-cases (find_server j core known (core.algorithm (core.get coin.name)))) [
        | inr (server, is) ↦ rw (is, algo_server) (is_done _)
        | inl is_not ↦ rw (is_not, algo_server) (IsDone-require _ _ _ r.algorithm (is_done _))
      ]

  pub create_backend-IsDone :
      (is_master : Bool) (path pool_name : String) (threads : ℕ) (coin : CoinConfig Double)
      (known : Servers j core)
      → IsReady coin
      → IsDone
          (create_backend j core is_master path pool_name threads coin (core.get coin.name) known)
  unfolding create_backend
  create_backend-IsDone is_master path pool_name threads coin known r =
      IsDone-step _ _ (backend_config-IsDone is_master path pool_name coin r) (λ config.
        IsDone-step _ _
          (create_clients-IsDone threads (core.get coin.name) config coin.get_work_nodes
            r.get_work_nodes)
          (λ works.
            IsDone-step _ _
              (create_clients-IsDone threads (core.get coin.name) config coin.rpc_nodes r.rpc_nodes)
              (λ rpcs.
                IsDone-step _ _ (algo_server-IsDone path coin known r)
                  (λ (server, known_). is_done _))))
