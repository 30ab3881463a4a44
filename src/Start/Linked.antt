-- ===== src/Start/Linked.antt =====
-- The backends that an instance is linked to.
use mathlib.Core.List.{Memᴰ}
use poolfrontend.Prelude.{
  subst, ℕ, true, false, not, ◌&&◌, ◌≡◌, refl, sym, Option, none, some, List, [], ◌∷◌, String,
  str_eq, eq_iff, arith, Bool-cases, inl, inr,
}
use poolfrontend.Json.{Json}
use poolfrontend.Config.Types.{InstanceConfig}
use poolfrontend.Http.Lookup.{sort_by}
use poolfrontend.Http.Lookup.Found.{Finds, sorted_Finds, present, missing}
use poolfrontend.Start.Types.{
  Core, Backend, Instance, StatisticServer, require_some, non_existent_coin, different_algorithms,
}
use poolfrontend.Start.Instances.{backend_name, link, set_algorithms, create_instance}
use poolfrontend.Start.Ensures.{
  Ensures, holds, fails, Ensures-bind, Ensures-require, Ensures-weaken, Ensures-any, Ensures-each,
  Pointwise,
}

module _ (j : Json) (core : Core j.Double j.Value) where
  open j use {Value, Double}
  open core use {CoinInfo}

  -- A backend of those created, under the coin's name.
  pub record IsLinked (created : List (Backend CoinInfo Double)) (coin : String)
      (backend : Backend CoinInfo Double) : Type 0 where
    pub created_one : Memᴰ backend created
    pub named : backend_name j core backend ≡ coin

  link_at :
      (created : List (Backend CoinInfo Double)) (instance coin : String)
      (o : Option (Backend CoinInfo Double))
      → Finds (backend_name j core) created coin o
      → Ensures (IsLinked created coin) (require_some o (non_existent_coin instance coin))
  unfolding require_some
  link_at created instance coin (some b) (present m e) =
      holds (record { created_one = m; named = e })
  link_at created instance coin none (missing f) = fails

  pub Ensures-link :
      (created : List (Backend CoinInfo Double)) (instance coin : String)
      → Ensures
          (IsLinked created coin)
          (link j core (sort_by (backend_name j core) created) instance coin)
  unfolding link
  Ensures-link created instance coin =
      link_at created instance coin _ (sorted_Finds (backend_name j core) created coin)

  -- Every backend of the list is of the algorithm.
  pub data AllOf (algorithm : String) : List (Backend CoinInfo Double) → Type 0 where
    none_left : AllOf algorithm []
    and_then :
        {backend : Backend CoinInfo Double} {backends : List (Backend CoinInfo Double)}
        → core.algorithm backend.coin_info ≡ algorithm
        → AllOf algorithm backends
        → AllOf algorithm (backend ∷ backends)

  agree :
      (algo algorithm : String)
      → str_eq algo "" ≡ false
      → not (not (str_eq algo "") && not (str_eq algorithm algo)) ≡ true
      → algorithm ≡ algo
  agree algo algorithm h ok =
      let same : str_eq algorithm algo ≡ true = ground arith in (eq_iff _ _).0 same

  Ensures-set_algorithms :
      (instance algo : String) (server : Option (StatisticServer CoinInfo))
      (backends : List (Backend CoinInfo Double))
      → str_eq algo "" ≡ false
      → Ensures (λ s. AllOf algo backends) (set_algorithms j core instance algo server backends)
  unfolding set_algorithms
  Ensures-set_algorithms instance algo server [] h = holds none_left
  Ensures-set_algorithms instance algo server (backend ∷ backends) h =
      let algorithm = core.algorithm backend.coin_info in
      Ensures-require (not (not (str_eq algo "") && not (str_eq algorithm algo)))
        (different_algorithms algo algorithm instance)
        (set_algorithms j core instance algorithm (some backend.algo_meta_statistic) backends)
        (λ ok.
          let e = agree algo algorithm h ok in
          Ensures-weaken
            (set_algorithms j core instance algorithm (some backend.algo_meta_statistic) backends)
            (λ s rest. and_then e (subst (λ x. AllOf x backends) e rest))
            (Ensures-set_algorithms instance algorithm (some backend.algo_meta_statistic) backends
              (subst (λ x. str_eq x "" ≡ false) (sym e) h)))

  -- All are of the first one's algorithm, unless that has no name.
  pub data Alike : List (Backend CoinInfo Double) → Type 0 where
    no_backend : Alike []
    nameless :
        {backend : Backend CoinInfo Double} {backends : List (Backend CoinInfo Double)}
        → core.algorithm backend.coin_info ≡ ""
        → Alike (backend ∷ backends)
    alike :
        {backend : Backend CoinInfo Double} {backends : List (Backend CoinInfo Double)}
        → AllOf (core.algorithm backend.coin_info) backends
        → Alike (backend ∷ backends)

  Ensures-Alike :
      (instance : String) (backends : List (Backend CoinInfo Double))
      → Ensures (λ s. Alike backends) (set_algorithms j core instance "" none backends)
  unfolding set_algorithms
  Ensures-Alike instance [] = holds no_backend
  Ensures-Alike instance (backend ∷ backends) =
      let algorithm = core.algorithm backend.coin_info in
      let rest =
        set_algorithms j core instance algorithm (some backend.algo_meta_statistic) backends in
      Ensures-require (not (not (str_eq "" "") && not (str_eq algorithm "")))
        (different_algorithms "" algorithm instance) rest
        (λ ok. elim (Bool-cases (str_eq algorithm "")) [
          | inl nameless_ ↦
              Ensures-weaken rest (λ s x. nameless ((eq_iff _ _).0 nameless_)) (Ensures-any rest)
          | inr named ↦
              Ensures-weaken rest (λ s x. alike x)
                (Ensures-set_algorithms instance algorithm (some backend.algo_meta_statistic)
                  backends named)
        ])

  -- An instance as the configuration asks for it.
  pub record IsInstance (created : List (Backend CoinInfo Double))
      (config : InstanceConfig Value Double) (instance : Instance CoinInfo Double Value)
      : Type 0 where
    pub linked : Pointwise (IsLinked created) config.backends instance.linked_backends
    pub same_algorithm : Alike instance.linked_backends
    pub type : instance.type ≡ config.type
    pub protocol : instance.protocol ≡ config.protocol

  pub Ensures-create_instance :
      (created : List (Backend CoinInfo Double)) (count index : ℕ)
      (config : InstanceConfig Value Double)
      → Ensures
          (IsInstance created config)
          (create_instance j core (sort_by (backend_name j core) created) count index config)
  unfolding create_instance
  Ensures-create_instance created count index config =
      Ensures-bind (Pointwise (IsLinked created) config.backends) _ _
        (Ensures-each (IsLinked created) _ config.backends (Ensures-link created config.name))
        (λ linked_backends linked. Ensures-require _ _ _ (λ ok.
          Ensures-bind (λ s. Alike linked_backends) _ _ (Ensures-Alike config.name linked_backends)
            (λ server alike_.
              holds (record {
                linked = linked;
                same_algorithm = alike_;
                type = refl;
                protocol = refl;
              }))))
