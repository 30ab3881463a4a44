-- ===== src/Start/Linkable.antt =====
-- When main.cpp can link and create the instances.
use mathlib.Core.List.{Memᴰ}
use mathlib.Core.List.Memᴰ
use poolfrontend.Prelude.{
  ℕ, suc, Bool, true, false, not, ◌&&◌, ◌≡◌, ◌⊎◌, refl, sym, ap, ◌∙◌, Option, none, some, List, [],
  ◌∷◌, String, str_eq, eq_iff, arith, inl, inr,
}
use poolfrontend.Json.{Json}
use poolfrontend.Config.Types.{CoinConfig, InstanceConfig}
use poolfrontend.Http.Lookup.{sort_by}
use poolfrontend.Http.Lookup.Found.{Finds, sorted_Finds, present, missing}
use poolfrontend.Start.Types.{Core, Backend, StatisticServer, require_some, non_existent_coin}
use poolfrontend.Start.Instances.{
  backend_name, link, set_algorithms, create_instance, create_instances,
}
use poolfrontend.Start.Ensures.{
  Pointwise, empty, next, Ensures-each, All, none_left, and_all, All-map,
}
use poolfrontend.Start.Linked.{IsLinked, Ensures-link, AllOf, and_then, none_left as none_of}
use poolfrontend.Start.Created.{IsBackend}
use poolfrontend.Start.Done.{IsDone, is_done, IsDone-bind, IsDone-step, IsDone-require, IsDone-each}

module _ (j : Json) (core : Core j.Double j.Value) where
  open j use {Value, Double}
  open core use {CoinInfo}

  -- A coin of the configuration that has the name and the algorithm in the library.
  pub record IsListed (coins : List (CoinConfig Double)) (algorithm name : String) : Type 0 where
    pub coin : CoinConfig Double
    pub listed : Memᴰ coin coins
    pub named : core.name (core.get coin.name) ≡ name
    pub of_algorithm : core.algorithm (core.get coin.name) ≡ algorithm

  -- An instance whose backends are coins of one algorithm, of a kind that the factory creates.
  pub record IsReadyInstance (coins : List (CoinConfig Double)) (count : ℕ)
      (config : InstanceConfig Value Double) : Type 0 where
    pub algorithm : String
    pub backends : All (IsListed coins algorithm) config.backends
    pub can_create :
        (linked : List (Backend CoinInfo Double)) (index : ℕ)
        → core.can_create linked config.type config.protocol index count config.instance_config
          ≡ true

  -- Every coin has a backend.
  created_for :
      (path : String) (threads : ℕ) {coins : List (CoinConfig Double)}
      {created : List (Backend CoinInfo Double)} (coin : CoinConfig Double)
      → Pointwise (IsBackend j core path threads) coins created
      → Memᴰ coin coins
      → (b : Backend CoinInfo Double) × Memᴰ b created × (b.coin_info ≡ core.get coin.name)
  created_for path threads coin empty m = absurd (Memᴰ.not-nil m)
  created_for path threads coin (next {b = b} is rest) (Memᴰ.head e) =
      (b, Memᴰ.head refl, is.coin_info.entry ∙ ap (λ c. core.get c.name) (sym e))
  created_for path threads coin (next is rest) (Memᴰ.tail m) =
      let (b, n, e) = created_for path threads coin rest m in (b, Memᴰ.tail n, e)

  link_at :
      (created : List (Backend CoinInfo Double)) (instance coin : String)
      (b : Backend CoinInfo Double) (o : Option (Backend CoinInfo Double))
      → Finds (backend_name j core) created coin o
      → Memᴰ b created
      → backend_name j core b ≡ coin
      → IsDone (require_some o (non_existent_coin instance coin))
  unfolding require_some
  link_at created instance coin b (some x) (present m e) mb eb = is_done x
  link_at created instance coin b none (missing f) mb eb = absurd (f b mb eb)

  passes : (p q : Bool) → (p ≡ true) ⊎ (q ≡ true) → not (not p && not q) ≡ true
  passes true q h = refl
  passes false true h = refl
  passes false false h = ground arith

  test_passes :
      (algo algorithm : String)
      → (algo ≡ "") ⊎ (algo ≡ algorithm)
      → not (not (str_eq algo "") && not (str_eq algorithm algo)) ≡ true
  test_passes algo algorithm (inl e) = passes _ _ (inl ((eq_iff _ _).1 e))
  test_passes algo algorithm (inr e) = passes _ _ (inr ((eq_iff _ _).1 (sym e)))

  before :
      {algo algorithm here : String}
      → (algo ≡ "") ⊎ (algo ≡ algorithm)
      → here ≡ algorithm
      → (algo ≡ "") ⊎ (algo ≡ here)
  before (inl h) e = inl h
  before (inr h) e = inr (h ∙ sym e)

  set_algorithms-IsDone :
      (instance algo algorithm : String) (server : Option (StatisticServer CoinInfo))
      (backends : List (Backend CoinInfo Double))
      → (algo ≡ "") ⊎ (algo ≡ algorithm)
      → AllOf j core algorithm backends
      → IsDone (set_algorithms j core instance algo server backends)
  unfolding set_algorithms
  set_algorithms-IsDone instance algo algorithm server [] h none_of = is_done server
  set_algorithms-IsDone instance algo algorithm server (backend ∷ backends) h (and_then e rest) =
      IsDone-require _ _ _ (test_passes algo (core.algorithm backend.coin_info) (before h e)) (
        set_algorithms-IsDone instance (core.algorithm backend.coin_info) algorithm _ backends
          (inr e) rest)

  module _
      (same_algorithm : (a b : CoinInfo)
        → core.name a ≡ core.name b
        → core.algorithm a ≡ core.algorithm b)
      (path : String) (threads : ℕ) {coins : List (CoinConfig Double)}
      {created : List (Backend CoinInfo Double)}
      (created_is : Pointwise (IsBackend j core path threads) coins created) where
    link-IsDone :
        (instance algorithm coin : String)
        → IsListed coins algorithm coin
        → IsDone (link j core (sort_by (backend_name j core) created) instance coin)
    unfolding link
    link-IsDone instance algorithm coin h =
        let (b, m, e) = created_for path threads h.coin created_is h.listed in
        link_at created instance coin b _ (sorted_Finds (backend_name j core) created coin) m
          (ap core.name e ∙ h.named)

    linked-AllOf :
        (algorithm : String) {names : List String} {linked : List (Backend CoinInfo Double)}
        → All (IsListed coins algorithm) names
        → Pointwise (IsLinked j core created) names linked
        → AllOf j core algorithm linked
    linked-AllOf algorithm none_left empty = none_of
    linked-AllOf algorithm (and_all h hs) (next l ls) =
        and_then (same_algorithm _ _ (l.named ∙ sym h.named) ∙ h.of_algorithm)
          (linked-AllOf algorithm hs ls)

    create_instance-IsDone :
        (count index : ℕ) (config : InstanceConfig Value Double)
        → IsReadyInstance coins count config
        → IsDone (create_instance j core (sort_by (backend_name j core) created) count index config)
    unfolding create_instance
    create_instance-IsDone count index config r =
        IsDone-bind (Pointwise (IsLinked j core created) config.backends) _ _
          (IsDone-each _ config.backends (
            All-map config.backends (λ coin h. link-IsDone config.name r.algorithm coin h)
              r.backends))
          (Ensures-each (IsLinked j core created) _ config.backends
            (Ensures-link j core created config.name))
          (λ linked linked_is. IsDone-require _ _ _ (r.can_create linked index) (
            IsDone-step _ _
              (set_algorithms-IsDone config.name "" r.algorithm none linked (inl refl)
                (linked-AllOf r.algorithm r.backends linked_is))
              (λ server. is_done _)))

    pub create_instances-IsDone :
        (count index : ℕ) (configs : List (InstanceConfig Value Double))
        → All (IsReadyInstance coins count) configs
        → IsDone
            (create_instances j core (sort_by (backend_name j core) created) count index configs)
    unfolding create_instances
    create_instances-IsDone count index [] none_left = is_done []
    create_instances-IsDone count index (config ∷ configs) (and_all r rs) =
        IsDone-step _ _ (create_instance-IsDone count index config r) (λ instance.
          IsDone-step _ _ (create_instances-IsDone count (suc index) configs rs)
            (λ instances. is_done _))
