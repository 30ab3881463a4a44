-- ===== src/Start/Instances.antt =====
-- main.cpp: the instances and the backends that each is linked to.
use poolfrontend.Prelude.{ℕ, suc, not, ◌&&◌, Option, none, some, List, [], ◌∷◌, String, str_eq}
use poolfrontend.Json.{Json}
use poolfrontend.Config.Types.{InstanceConfig}
use poolfrontend.Http.Lookup.{find_by_name}
use poolfrontend.Start.Types.{
  Core, Backend, Instance, StatisticServer, Result, done, ◌>>=◌, ◌>>◌, require, require_some, each,
  non_existent_coin, cannot_create, different_algorithms,
}

module _ (j : Json) (core : Core j.Double j.Value) where
  open j use {Value, Double}
  open core use {CoinInfo}

  abbrev pub backend_name : Backend CoinInfo Double → String
  backend_name backend = core.name backend.coin_info

  -- One coin that an instance is linked with, in the sorted backends.
  unfoldable pub link :
      List (Backend CoinInfo Double) → String → String → Result (Backend CoinInfo Double)
  link backends instance coin =
      require_some (find_by_name backend_name backends coin) (non_existent_coin instance coin)

  -- The loop over the linked backends, which share their algorithm, `algo` being that of the last
  -- one, "" before the first. It leaves the server that the instance got last.
  unfoldable pub set_algorithms :
      String
      → String
      → Option (StatisticServer CoinInfo)
      → List (Backend CoinInfo Double)
      → Result (Option (StatisticServer CoinInfo))
  set_algorithms instance algo server [] = done server
  set_algorithms instance algo server (backend ∷ backends) = do
    let algorithm = core.algorithm backend.coin_info
    require (not (not (str_eq algo "") && not (str_eq algorithm algo)))
        (different_algorithms algo algorithm instance)
    set_algorithms instance algorithm (some backend.algo_meta_statistic) backends

  -- One turn of the loop over the instances.
  unfoldable pub create_instance :
      List (Backend CoinInfo Double)
      → ℕ
      → ℕ
      → InstanceConfig Value Double
      → Result (Instance CoinInfo Double Value)
  create_instance backends count index config = do
    linked_backends ← each (link backends config.name) config.backends
    require
        (core.can_create linked_backends config.type config.protocol index count
          config.instance_config)
        (cannot_create config.type config.protocol)
    algo_meta_statistic ← set_algorithms config.name "" none linked_backends
    done (record {
      linked_backends = linked_backends;
      type = config.type;
      protocol = config.protocol;
      index = index;
      count = count;
      config = config.instance_config;
      algo_meta_statistic = algo_meta_statistic;
    })

  unfoldable pub create_instances :
      List (Backend CoinInfo Double)
      → ℕ
      → ℕ
      → List (InstanceConfig Value Double)
      → Result (List (Instance CoinInfo Double Value))
  create_instances backends count index [] = done []
  create_instances backends count index (config ∷ configs) = do
    instance ← create_instance backends count index config
    instances ← create_instances backends count (suc index) configs
    done (instance ∷ instances)
