-- ===== src/Start/Boot.antt =====
-- main.cpp: which configuration files the program starts with.
use poolfrontend.Prelude.{◌≡◌, Option, none, some, [], String}
use poolfrontend.Json.{Json}
use poolfrontend.Config.Types.{PoolFrontendConfig}
use poolfrontend.Config.Frontend.{Loaded}
use poolfrontend.Config.Decode.Schema.{frontend_of}
use poolfrontend.Config.Follows.Load.{Loads, accepts, rejects, load-Loads}
use poolfrontend.Start.Types.{
  Core, Result, failed, ◌>>=◌, ◌>>◌, require, require_some, config_error,
}
use poolfrontend.Start.Run.{PoolContext, configure, boot}

module _ (j : Json) (core : Core j.Double j.Value) where
  open j use {Value, Double}
  open core use {CoinInfo}

  -- The program goes on with the decoded configuration, or ends with the description of an error.
  pub data Boots
      : Option (PoolFrontendConfig Value Double)
        → Result (PoolContext CoinInfo Double Value)
        → Type 0 where
    runs :
        (config : PoolFrontendConfig Value Double) → Boots (some config) (configure j core config)
    refuses : (description : String) → Boots none (failed (config_error description))

  loaded-Boots :
      {o : Option (PoolFrontendConfig Value Double)} {loaded : Loaded Value Double}
      → Loads j "" o loaded
      → Boots o (
          require loaded.accepted (config_error loaded.error_description)
          >> configure j core loaded.config)
  unfolding ◌>>=◌ require
  loaded-Boots (accepts config) = runs config
  loaded-Boots (rejects config description) = refuses description

  -- Given one argument, the name of a file that holds a JSON document, the program goes on with
  -- the configuration that the document decodes to, or ends with an error when it does not decode.
  pub boot-Boots :
      (text : String) (document : Value) (parse : String → Option Value)
      (config : PoolFrontendConfig Value Double)
      → config.coins ≡ []
      → config.instances ≡ []
      → parse text ≡ some document
      → Boots (frontend_of j document) (boot j core 2 (some text) parse config)
  unfolding boot ◌>>=◌ require require_some
  boot-Boots text document parse config ec ei ep =
      rw ep (loaded-Boots (load-Loads j "" document config ec ei))
