-- ===== src/Start/Settings.antt =====
-- main.cpp: the paths, the numbers of threads, the special users and the mail server.
use Prim.Native.String.{String, [], ◌∷◌}
use poolfrontend.Prelude as P
use poolfrontend.Prelude.{
  ℕ, ◌+◌, ◌*◌, ◌/◌, ◌%◌, ◌^◌, Bool, true, false, Option, none, some, length, ◌==◌, if◌then◌else◌,
}
use poolfrontend.Json.{Json}
use poolfrontend.Config.Types.{PoolFrontendConfig}
use poolfrontend.Start.Types.{
  Core, no_host, host, invalid_server, null_host, no_address, Smtp, SpecialUser, admin, observer,
  Result, done, failed, ◌>>=◌, require_some,
}
use poolfrontend.Start.Text.{split_at, colon, atoi16, htons, ◌/path◌, strip_home, truncate}

-- userHomeDir: the buffer of 512 bytes keeps 511.
unfoldable pub user_home_dir : String → String
user_home_dir home = truncate 511 home

unfoldable pub database_path : String → String → String
unfolding user_home_dir
database_path home db_path = elim (strip_home db_path) [
  | some rest ↦ user_home_dir home /path rest
  | none ↦ db_path
]

unfoldable pub http_port : ℕ → ℕ
http_port configured = configured % 2 ^ 16

-- 0 stands for a quarter of the processors, or 2 where their number is not known.
unfoldable pub worker_threads_num : ℕ → ℕ → ℕ
worker_threads_num hardware_concurrency configured =
    if configured == 0
    then (if hardware_concurrency == 0 then 2 else hardware_concurrency / 4)
    else configured

unfoldable pub http_threads_num : ℕ → ℕ
http_threads_num configured = if configured == 0 then 1 else configured

-- unsigned arithmetic
unfoldable pub total_threads_num : ℕ → ℕ → ℕ → ℕ
total_threads_num worker backends http = (1 + worker + backends * 2 + http + 1) % 2 ^ 32

unfoldable pub special_user : SpecialUser → String → P.List (SpecialUser × String)
special_user user [] = P.[]
special_user user (c ∷ hash) = P.◌∷◌ (user, c ∷ hash) P.[]

unfoldable pub special_users : String → String → P.List (SpecialUser × String)
unfolding special_user
special_users admin_hash observer_hash =
    P.◌++◌ (special_user admin admin_hash) (special_user observer observer_hash)

module _ (j : Json) (core : Core j.Double j.Value) where
  open j use {Value, Double}

  -- The host is written into the log where it is null, and then dereferenced all the same.
  unfoldable pub resolve : String → Result ℕ
  resolve server = elim (core.gethostbyname server) [
    | no_host ↦ failed (null_host server)
    | host addr ↦ if addr == 0 then failed (no_address server) else done (addr % 2 ^ 32)
  ]

  unfoldable pub smtp : PoolFrontendConfig Value Double → Result (Option Smtp)
  unfolding resolve
  smtp config =
      if config.smtp_enabled
      then (do
        (server, port) ←
            require_some (split_at colon config.smtp_server) (invalid_server config.smtp_server)
        addr ← resolve server
        done (
            some (record {
              ipv4 = addr;
              port = htons (atoi16 port);
              login = config.smtp_login;
              password = config.smtp_password;
              sender_address = config.smtp_sender_address;
              use_smtps = config.smtp_use_smtps;
              use_start_tls = config.smtp_use_start_tls;
            })))
      else done none
