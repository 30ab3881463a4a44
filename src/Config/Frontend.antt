-- ===== src/Config/Frontend.antt =====
-- CPoolFrontendConfig::load of config.cpp.
use poolfrontend.Prelude.{Bool, true, false, String}
use poolfrontend.Json.{Json}
use poolfrontend.Config.Types.{PoolFrontendConfig}
use poolfrontend.Config.Loader.{
  Loader, Outcome, next, returned, ErrorType, ok, ◌>>=◌, ◌>>◌, pure, load_all,
}
use poolfrontend.Config.Readers.{
  json_parse_string, json_parse_string_or, json_parse_boolean, json_parse_boolean_or,
  json_parse_uint, json_parse_uint_or, check,
}
use poolfrontend.Config.Parts.{load_instance}
use poolfrontend.Config.Coin.{load_coin}

-- What the call of load leaves: its result, the object and errorDescription.
pub record Loaded (V D : Type 0) : Type 0 where
  pub accepted : Bool
  pub config : PoolFrontendConfig V D
  pub error_description : String

module _ (j : Json) where
  open j use {Value, Double}

  -- The fields of the poolfrontend object.
  unfoldable pub load_settings :
      Value
      → PoolFrontendConfig Value Double
      → Loader (PoolFrontendConfig Value Double) (PoolFrontendConfig Value Double)
  load_settings object config = do
    let local_path : String = "poolfrontend"
    is_master ← json_parse_boolean j object "isMaster" config.is_master local_path
    http_port ← json_parse_uint j object "httpPort" config.http_port local_path
    worker_threads_num ←
        json_parse_uint_or j object "workerThreadsNum" config.worker_threads_num 0 local_path
    http_threads_num ←
        json_parse_uint_or j object "httpThreadsNum" config.http_threads_num 0 local_path
    admin_password_hash ←
        json_parse_string_or j object "adminPasswordHash" config.admin_password_hash "" local_path
    observer_password_hash ←
        json_parse_string_or j object "observerPasswordHash" config.observer_password_hash ""
          local_path
    db_path ← json_parse_string j object "dbPath" config.db_path local_path
    pool_name ← json_parse_string j object "poolName" config.pool_name local_path
    pool_host_protocol ←
        json_parse_string j object "poolHostProtocol" config.pool_host_protocol local_path
    pool_host_address ←
        json_parse_string j object "poolHostAddress" config.pool_host_address local_path
    pool_activate_link_prefix ←
        json_parse_string j object "poolActivateLinkPrefix" config.pool_activate_link_prefix
          local_path
    pool_change_password_link_prefix ←
        json_parse_string j object "poolChangePasswordLinkPrefix"
          config.pool_change_password_link_prefix local_path
    pool_activate2fa_link_prefix ←
        json_parse_string j object "poolActivate2faLinkPrefix" config.pool_activate2fa_link_prefix
          local_path
    pool_deactivate2fa_link_prefix ←
        json_parse_string j object "poolDeactivate2faLinkPrefix"
          config.pool_deactivate2fa_link_prefix local_path
    smtp_enabled ← json_parse_boolean j object "smtpEnabled" config.smtp_enabled local_path
    smtp_server ← json_parse_string j object "smtpServer" config.smtp_server local_path
    smtp_login ← json_parse_string j object "smtpLogin" config.smtp_login local_path
    smtp_password ← json_parse_string j object "smtpPassword" config.smtp_password local_path
    smtp_sender_address ←
        json_parse_string j object "smtpSenderAddress" config.smtp_sender_address local_path
    smtp_use_smtps ←
        json_parse_boolean_or j object "smtpUseSmtps" config.smtp_use_smtps false local_path
    smtp_use_start_tls ←
        json_parse_boolean_or j object "smtpUseStartTLS" config.smtp_use_start_tls true local_path
    pure (record config {
      is_master = is_master;
      http_port = http_port;
      worker_threads_num = worker_threads_num;
      http_threads_num = http_threads_num;
      admin_password_hash = admin_password_hash;
      observer_password_hash = observer_password_hash;
      db_path = db_path;
      pool_name = pool_name;
      pool_host_protocol = pool_host_protocol;
      pool_host_address = pool_host_address;
      pool_activate_link_prefix = pool_activate_link_prefix;
      pool_change_password_link_prefix = pool_change_password_link_prefix;
      pool_activate2fa_link_prefix = pool_activate2fa_link_prefix;
      pool_deactivate2fa_link_prefix = pool_deactivate2fa_link_prefix;
      smtp_enabled = smtp_enabled;
      smtp_server = smtp_server;
      smtp_login = smtp_login;
      smtp_password = smtp_password;
      smtp_sender_address = smtp_sender_address;
      smtp_use_smtps = smtp_use_smtps;
      smtp_use_start_tls = smtp_use_start_tls;
    })

  -- The function up to its last line.
  unfoldable pub load_frontend :
      Value
      → PoolFrontendConfig Value Double
      → Loader (PoolFrontendConfig Value Double) (PoolFrontendConfig Value Double)
  load_frontend document config = do
    check j j.is_object "array of objects" document "poolfrontend" "." config
    config ← load_settings (j.member document "poolfrontend") config
    check j j.is_array "array of objects" document "coins" "." config
    coins ← load_all (load_coin j) (j.get_array (j.member document "coins"))
    let config = record config { coins = coins }
    check j j.is_array "array of objects" document "instances" "." config
    instances ← load_all (load_instance j) (j.get_array (j.member document "instances"))
    pure (record config { instances = instances })

  -- `error == EOk`
  unfoldable pub is_ok : ErrorType → Bool
  is_ok ok = true
  is_ok _ = false

  unfoldable pub finish :
      Outcome (PoolFrontendConfig Value Double) (PoolFrontendConfig Value Double)
      → Loaded Value Double
  unfolding is_ok
  finish (next config st) = record {
    accepted = is_ok st.error;
    config = config;
    error_description = st.description;
  }
  finish (returned config st) = record {
    accepted = false;
    config = config;
    error_description = st.description;
  }

  unfoldable pub load : Value → PoolFrontendConfig Value Double → String → Loaded Value Double
  unfolding finish load_frontend
  load document config description =
      finish (load_frontend document config (record { error = ok; description = description }))
