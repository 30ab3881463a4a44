-- ===== src/Config/Sample.antt =====
-- A configuration file for the tests.
use poolfrontend.Prelude.{List, ◌∷◌, true, false, [], String}
use poolfrontend.Prelude.Int.{ℤ, pos}
use poolfrontend.Json.Sample.{Doc, text, obj, field, end, nil, cons, arr, num, boolean, Fields}
use poolfrontend.Config.Types.{PoolFrontendConfig}

abbrev pub node : Doc
node = obj (field "type" (text "bitcoinrpc") (field "address" (text "127.0.0.1:8332") end))

abbrev fee : Doc
fee = obj (field "address" (text "fee") (field "percentage" (num (pos 1)) end))

abbrev mining_address : Doc
mining_address = obj (field "address" (text "mine") (field "weight" (num (pos 1)) end))

abbrev times : List String → Fields → Fields
times [] fs = fs
times (name ∷ names) fs = field name (num (pos 5)) (times names fs)

abbrev pub coin : Doc
coin = obj (
    field "name" (text "BTC") (
      field "getWorkNodes" (arr (cons node nil)) (
        field "RPCNodes" (arr (cons node nil)) (
          field "fees" (arr (cons fee nil)) (
            field "defaultPayoutThreshold" (text "0.1") (
              field "minimalAllowedPayout" (text "0.01") (
                field "miningAddresses" (arr (cons mining_address nil)) (
                  times
                    ("requiredConfirmations" ∷ "keepRoundTime" ∷ "keepStatsTime"
                      ∷ "confirmationsCheckInterval" ∷ "payoutInterval" ∷ "balanceCheckInterval"
                      ∷ "statisticCheckInterval" ∷ "shareTarget" ∷ [])
                    end))))))))

abbrev instance_document : Doc
instance_document = obj (
    field "name" (text "main") (
      field "type" (text "BTC") (
        field "protocol" (text "stratum")
          (field "backends" (arr (cons (text "BTC") nil)) (field "shareDiff" (num (pos 16)) end)))))

abbrev texts : List String → Fields → Fields
texts [] fs = fs
texts (name ∷ names) fs = field name (text name) (texts names fs)

abbrev settings : Doc
settings = obj (
    field "isMaster" (boolean true) (
      field "httpPort" (num (pos 18880)) (
        field "smtpEnabled" (boolean false) (
          texts
            ("dbPath" ∷ "poolName" ∷ "poolHostProtocol" ∷ "poolHostAddress"
              ∷ "poolActivateLinkPrefix" ∷ "poolChangePasswordLinkPrefix"
              ∷ "poolActivate2faLinkPrefix" ∷ "poolDeactivate2faLinkPrefix" ∷ "smtpServer"
              ∷ "smtpLogin" ∷ "smtpPassword" ∷ "smtpSenderAddress" ∷ [])
            end))))

abbrev pub document : Doc
document = obj (
    field "poolfrontend" settings (
      field "coins" (arr (cons coin nil))
        (field "instances" (arr (cons instance_document nil)) end)))

abbrev pub empty_config : PoolFrontendConfig Doc ℤ
empty_config = record {
  is_master = false;
  http_port = 0;
  worker_threads_num = 0;
  http_threads_num = 0;
  admin_password_hash = "";
  observer_password_hash = "";
  db_path = "";
  pool_name = "";
  pool_host_protocol = "";
  pool_host_address = "";
  pool_activate_link_prefix = "";
  pool_change_password_link_prefix = "";
  pool_activate2fa_link_prefix = "";
  pool_deactivate2fa_link_prefix = "";
  smtp_enabled = false;
  smtp_server = "";
  smtp_login = "";
  smtp_password = "";
  smtp_sender_address = "";
  smtp_use_smtps = false;
  smtp_use_start_tls = false;
  coins = [];
  instances = [];
}
