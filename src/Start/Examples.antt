-- ===== src/Start/Examples.antt =====
-- The start-up with the sample configuration file.
use poolfrontend.Prelude.{
  false, ap, [], ◌∷◌, arith, ℕ, ◌*◌, ◌≤◌, ◌↔◌, true, refl, ◌≡◌, String, some, str_eq, if◌then◌else◌,
}
use poolfrontend.Prelude.Int.{ℤ, pos}
use mathlib.Core.List.Memᴰ
use poolfrontend.Json.Sample.{Doc, sample_json}
use poolfrontend.Config.Decode.Schema.{frontend_of}
use poolfrontend.Config.Sample.{document, empty_config}
use poolfrontend.Config.Types.{PoolFrontendConfig, CoinConfig, InstanceConfig}
use poolfrontend.Config.Coin.{empty_coin}
use poolfrontend.Start.Done.{IsDone, IsReady}
use poolfrontend.Start.Linkable.{IsReadyInstance}
use poolfrontend.Start.Complete.{IsReadyMail, unwanted, configure-IsDone}
use poolfrontend.Start.Signals.{
  is_ended, watch, any_interrupt, interrupt, user, watch-any_interrupt,
}
use poolfrontend.Config.Frontend.{load}
use poolfrontend.Start.Types.{Core, host}
use poolfrontend.Start.Run.{boot, configure}
use poolfrontend.Start.Backends.{days_in_seconds, minutes_in_seconds, minutes_in_microseconds}
use poolfrontend.Start.Signals.{
  is_ended, watch, any_interrupt, interrupt, user, watch-any_interrupt,
}
use poolfrontend.Start.Settings.{worker_threads_num}
use poolfrontend.Start.Ensures.{Ensures, and_all, none_left}
use poolfrontend.Start.Configured.{IsConfigured, configure-IsConfigured}
use poolfrontend.Start.Boot.{Boots, boot-Boots}
use poolfrontend.Start.Units.{units-exact_iff, worker_threads_num-zero_iff}

abbrev sample_core : Core ℤ Doc
sample_core = record {
  CoinInfo = String;
  get = λ s. if str_eq s "DOGE" then "" else s;
  name = λ s. s;
  algorithm = λ s. if str_eq s "" then "" else "sha256";
  minimal_confirmations_number = λ s. 3;
  parse_money_value = λ s t. some (pos 7);
  check_address = λ s t. true;
  can_create = λ bs type protocol i n v. true;
  is_zero = λ d. true;
  gethostbyname = λ s. host 16777343;
  home = "/root";
  hardware_concurrency = 8;
}

boot-Boots_example :
    Boots sample_json sample_core
      (frontend_of sample_json document)
      (boot sample_json sample_core 2 (some "{}") (λ s. some document) empty_config)
boot-Boots_example =
    boot-Boots sample_json sample_core "{}" document (λ s. some document) empty_config refl refl
      refl

abbrev config : PoolFrontendConfig Doc ℤ
config = (load sample_json document empty_config "").config

configure-IsConfigured_example :
    Ensures (IsConfigured sample_json sample_core config) (configure sample_json sample_core config)
configure-IsConfigured_example = configure-IsConfigured sample_json sample_core config

units-exact_iff_example :
    ((minutes_in_microseconds 72 ≡ 72 * 60000000) ↔ (72 ≤ 71))
    × ((days_in_seconds 72 ≡ 72 * 86400) ↔ (72 ≤ 49710))
    × ((minutes_in_seconds 72 ≡ 72 * 60) ↔ (72 ≤ 71582788))
units-exact_iff_example = units-exact_iff 72

abbrev unset : ℕ
unset = 0

worker_threads_num-zero_iff_example :
    (worker_threads_num 2 unset ≡ 0) ↔ ((unset ≡ 0) × (1 ≤ 2) × (2 ≤ 3))
worker_threads_num-zero_iff_example = worker_threads_num-zero_iff 2 unset

abbrev one_coin : CoinConfig ℤ
one_coin = record (empty_coin sample_json) {
  name = "BTC";
  required_confirmations = 6;
  mining_addresses = record { address = "mine"; private_key = ""; weight = 1 } ∷ [];
}

abbrev one_instance : InstanceConfig Doc ℤ
one_instance = record {
  name = "main";
  type = "BTC";
  protocol = "stratum";
  backends = "BTC" ∷ [];
  port = 0;
  stratum_share_diff = pos 0;
  instance_config = document;
}

abbrev one_of_each : PoolFrontendConfig Doc ℤ
one_of_each = record empty_config { coins = one_coin ∷ []; instances = one_instance ∷ [] }

one_coin-IsReady : IsReady sample_json sample_core one_coin
unfolding empty_coin
one_coin-IsReady = record {
  known = refl;
  default_payout_threshold = pos 7;
  default_parses = refl;
  minimal_allowed_payout = pos 7;
  minimal_parses = refl;
  enough = omega arith;
  addresses = and_all refl none_left;
  get_work_nodes = none_left;
  rpc_nodes = none_left;
  algorithm = refl;
}

one_instance-IsReadyInstance :
    IsReadyInstance sample_json sample_core (one_coin ∷ []) 1 one_instance
unfolding empty_coin
one_instance-IsReadyInstance = record {
  algorithm = "sha256";
  backends =
      and_all
        (record { coin = one_coin; listed = Memᴰ.head refl; named = refl; of_algorithm = refl })
        none_left;
  can_create = λ linked index. refl;
}

no_mail : IsReadyMail sample_json sample_core one_of_each
no_mail = unwanted refl

configure-IsDone_example : IsDone (configure sample_json sample_core one_of_each)
configure-IsDone_example =
    configure-IsDone sample_json sample_core one_of_each (λ a b e. ap sample_core.algorithm e)
      no_mail (and_all one_coin-IsReady none_left) (and_all one_instance-IsReadyInstance none_left)

watch-any_interrupt_example :
    is_ended (
      watch
        (record { interrupted = false; sigusr_received = false })
        0
        ((user ∷ []) ∷ [] ∷ (interrupt ∷ user ∷ []) ∷ []))
    ≡ any_interrupt ((user ∷ []) ∷ [] ∷ (interrupt ∷ user ∷ []) ∷ [])
watch-any_interrupt_example =
    watch-any_interrupt 0 ((user ∷ []) ∷ [] ∷ (interrupt ∷ user ∷ []) ∷ [])
