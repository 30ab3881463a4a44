-- ===== src/Http/Examples.antt =====
-- The theorems about handlers, tables, chunks and connections at concrete values.
use poolfrontend.Prelude.{
  true, ◌+◌, ℕ, List, false, ◌↔◌, ◌<◌, ◌≤◌, ◌*◌, ◌%◌, arith, ◌≡◌, refl, [], ◌∷◌, some,
}
use poolfrontend.Json.Sample.{sample_json}
use poolfrontend.Http.Sample.{
  bitcoin, litecoin, luck_document, acc_document, sample_services, sample_server, document,
}
use poolfrontend.Prelude.Int.{◌-ℤ◌, pos, negsuc}
use poolfrontend.Http.Types.{CoinInfo}
use poolfrontend.Http.Handler.{events}
use poolfrontend.Http.Users.Settings.{on_user_update_settings}
use poolfrontend.Http.Backend.{on_backend_pool_luck, on_backend_query_pplns_acc}
use poolfrontend.Http.Backend.Interval.{bad_interval}
use poolfrontend.Http.Backend.Interval.Steps.{bad_interval_iff, bad_interval-negative_iff}
use poolfrontend.Http.Lookup.{make_server, find_backend, statistic_db, backend_name, statistic_name}
use poolfrontend.Http.Lookup.Found.{Finds, find_backend-Finds, statistic_db-Finds}
use poolfrontend.Http.Calls.Settings.{
  Acceptable, accepted_settings, on_user_update_settings-Acceptable, Updates,
  on_user_update_settings-Updates,
}
use poolfrontend.Http.Calls.Intervals.{Asks, on_backend_pool_luck-Asks}
use poolfrontend.Http.Calls.Steps.{
  Acceptable as IsAccQuery, on_backend_query_pplns_acc-Acceptable, Queries,
  on_backend_query_pplns_acc-Queries,
}
use poolfrontend.Prelude.{drop, some}
use poolfrontend.Http.Chunk.{send}
use poolfrontend.Http.Chunk.Decode.{read_chunks, send-read_chunks}
use poolfrontend.Http.Connection.{Connection, run, on_write, reading, buffer_size, parsed_size}
use poolfrontend.Http.Connection.Close.{close_times, close_times-deletions}
use poolfrontend.Http.Connection.Buffer.{
  Receiving, started, Receiving-parsed_size, on_write-parsed_size,
}
use poolfrontend.Http.Handler.{start, increment_reference, update_settings}
use poolfrontend.Http.Handler.Runs.{absent}
use poolfrontend.Http.Handler.{query_pplns_acc}
use poolfrontend.Http.Sample.{sample_parse}
use poolfrontend.Http.Request.{feed}
use poolfrontend.Http.Request.Updates.{feed-update_settings}
use poolfrontend.Http.Dispatch.{Context, unknown, method, uri_path_element, body_last}
use poolfrontend.Http.Calls.Intervals.{on_backend_pool_luck-Rising, and_then, none_left, step, done}
use poolfrontend.Http.Handler.{pool_luck}

abbrev first : Context
first = record { method = 0; function = unknown; request = [] }

on_user_update_settings-Updates_example :
    Updates {j = sample_json} {s = sample_services} document
      (events (on_user_update_settings sample_json sample_services document))
on_user_update_settings-Updates_example =
    on_user_update_settings-Updates sample_json sample_services document

on_backend_pool_luck-Asks_example :
    Asks {j = sample_json} {s = sample_services} sample_server luck_document
      (events (on_backend_pool_luck sample_json sample_services sample_server luck_document))
on_backend_pool_luck-Asks_example =
    on_backend_pool_luck-Asks sample_json sample_services sample_server luck_document

on_backend_query_pplns_acc-Queries_example :
    Queries {j = sample_json} {s = sample_services} sample_server acc_document
      (events (on_backend_query_pplns_acc sample_json sample_services sample_server acc_document))
on_backend_query_pplns_acc-Queries_example =
    on_backend_query_pplns_acc-Queries sample_json sample_services sample_server acc_document

abbrev coins : List CoinInfo
coins = litecoin ∷ bitcoin ∷ []

find_backend-Finds_example : Finds (backend_name {j = sample_json} sample_services) coins "BTC" (
    find_backend {j = sample_json} {s = sample_services}
      (make_server {j = sample_json} {s = sample_services} coins [] [])
      "BTC")
find_backend-Finds_example = find_backend-Finds {j = sample_json} sample_services coins [] [] "BTC"

statistic_db-Finds_example :
    Finds
      (statistic_name {j = sample_json} sample_services)
      (litecoin ∷ bitcoin ∷ litecoin ∷ [])
      "DOGE"
      (statistic_db {j = sample_json} {s = sample_services}
        (make_server {j = sample_json} {s = sample_services} coins (litecoin ∷ []) [])
        "DOGE")
statistic_db-Finds_example =
    statistic_db-Finds {j = sample_json} sample_services coins (litecoin ∷ []) [] "DOGE"

bad_interval_iff_example :
    (bad_interval (pos 100) (pos 7300) (pos 3600) ≡ false)
    ↔ ((0 < 3600) × (k : ℕ) × (pos 7300 -ℤ pos 100 ≡ pos (k * 3600)) × (1 ≤ k) × (k ≤ 3200))
bad_interval_iff_example = bad_interval_iff (pos 100) (pos 7300) (unfold ◌-ℤ◌ in omega arith) 3600

bad_interval-negative_iff_example :
    (bad_interval (pos 7300) (pos 100) (negsuc 0) ≡ false)
    ↔ ((d : ℕ) × (pos 100 -ℤ pos 7300 ≡ pos d) × (0 < d) × (d % 1 ≡ 0))
bad_interval-negative_iff_example =
    bad_interval-negative_iff (pos 7300) (pos 100) (unfold ◌-ℤ◌ in omega arith) 0

send-read_chunks_example :
    read_chunks 2 (drop 3 (send (72 ∷ 84 ∷ 84 ∷ []) (123 ∷ 125 ∷ [])))
    ≡ some (123 ∷ 125 ∷ [], 0 ∷ [])
send-read_chunks_example =
    send-read_chunks (72 ∷ 84 ∷ 84 ∷ []) (123 ∷ 125 ∷ []) (omega arith) (omega arith)

close_times-deletions_example : (close_times 3 run).deletions ≡ run.deletions + 1
unfolding run
close_times-deletions_example = close_times-deletions 2 run refl (omega arith)

Receiving-parsed_size_example : (0 ≡ run.old_data_size) × (parsed_size 500 run ≤ buffer_size)
unfolding run
Receiving-parsed_size_example = Receiving-parsed_size 0 buffer_size 500 started refl (omega arith)

on_write-parsed_size_example :
    (c : Connection) × Receiving c
    × ((on_write c).shut_down ≡ true)
    × ((on_write c).last_read ≡ reading 0 buffer_size)
    × (parsed_size buffer_size (on_write c) ≡ buffer_size + 100)
on_write-parsed_size_example = on_write-parsed_size 100 (omega arith)

document-Acceptable : Acceptable {j = sample_json} sample_services document
document-Acceptable = record {
  target_login = "";
  totp = "";
  coin_info = bitcoin;
  minimal_payout = pos 100000000;
  user = record { login = "alice"; is_read_only = false };
  id_given = refl;
  target_given = absent refl;
  coin_given = refl;
  address_given = refl;
  threshold_given = refl;
  auto_given = refl;
  totp_given = absent refl;
  coin_found = refl;
  payout = refl;
  address_checked = refl;
  session_accepted = refl;
}

on_user_update_settings-Acceptable_example :
    events (on_user_update_settings sample_json sample_services document)
    ≡ increment_reference
      ∷ start (
          update_settings
            (accepted_settings sample_json sample_services document document-Acceptable)
            document-Acceptable.totp)
      ∷ []
on_user_update_settings-Acceptable_example =
    on_user_update_settings-Acceptable sample_json sample_services document document-Acceptable

acc_document-IsAccQuery :
    IsAccQuery {j = sample_json} {s = sample_services} sample_server acc_document
unfolding make_server find_backend bad_interval ◌-ℤ◌
acc_document-IsAccQuery = record {
  target_login = "";
  user = record { login = "alice"; is_read_only = false };
  b = litecoin;
  id_given = refl;
  target_given = absent refl;
  coin_given = refl;
  from_given = refl;
  to_given = refl;
  interval_given = refl;
  session_accepted = refl;
  backend_found = refl;
  interval_good = refl;
}

on_backend_query_pplns_acc-Acceptable_example :
    events (on_backend_query_pplns_acc sample_json sample_services sample_server acc_document)
    ≡ increment_reference
      ∷ start (
          query_pplns_acc acc_document-IsAccQuery.b acc_document-IsAccQuery.user.login
            (pos 100)
            (pos 7300)
            (pos 3600))
      ∷ []
on_backend_query_pplns_acc-Acceptable_example =
    on_backend_query_pplns_acc-Acceptable sample_json sample_services sample_server acc_document
      acc_document-IsAccQuery

feed-update_settings_example :
    (feed sample_json sample_services sample_server 2 sample_parse first (
      method 2
      ∷ uri_path_element "api"
      ∷ uri_path_element "userUpdateSettings"
      ∷ body_last (123 ∷ 125 ∷ [])
      ∷ [])).trace
    ≡ increment_reference
      ∷ start (
          update_settings
            (accepted_settings sample_json sample_services document document-Acceptable)
            document-Acceptable.totp)
      ∷ []
feed-update_settings_example =
    feed-update_settings sample_json sample_services sample_server 2 sample_parse first
      (123 ∷ 125 ∷ []) document refl refl refl document-Acceptable

on_backend_pool_luck-Rising_example :
    events (on_backend_pool_luck sample_json sample_services sample_server luck_document)
    ≡ increment_reference ∷ start (pool_luck litecoin (pos 60 ∷ pos 3600 ∷ [])) ∷ []
unfolding find_backend make_server
on_backend_pool_luck-Rising_example =
    on_backend_pool_luck-Rising sample_json sample_services sample_server luck_document litecoin
      refl refl (and_then refl (and_then refl none_left))
      (step (omega arith) (step (omega arith) done))
