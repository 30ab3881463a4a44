-- ===== src/Http/Access/Backends.antt =====
-- The backend and statistics handlers that act only for a session.
use poolfrontend.Prelude.{true, false, refl}
use poolfrontend.Json.{Json}
use poolfrontend.Http.Services.{Services}
use poolfrontend.Http.Handler.Obeys.{
  Obeys, handler_rules, Obeys-require_some-bind, Obeys-require-bind,
}
use poolfrontend.Http.Lookup.{Server}
use poolfrontend.Http.Access.{
  Allowed, refused, accepted, anybody, is_admin, is_admin_or_observer, session_id,
}
use poolfrontend.Http.Access.Rules.{Checks-Obeys, Checks-require_valid}
use poolfrontend.Http.Access.Fields.{
  Checks-json_parse_string, Checks-json_parse_int64, Checks-json_parse_number,
  Checks-json_parse_string_or, Checks-json_parse_int64_or, Checks-json_parse_uint64_or,
  Checks-json_parse_uint_or, Checks-json_parse_boolean_or,
}
use poolfrontend.Http.Backend.{
  on_backend_manual_payout, on_backend_query_payouts, on_backend_query_profit_switch_coeff,
  on_backend_query_pplns_payouts, on_backend_query_pplns_acc, on_backend_update_profit_switch_coeff,
  on_complex_mining_stats_get_info, on_backend_query_user_balance,
}
use poolfrontend.Http.Backend.Statistic.{
  on_backend_query_user_stats, on_backend_query_user_stats_history,
  on_backend_query_worker_stats_history,
}

module _ {j : Json} {s : Services j} where
  pub on_backend_manual_payout-Allowed :
      (server : Server j s) (document : j.Value)
      → Obeys {j = j} {s = s}
          (Allowed (session_id j document) true anybody)
          (on_backend_manual_payout j s server document)
  unfolding on_backend_manual_payout
  on_backend_manual_payout-Allowed server document = Checks-Obeys _ (
      Checks-json_parse_string document "id" _ _ λ id.
        Checks-json_parse_string_or document "targetLogin" _ _ _ λ target_login.
          Checks-json_parse_string_or document "coin" _ _ _ λ coin.
            Checks-require_valid _ (refused _) λ h.
              Obeys-require_some-bind _ _ _ (refused _) λ user accepts.
                search (handler_rules, accepted s _ true anybody h.1 accepts refl) depth 9)

  pub on_backend_query_payouts-Allowed :
      (server : Server j s) (document : j.Value)
      → Obeys {j = j} {s = s}
          (Allowed (session_id j document) false anybody)
          (on_backend_query_payouts j s server document)
  unfolding on_backend_query_payouts
  on_backend_query_payouts-Allowed server document = Checks-Obeys _ (
      Checks-json_parse_string document "id" _ _ λ id.
        Checks-json_parse_string_or document "targetLogin" _ _ _ λ target_login.
          Checks-json_parse_string_or document "coin" _ _ _ λ coin.
            Checks-json_parse_uint64_or document "timeFrom" _ _ _ λ time_from.
              Checks-json_parse_uint_or document "count" _ _ _ λ count.
                Checks-require_valid _ (refused _) λ h.
                  Obeys-require_some-bind _ _ _ (refused _) λ user accepts.
                    search (handler_rules, accepted s _ false anybody h.1 accepts refl) depth 9)

  pub on_backend_query_profit_switch_coeff-Allowed :
      (server : Server j s) (document : j.Value)
      → Obeys {j = j} {s = s}
          (Allowed (session_id j document) false is_admin_or_observer)
          (on_backend_query_profit_switch_coeff j s server document)
  unfolding on_backend_query_profit_switch_coeff
  on_backend_query_profit_switch_coeff-Allowed server document = Checks-Obeys _ (
      Checks-json_parse_string document "id" _ _ λ id. Checks-require_valid _ (refused _) λ h.
        Obeys-require_some-bind _ _ _ (refused _) λ user accepts.
          Obeys-require-bind _ _ _ (refused _) λ has_role.
            search (handler_rules, accepted s _ false is_admin_or_observer h.1 accepts has_role)
              depth 9)

  pub on_backend_query_pplns_payouts-Allowed :
      (server : Server j s) (document : j.Value)
      → Obeys {j = j} {s = s}
          (Allowed (session_id j document) false anybody)
          (on_backend_query_pplns_payouts j s server document)
  unfolding on_backend_query_pplns_payouts
  on_backend_query_pplns_payouts-Allowed server document = Checks-Obeys _ (
      Checks-json_parse_string document "id" _ _ λ id.
        Checks-json_parse_string_or document "targetLogin" _ _ _ λ target_login.
          Checks-json_parse_string document "coin" _ _ λ coin.
            Checks-json_parse_int64_or document "timeFrom" _ _ _ λ time_from.
              Checks-json_parse_string_or document "hashFrom" _ _ _ λ hash_from.
                Checks-json_parse_uint_or document "count" _ _ _ λ count.
                  Checks-require_valid _ (refused _) λ h.
                    Obeys-require_some-bind _ _ _ (refused _) λ user accepts.
                      search (handler_rules, accepted s _ false anybody h.0.1 accepts refl) depth 9)

  pub on_backend_query_pplns_acc-Allowed :
      (server : Server j s) (document : j.Value)
      → Obeys {j = j} {s = s}
          (Allowed (session_id j document) false anybody)
          (on_backend_query_pplns_acc j s server document)
  unfolding on_backend_query_pplns_acc
  on_backend_query_pplns_acc-Allowed server document = Checks-Obeys _ (
      Checks-json_parse_string document "id" _ _ λ id.
        Checks-json_parse_string_or document "targetLogin" _ _ _ λ target_login.
          Checks-json_parse_string document "coin" _ _ λ coin.
            Checks-json_parse_int64 document "timeFrom" _ _ λ time_from.
              Checks-json_parse_int64 document "timeTo" _ _ λ time_to.
                Checks-json_parse_int64 document "groupByInterval" _ _ λ interval.
                  Checks-require_valid _ (refused _) λ h.
                    Obeys-require_some-bind _ _ _ (refused _) λ user accepts.
                      search (handler_rules, accepted s _ false anybody h.0.0.0.0.1 accepts refl)
                        depth 9)

  pub on_backend_update_profit_switch_coeff-Allowed :
      (server : Server j s) (document : j.Value)
      → Obeys {j = j} {s = s}
          (Allowed (session_id j document) false is_admin)
          (on_backend_update_profit_switch_coeff j s server document)
  unfolding on_backend_update_profit_switch_coeff
  on_backend_update_profit_switch_coeff-Allowed server document = Checks-Obeys _ (
      Checks-json_parse_string document "id" _ _ λ id.
        Checks-json_parse_string_or document "coin" _ _ _ λ coin.
          Checks-json_parse_number document "profitSwitchCoeff" _ _ λ profit_switch_coeff.
            Checks-require_valid _ (refused _) λ h.
              Obeys-require_some-bind _ _ _ (refused _) λ user accepts.
                Obeys-require-bind _ _ _ (refused _) λ has_role.
                  search (handler_rules, accepted s _ false is_admin h.0.1 accepts has_role) depth
                    9)

  pub on_complex_mining_stats_get_info-Allowed :
      (document : j.Value)
      → Obeys {j = j} {s = s}
          (Allowed (session_id j document) false is_admin)
          (on_complex_mining_stats_get_info j s document)
  unfolding on_complex_mining_stats_get_info
  on_complex_mining_stats_get_info-Allowed document = Checks-Obeys _ (
      Checks-json_parse_string document "id" _ _ λ id. Checks-require_valid _ (refused _) λ h.
        Obeys-require_some-bind _ _ _ (refused _) λ user accepts.
          Obeys-require-bind _ _ _ (refused _) λ has_role.
            search (handler_rules, accepted s _ false is_admin h.1 accepts has_role) depth 9)

  pub on_backend_query_user_balance-Allowed :
      (server : Server j s) (document : j.Value)
      → Obeys {j = j} {s = s}
          (Allowed (session_id j document) false anybody)
          (on_backend_query_user_balance j s server document)
  unfolding on_backend_query_user_balance
  on_backend_query_user_balance-Allowed server document = Checks-Obeys _ (
      Checks-json_parse_string document "id" _ _ λ id.
        Checks-json_parse_string_or document "targetLogin" _ _ _ λ target_login.
          Checks-json_parse_string_or document "coin" _ _ _ λ coin.
            Checks-require_valid _ (refused _) λ h.
              Obeys-require_some-bind _ _ _ (refused _) λ user accepts.
                search (handler_rules, accepted s _ false anybody h.1 accepts refl) depth 9)

  pub on_backend_query_user_stats-Allowed :
      (server : Server j s) (document : j.Value)
      → Obeys {j = j} {s = s}
          (Allowed (session_id j document) false anybody)
          (on_backend_query_user_stats j s server document)
  unfolding on_backend_query_user_stats
  on_backend_query_user_stats-Allowed server document = Checks-Obeys _ (
      Checks-json_parse_string document "id" _ _ λ id.
        Checks-json_parse_string_or document "targetLogin" _ _ _ λ target_login.
          Checks-json_parse_string_or document "coin" _ _ _ λ coin.
            Checks-json_parse_uint64_or document "offset" _ _ _ λ offset.
              Checks-json_parse_uint64_or document "size" _ _ _ λ size.
                Checks-json_parse_string_or document "sortBy" _ _ _ λ sort_by.
                  Checks-json_parse_boolean_or document "sortDescending" _ _ _ λ sort_descending.
                    Checks-require_valid _ (refused _) λ h.
                      Obeys-require_some-bind _ _ _ (refused _) λ found is_found.
                        Obeys-require_some-bind _ _ _ (refused _) λ user accepts.
                          search (handler_rules, accepted s _ false anybody h.1 accepts refl) depth
                            9)

  pub on_backend_query_user_stats_history-Allowed :
      (server : Server j s) (document : j.Value)
      → Obeys {j = j} {s = s}
          (Allowed (session_id j document) false anybody)
          (on_backend_query_user_stats_history j s server document)
  unfolding on_backend_query_user_stats_history
  on_backend_query_user_stats_history-Allowed server document = Checks-Obeys _ (
      Checks-json_parse_string document "id" _ _ λ id.
        Checks-json_parse_string_or document "targetLogin" _ _ _ λ target_login.
          Checks-json_parse_string_or document "coin" _ _ _ λ coin.
            Checks-json_parse_int64_or document "timeFrom" _ _ _ λ time_from.
              Checks-json_parse_int64_or document "timeTo" _ _ _ λ time_to.
                Checks-json_parse_int64_or document "groupByInterval" _ _ _ λ interval.
                  Checks-require_valid _ (refused _) λ h.
                    Obeys-require_some-bind _ _ _ (refused _) λ user accepts.
                      search (handler_rules, accepted s _ false anybody h.1 accepts refl) depth 9)

  pub on_backend_query_worker_stats_history-Allowed :
      (server : Server j s) (document : j.Value)
      → Obeys {j = j} {s = s}
          (Allowed (session_id j document) false anybody)
          (on_backend_query_worker_stats_history j s server document)
  unfolding on_backend_query_worker_stats_history
  on_backend_query_worker_stats_history-Allowed server document = Checks-Obeys _ (
      Checks-json_parse_string document "id" _ _ λ id.
        Checks-json_parse_string_or document "targetLogin" _ _ _ λ target_login.
          Checks-json_parse_string document "coin" _ _ λ coin.
            Checks-json_parse_string document "workerId" _ _ λ worker_id.
              Checks-json_parse_int64_or document "timeFrom" _ _ _ λ time_from.
                Checks-json_parse_int64_or document "timeTo" _ _ _ λ time_to.
                  Checks-json_parse_int64_or document "groupByInterval" _ _ _ λ interval.
                    Checks-require_valid _ (refused _) λ h.
                      Obeys-require_some-bind _ _ _ (refused _) λ user accepts.
                        search (handler_rules, accepted s _ false anybody h.0.0.1 accepts refl)
                          depth 9)
