-- ===== src/Http/Calls/Steps.antt =====
-- onBackendQueryPPLNSAcc: what it asks the accounting database for.
use poolfrontend.Prelude.{◌≡◌, subst, true, false, not, some, [], ◌∷◌, String, arith, Bool}
use poolfrontend.Prelude.Int.{ℤ}
use poolfrontend.Json.{Json}
use poolfrontend.Http.Services.{Services}
use poolfrontend.Http.Types.{UserWithAccessRights}
use poolfrontend.Http.Handler.{
  Trace, events, write, start, increment_reference, query_pplns_acc, status_reply,
}
use poolfrontend.Http.Handler.Obeys.{
  Obeys, events-Obeys, Obeys-require-bind, Obeys-require_some-bind, Obeys-start_call,
}
use poolfrontend.Http.Access.Rules.{Checks-Obeys, Checks-require_valid}
use poolfrontend.Http.Access.Fields.{
  Checks-json_parse_string, Checks-json_parse_string_or, Checks-json_parse_int64,
}
use poolfrontend.Prelude.{ap}
use poolfrontend.Http.Fields.{json_parse_string, json_parse_string_or, json_parse_int64}
use poolfrontend.Http.Handler.Runs.{
  Given, Defaulted, events-Runs, Runs-read, Runs-read_or, Runs-require_valid, Runs-require,
  Runs-require_some, Runs-start_call,
}
use poolfrontend.Http.Calls.{field, int64_field}
use poolfrontend.Http.Lookup.{Server, find_backend}
use poolfrontend.Http.Backend.Interval.{bad_interval}
use poolfrontend.Http.Backend.{on_backend_query_pplns_acc}

-- Either a status alone is written, or the one call asks the backend of the document's coin, for
-- the user whose session was accepted, about the document's interval, which passed the check.
pub data Queries {j : Json} {s : Services j} (server : Server j s) (document : j.Value)
    : Trace j s → Type 0 where
  refused : (status : String) → Queries server document (write (status_reply status) ∷ [])
  queried :
      (b : s.Backend) (target_login : String) (user : UserWithAccessRights)
      (time_from time_to group : ℤ)
      → s.validate_session (field j document "id") target_login false ≡ some user
      → find_backend server (field j document "coin") ≡ some b
      → time_from ≡ int64_field j document "timeFrom"
      → time_to ≡ int64_field j document "timeTo"
      → group ≡ int64_field j document "groupByInterval"
      → bad_interval time_from time_to group ≡ false
      → Queries server document
          (increment_reference ∷ start (query_pplns_acc b user.login time_from time_to group) ∷ [])

not-true : (b : Bool) → not b ≡ true → b ≡ false
not-true b h = ground arith

module _ {j : Json} {s : Services j} where
  on_backend_query_pplns_acc-Obeys :
      (server : Server j s) (document : j.Value)
      → Obeys {j = j} {s = s}
          (Queries server document)
          (on_backend_query_pplns_acc j s server document)
  unfolding on_backend_query_pplns_acc
  on_backend_query_pplns_acc-Obeys server document = Checks-Obeys _ (
      Checks-json_parse_string document "id" _ _ λ id.
        Checks-json_parse_string_or document "targetLogin" _ _ _ λ target_login.
          Checks-json_parse_string document "coin" _ _ λ coin.
            Checks-json_parse_int64 document "timeFrom" _ _ λ time_from.
              Checks-json_parse_int64 document "timeTo" _ _ λ time_to.
                Checks-json_parse_int64 document "groupByInterval" _ _ λ interval.
                  Checks-require_valid _ (refused _) λ h.
                    Obeys-require_some-bind _ _ _ (refused _) λ user accepts.
                      Obeys-require_some-bind _ _ _ (refused _) λ b found.
                        Obeys-require-bind _ _ _ (refused _) λ fits. Obeys-start_call _ (
                          queried b target_login user time_from time_to interval
                            (subst (λ x. s.validate_session x target_login false ≡ some user)
                              h.0.0.0.0.1 accepts)
                            (subst (λ x. find_backend server x ≡ some b) h.0.0.0.1 found) h.0.0.1
                            h.0.1 h.1 (not-true _ fits)))

module _ (j : Json) (s : Services j) where
  -- For every document, onBackendQueryPPLNSAcc either writes a status alone, or queries the coin's
  -- backend for the login of the session's user and the document's interval, which passed the check.
  pub on_backend_query_pplns_acc-Queries :
      (server : Server j s) (document : j.Value)
      → Queries {j = j} {s = s} server document
          (events (on_backend_query_pplns_acc j s server document))
  on_backend_query_pplns_acc-Queries server document =
      events-Obeys _ _ (on_backend_query_pplns_acc-Obeys server document)

-- A document that the handler must accept, for the backend `b` and the user whose session it names.
pub record Acceptable {j : Json} {s : Services j} (server : Server j s) (document : j.Value)
    : Type 0 where
  pub target_login : String
  pub user : UserWithAccessRights
  pub b : s.Backend
  pub id_given : Given j j.is_string document "id"
  pub target_given : Defaulted j j.is_string j.get_string document "targetLogin" "" target_login
  pub coin_given : Given j j.is_string document "coin"
  pub from_given : Given j j.is_int64 document "timeFrom"
  pub to_given : Given j j.is_int64 document "timeTo"
  pub interval_given : Given j j.is_int64 document "groupByInterval"
  pub session_accepted : s.validate_session (field j document "id") target_login false ≡ some user
  pub backend_found : find_backend server (field j document "coin") ≡ some b
  pub interval_good :
      bad_interval
        (int64_field j document "timeFrom")
        (int64_field j document "timeTo")
        (int64_field j document "groupByInterval")
      ≡ false

module _ (j : Json) (s : Services j) (server : Server j s) (document : j.Value)
    (a : Acceptable {j = j} {s = s} server document) where
  -- A document that is acceptable is not refused: the one query is started, for its interval.
  pub on_backend_query_pplns_acc-Acceptable :
      events (on_backend_query_pplns_acc j s server document)
      ≡ increment_reference
        ∷ start (
            query_pplns_acc a.b a.user.login
              (int64_field j document "timeFrom")
              (int64_field j document "timeTo")
              (int64_field j document "groupByInterval"))
        ∷ []
  unfolding on_backend_query_pplns_acc json_parse_string json_parse_string_or json_parse_int64
  on_backend_query_pplns_acc-Acceptable = events-Runs (
      Runs-read j.is_string j.get_string document "id" _ _ a.id_given (
        Runs-read_or j.is_string j.get_string document "targetLogin" _ _ _ _ a.target_given (
          Runs-read j.is_string j.get_string document "coin" _ _ a.coin_given (
            Runs-read j.is_int64 j.get_int64 document "timeFrom" _ _ a.from_given (
              Runs-read j.is_int64 j.get_int64 document "timeTo" _ _ a.to_given (
                Runs-read j.is_int64 j.get_int64 document "groupByInterval" _ _ a.interval_given (
                  Runs-require_valid _ (
                    Runs-require_some _ a.user _ _ a.session_accepted (
                      Runs-require_some _ a.b _ _ a.backend_found
                        (Runs-require _ _ _ (ap not a.interval_good) (Runs-start_call _)))))))))))
