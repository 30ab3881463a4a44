-- ===== src/Http/Tests.antt =====
-- Runs of the HTTP front end on one server, and the theorems at concrete requests.
use poolfrontend.Prelude.{◌≡◌, refl, [], ◌∷◌, some, true, inl}
use poolfrontend.Json.Sample.{sample_json}
use poolfrontend.Http.Dispatch.{
  Context, unknown, user_login, user_update_settings, body_last, on_parse, find_function,
  function_name_map,
}
use poolfrontend.Http.Responds.{Responds}
use poolfrontend.Http.Request.{run_calls, feed}
use poolfrontend.Http.Request.Served.{Completed}
use poolfrontend.Http.Request.Parse.{on_parse-Responds, on_parse-Completed}
use poolfrontend.Http.Request.Routing.{
  feed-select, feed-unknown, feed-pieces, selected, Refused, address, pieces,
}
use poolfrontend.Http.Access.{Allowed}
use poolfrontend.Http.Access.Gates.{on_parse-Allowed, writer}
use poolfrontend.Http.Sample.{sample_services, sample_server, sample_parse, sample_answer, document}
use poolfrontend.Prelude.{some, ◌↔◌, String}
use poolfrontend.Http.Request.Names.{find_function_iff}
use poolfrontend.Http.Request.Selects.{Selects, IsSelected, request_line, feed-Selects_iff}

abbrev fresh : Context
fresh = record { method = 0; function = unknown; request = [] }

abbrev updating : Context
updating = record { method = 2; function = user_update_settings; request = [] }

on_parse-Responds_example :
    Responds
      (on_parse sample_json sample_services sample_server 2 sample_parse updating
        (body_last (123 ∷ []))).trace
on_parse-Responds_example =
    on_parse-Responds sample_json sample_services sample_server 2 sample_parse updating (123 ∷ [])

on_parse-Completed_example : Completed (
    run_calls sample_json sample_services sample_server sample_answer 3
      (on_parse sample_json sample_services sample_server 2 sample_parse updating
        (body_last (123 ∷ []))).trace)
on_parse-Completed_example =
    on_parse-Completed sample_json sample_services sample_server 2 sample_parse sample_answer
      updating (123 ∷ []) 0

on_parse-Allowed_example :
    Allowed "s1" true
      (λ u. true)
      (on_parse sample_json sample_services sample_server 2 sample_parse updating
        (body_last (123 ∷ []))).trace
on_parse-Allowed_example =
    on_parse-Allowed sample_json sample_services sample_server 2 sample_parse updating (123 ∷ [])
      document writer refl refl

feed-select_example :
    feed sample_json sample_services sample_server 2 sample_parse fresh
      (address sample_json sample_services sample_server 2 sample_parse 2 "userLogin")
    ≡ selected sample_json sample_services sample_server 2 sample_parse fresh user_login
unfolding function_name_map
feed-select_example =
    feed-select sample_json sample_services sample_server 2 sample_parse fresh "userLogin"
      user_login refl

feed-unknown_example : Refused sample_json sample_services sample_server 2 sample_parse (
    feed sample_json sample_services sample_server 2 sample_parse fresh
      (address sample_json sample_services sample_server 2 sample_parse 2 "userlogin"))
unfolding function_name_map
feed-unknown_example =
    feed-unknown sample_json sample_services sample_server 2 sample_parse fresh 2 "userlogin"
      (inl refl)

feed-pieces_example :
    feed sample_json sample_services sample_server 2 sample_parse updating (
      pieces sample_json sample_services sample_server 2 sample_parse
        ((123 ∷ 10 ∷ []) ∷ (32 ∷ []) ∷ [])
        (125 ∷ []))
    ≡ feed sample_json sample_services sample_server 2 sample_parse updating
        (body_last (123 ∷ 10 ∷ 32 ∷ 125 ∷ []) ∷ [])
feed-pieces_example =
    feed-pieces sample_json sample_services sample_server 2 sample_parse updating
      ((123 ∷ 10 ∷ []) ∷ (32 ∷ []) ∷ []) (125 ∷ [])

find_function_iff_example :
    (find_function function_name_map "userLogin" ≡ some user_login)
    ↔ (◌≡◌ {A = String} "userLogin" "userLogin")
find_function_iff_example = find_function_iff user_login "userLogin" tt

feed-Selects_iff_example :
    Selects sample_json sample_services sample_server 2 sample_parse user_login (
      feed sample_json sample_services sample_server 2 sample_parse updating (
        request_line sample_json sample_services sample_server 2 sample_parse 2
          ("api" ∷ "userLogin" ∷ [])))
    ↔ IsSelected sample_json sample_services sample_server 2 sample_parse 2
        ("api" ∷ "userLogin" ∷ [])
        user_login
feed-Selects_iff_example =
    feed-Selects_iff sample_json sample_services sample_server 2 sample_parse updating 2
      ("api" ∷ "userLogin" ∷ []) user_login tt
