-- ===== src/Http/Request/Updates.antt =====
-- A request for userUpdateSettings, from its method to the call that it starts.
use poolfrontend.Prelude.{ℕ, ◌≡◌, refl, true, Option, some, List, [], ◌∷◌, ==_refl}
use poolfrontend.Json.{Json}
use poolfrontend.Http.Services.{Services}
use poolfrontend.Http.Handler.{start, increment_reference, update_settings}
use poolfrontend.Http.Lookup.{Server}
use poolfrontend.Http.Calls.Settings.{
  Acceptable, accepted_settings, on_user_update_settings-Acceptable,
}
use poolfrontend.Http.Dispatch.{
  user_update_settings, method, uri_path_element, body_last, Context, find_function,
  function_name_map, request_text, on_parse, dispatch, run_document, run_function, select_function,
}
use poolfrontend.Http.Request.{feed}

listed : find_function function_name_map "userUpdateSettings" ≡ some user_update_settings
unfolding function_name_map
listed = refl

module _ (j : Json) (s : Services j) (server : Server j s) (post : ℕ)
    (parse : List ℕ → Option j.Value) where
  -- On a connection that has received nothing of a body, a POST of /api/userUpdateSettings whose body parses to
  -- an acceptable document makes the connection take one reference and start the one call that stores
  -- the document's settings, and nothing else.
  pub feed-update_settings :
      (context : Context) (bytes : List ℕ) (document : j.Value)
      → context.request ≡ []
      → parse (request_text bytes) ≡ some document
      → j.is_object document ≡ true
      → (a : Acceptable {j = j} s document)
      → (feed j s server post parse context (
          method post
          ∷ uri_path_element "api"
          ∷ uri_path_element "userUpdateSettings"
          ∷ body_last bytes
          ∷ [])).trace
        ≡ increment_reference
          ∷ start (update_settings (accepted_settings j s document a) a.totp)
          ∷ []
  unfolding feed on_parse run_document run_function select_function dispatch
  feed-update_settings context bytes document fresh parsed is a =
      rw
        (listed, ==_refl post, fresh, parsed, is, on_user_update_settings-Acceptable j s document a)
        refl
