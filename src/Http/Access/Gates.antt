-- ===== src/Http/Access/Gates.antt =====
-- The session that each API function needs, over the whole of onParse.
use poolfrontend.Prelude.{
  ℕ, ◌≡◌, subst, Bool, true, false, Option, none, some, List, ◌++◌, Bool-cases, inl, inr, String,
}
use poolfrontend.Json.{Json}
use poolfrontend.Http.Services.{Services}
use poolfrontend.Http.Types.{UserWithAccessRights}
use poolfrontend.Http.Handler.{Trace}
use poolfrontend.Http.Handler.Obeys.{events-Obeys}
use poolfrontend.Http.Lookup.{Server}
use poolfrontend.Http.Dispatch.{
  Function, user_get_credentials, user_get_settings, user_update_settings, backend_manual_payout,
  backend_query_user_balance, backend_query_payouts, backend_query_profit_switch_coeff,
  backend_query_pplns_payouts, backend_query_pplns_acc, backend_update_profit_switch_coeff,
  complex_mining_stats_get_info, backend_query_user_stats, backend_query_user_stats_history,
  backend_query_worker_stats_history, Context, body_last, dispatch, run_function, on_parse,
  request_text,
}
use poolfrontend.Http.Access.{Allowed, refused, anybody, is_admin, is_admin_or_observer, session_id}
use poolfrontend.Http.Access.Users.{
  on_user_get_credentials-Allowed, on_user_get_settings-Allowed, on_user_update_settings-Allowed,
}
use poolfrontend.Http.Access.Backends.{
  on_backend_manual_payout-Allowed, on_backend_query_user_balance-Allowed,
  on_backend_query_payouts-Allowed, on_backend_query_profit_switch_coeff-Allowed,
  on_backend_query_pplns_payouts-Allowed, on_backend_query_pplns_acc-Allowed,
  on_backend_update_profit_switch_coeff-Allowed, on_complex_mining_stats_get_info-Allowed,
  on_backend_query_user_stats-Allowed, on_backend_query_user_stats_history-Allowed,
  on_backend_query_worker_stats_history-Allowed,
}

pub record Gate : Type 0 where
  pub needs_write : Bool
  pub role : UserWithAccessRights → Bool

abbrev reader : Gate
reader = record { needs_write = false; role = anybody }

abbrev pub writer : Gate
writer = record { needs_write = true; role = anybody }

-- The functions that this file's handlers guard by a session of their own. The others hand the
-- session on to the user manager, or need none.
abbrev pub gate : Function → Option Gate
gate user_get_credentials = some reader
gate user_get_settings = some reader
gate user_update_settings = some writer
gate backend_manual_payout = some writer
gate backend_query_user_balance = some reader
gate backend_query_user_stats = some reader
gate backend_query_user_stats_history = some reader
gate backend_query_worker_stats_history = some reader
gate backend_query_payouts = some reader
gate backend_query_profit_switch_coeff =
    some (record { needs_write = false; role = is_admin_or_observer })
gate backend_query_pplns_payouts = some reader
gate backend_query_pplns_acc = some reader
gate backend_update_profit_switch_coeff = some (record { needs_write = false; role = is_admin })
gate complex_mining_stats_get_info = some (record { needs_write = false; role = is_admin })
gate _ = none

module _ {j : Json} {s : Services j} (server : Server j s) where
  abbrev AllowedAt : String → Option Gate → Option (Trace j s) → Type 0
  AllowedAt id none o = Unit
  AllowedAt id (some g) none = ⊥
  AllowedAt id (some g) (some t) = Allowed id g.needs_write g.role t

  dispatch-AllowedAt :
      (f : Function) (d : j.Value) → AllowedAt (session_id j d) (gate f) (dispatch j s server f d)
  unfolding dispatch
  dispatch-AllowedAt user_get_credentials d = events-Obeys _ _ (on_user_get_credentials-Allowed d)
  dispatch-AllowedAt user_get_settings d = events-Obeys _ _ (on_user_get_settings-Allowed d)
  dispatch-AllowedAt user_update_settings d = events-Obeys _ _ (on_user_update_settings-Allowed d)
  dispatch-AllowedAt backend_manual_payout d =
      events-Obeys _ _ (on_backend_manual_payout-Allowed server d)
  dispatch-AllowedAt backend_query_user_balance d =
      events-Obeys _ _ (on_backend_query_user_balance-Allowed server d)
  dispatch-AllowedAt backend_query_user_stats d =
      events-Obeys _ _ (on_backend_query_user_stats-Allowed server d)
  dispatch-AllowedAt backend_query_user_stats_history d =
      events-Obeys _ _ (on_backend_query_user_stats_history-Allowed server d)
  dispatch-AllowedAt backend_query_worker_stats_history d =
      events-Obeys _ _ (on_backend_query_worker_stats_history-Allowed server d)
  dispatch-AllowedAt backend_query_payouts d =
      events-Obeys _ _ (on_backend_query_payouts-Allowed server d)
  dispatch-AllowedAt backend_query_profit_switch_coeff d =
      events-Obeys _ _ (on_backend_query_profit_switch_coeff-Allowed server d)
  dispatch-AllowedAt backend_query_pplns_payouts d =
      events-Obeys _ _ (on_backend_query_pplns_payouts-Allowed server d)
  dispatch-AllowedAt backend_query_pplns_acc d =
      events-Obeys _ _ (on_backend_query_pplns_acc-Allowed server d)
  dispatch-AllowedAt backend_update_profit_switch_coeff d =
      events-Obeys _ _ (on_backend_update_profit_switch_coeff-Allowed server d)
  dispatch-AllowedAt complex_mining_stats_get_info d =
      events-Obeys _ _ (on_complex_mining_stats_get_info-Allowed d)
  dispatch-AllowedAt _ d = tt

  run_function-Allowed :
      (context : Context) (d : j.Value) (g : Gate) (o : Option (Trace j s))
      → AllowedAt (session_id j d) (some g) o
      → Allowed (session_id j d) g.needs_write g.role (run_function j s server context o).trace
  unfolding run_function
  run_function-Allowed context d g none h = absurd h
  run_function-Allowed context d g (some t) h = h

module _ (j : Json) (s : Services j) (server : Server j s) (post : ℕ)
    (parse : List ℕ → Option j.Value) where
  -- A request for a gated function, whose body parses to `document`, is refused by a status, with
  -- nothing else done, unless the user manager accepts the session of the field `id`, with write
  -- access where the gate asks for it, and the session's user has the gate's role.
  pub on_parse-Allowed :
      (context : Context) (bytes : List ℕ) (document : j.Value) (g : Gate)
      → gate context.function ≡ some g
      → parse (request_text (context.request ++ bytes)) ≡ some document
      → Allowed
          (session_id j document)
          g.needs_write
          g.role
          (on_parse j s server post parse context (body_last bytes)).trace
  unfolding on_parse
  on_parse-Allowed context bytes document g gated parsed =
      rw parsed (elim (Bool-cases (j.is_object document)) [
        | inl is ↦ rw is (
            run_function-Allowed server _ document g _ (
              subst
                (λ o.
                  AllowedAt server (session_id j document) o
                    (dispatch j s server context.function document))
                gated (dispatch-AllowedAt server context.function document)))
        | inr is_not ↦ rw is_not (refused "invalid_json")
      ])
