-- ===== src/Http/Access.antt =====
-- Which handlers of http.cpp act only for a session: the user manager must accept the session that
-- the request's field `id` names, with the access that the handler asks for.
pub mod Rules
pub mod Fields
pub mod Users
pub mod Backends
pub mod Gates
use poolfrontend.Prelude.{Bool, true, ◌||◌, ◌≡◌, Option, some, [], ◌∷◌, String, str_eq}
use poolfrontend.Json.{Json}
use poolfrontend.Http.Services.{Services}
use poolfrontend.Http.Types.{UserWithAccessRights}
use poolfrontend.Http.Handler.{Trace, write, status_reply}

-- The roles that a handler may ask for.
abbrev pub anybody : UserWithAccessRights → Bool
anybody u = true

abbrev pub is_admin : UserWithAccessRights → Bool
is_admin u = str_eq u.login "admin"

abbrev pub is_admin_or_observer : UserWithAccessRights → Bool
is_admin_or_observer u = str_eq u.login "admin" || str_eq u.login "observer"

-- Either the request is refused by a status, and nothing else is done; or the user manager
-- accepted the session `id` for some target login, with or without write access, for a user of the
-- role.
pub data Allowed {j : Json} {s : Services j} (id : String) (needs_write : Bool)
    (role : UserWithAccessRights → Bool) : Trace j s → Type 0 where
  refused : (status : String) → Allowed id needs_write role (write (status_reply status) ∷ [])
  allowed :
      {t : Trace j s} {session_id target_login : String} {u : UserWithAccessRights}
      → session_id ≡ id
      → s.validate_session session_id target_login needs_write ≡ some u
      → role u ≡ true
      → Allowed id needs_write role t

-- The session that a request names.
abbrev pub session_id : (j : Json) → j.Value → String
session_id j document = j.get_string (j.member document "id")

module _ {j : Json} (s : Services j) where
  -- A session that was accepted allows whatever follows.
  pub accepted :
      {id session : String} (target : String) (w : Bool) (role : UserWithAccessRights → Bool)
      {u : UserWithAccessRights}
      → session ≡ id
      → s.validate_session session target w ≡ some u
      → role u ≡ true
      → (t : Trace j s) → Allowed id w role t
  accepted target w role e v r t = allowed e v r
