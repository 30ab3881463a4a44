-- ===== src/Http/Fields.antt =====
-- The field readers of http.cpp. `out` is what the variable held before the call; the C++ overload
-- with a default value has `_or` in its name. Where the code leaves a variable uninitialised, any
-- value may stand for `out`: it is not read while `validAcc` is false.
pub mod Quiet
use poolfrontend.Prelude.{ℕ, Bool, false, ◌&&◌, ◌||◌, String, if◌then◌else◌}
use poolfrontend.Prelude.Int.{ℤ}
use poolfrontend.Json.{Json}
use poolfrontend.Http.Services.{Services}
use poolfrontend.Http.Types.{Credentials}
use poolfrontend.Http.Handler.{Handler, next, ◌>>=◌, pure}

-- fnormalize
unfoldable pub fnormalize : (j : Json) → j.Double → j.Double
fnormalize j v = if j.is_nan v || j.is_inf v then j.zero_double else v

module _ {j : Json} {s : Services j} where
  open j use {Value, Double, has_member, member}

  -- The two shapes that the readers share: a required field, and one with a default value.
  unfoldable pub read :
      {A : Type 0} → (Value → Bool) → (Value → A) → Value → String → A → Handler j s A
  read is get document name out fr =
      if has_member document name && is (member document name)
      then next (get (member document name)) fr
      else next out (record fr { valid = false })

  unfoldable pub read_or :
      {A : Type 0} → (Value → Bool) → (Value → A) → Value → String → A → A → Handler j s A
  read_or is get document name out default fr =
      if has_member document name
      then (if is (member document name)
          then next (get (member document name)) fr
          else next out (record fr { valid = false }))
      else next default fr

  unfoldable pub json_parse_string : Value → String → String → Handler j s String
  unfolding read
  json_parse_string = read j.is_string j.get_string

  unfoldable pub json_parse_string_or : Value → String → String → String → Handler j s String
  unfolding read_or
  json_parse_string_or = read_or j.is_string j.get_string

  unfoldable pub json_parse_int64 : Value → String → ℤ → Handler j s ℤ
  unfolding read
  json_parse_int64 = read j.is_int64 j.get_int64

  unfoldable pub json_parse_int64_or : Value → String → ℤ → ℤ → Handler j s ℤ
  unfolding read_or
  json_parse_int64_or = read_or j.is_int64 j.get_int64

  unfoldable pub json_parse_uint64_or : Value → String → ℕ → ℕ → Handler j s ℕ
  unfolding read_or
  json_parse_uint64_or = read_or j.is_uint64 j.get_uint64

  unfoldable pub json_parse_uint_or : Value → String → ℕ → ℕ → Handler j s ℕ
  unfolding read_or
  json_parse_uint_or = read_or j.is_uint j.get_uint

  unfoldable pub json_parse_boolean : Value → String → Bool → Handler j s Bool
  unfolding read
  json_parse_boolean = read j.is_bool j.get_bool

  unfoldable pub json_parse_boolean_or : Value → String → Bool → Bool → Handler j s Bool
  unfolding read_or
  json_parse_boolean_or = read_or j.is_bool j.get_bool

  unfoldable pub json_parse_number : Value → String → Double → Handler j s Double
  unfolding read
  json_parse_number = read j.is_number j.get_double

  unfoldable pub parse_user_credentials : Value → Credentials → Handler j s Credentials
  unfolding json_parse_string_or json_parse_boolean_or pure
  parse_user_credentials document c = do
    login ← json_parse_string_or document "login" c.login ""
    password ← json_parse_string_or document "password" c.password ""
    name ← json_parse_string_or document "name" c.name ""
    email ← json_parse_string_or document "email" c.email ""
    two_factor ← json_parse_string_or document "totp" c.two_factor ""
    is_active ← json_parse_boolean_or document "isActive" c.is_active false
    is_read_only ← json_parse_boolean_or document "isReadOnly" c.is_read_only false
    fee_plan ← json_parse_string_or document "feePlanId" c.fee_plan ""
    pure (record c {
      login = login;
      password = password;
      name = name;
      email = email;
      two_factor = two_factor;
      is_active = is_active;
      is_read_only = is_read_only;
      fee_plan = fee_plan;
    })
