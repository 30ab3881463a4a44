-- ===== src/Http/Fields/Quiet.antt =====
-- The field readers of http.cpp reply to nobody and start nothing: they only go on.
use poolfrontend.Prelude.{ℕ, Bool, String}
use poolfrontend.Prelude.Int.{ℤ}
use poolfrontend.Json.{Json}
use poolfrontend.Http.Services.{Services}
use poolfrontend.Http.Types.{Credentials}
use poolfrontend.Http.Handler.{Trace}
use poolfrontend.Http.Handler.Obeys.{Obeys, Obeys-read, Obeys-read_or, Obeys-bind, Obeys-pure}
use poolfrontend.Http.Fields.{
  json_parse_string, json_parse_string_or, json_parse_int64, json_parse_int64_or,
  json_parse_uint64_or, json_parse_uint_or, json_parse_boolean, json_parse_boolean_or,
  json_parse_number, parse_user_credentials,
}

module _ {j : Json} {s : Services j} {P : Trace j s → Type 0} where
  pub Obeys-json_parse_string :
      (document : j.Value) (name : String) (out : String)
      → Obeys P (json_parse_string document name out)
  unfolding json_parse_string
  Obeys-json_parse_string document name out = Obeys-read j.is_string j.get_string document name out

  pub Obeys-json_parse_string_or :
      (document : j.Value) (name : String) (out default : String)
      → Obeys P (json_parse_string_or document name out default)
  unfolding json_parse_string_or
  Obeys-json_parse_string_or document name out default =
      Obeys-read_or j.is_string j.get_string document name out default

  pub Obeys-json_parse_int64 :
      (document : j.Value) (name : String) (out : ℤ) → Obeys P (json_parse_int64 document name out)
  unfolding json_parse_int64
  Obeys-json_parse_int64 document name out = Obeys-read j.is_int64 j.get_int64 document name out

  pub Obeys-json_parse_int64_or :
      (document : j.Value) (name : String) (out default : ℤ)
      → Obeys P (json_parse_int64_or document name out default)
  unfolding json_parse_int64_or
  Obeys-json_parse_int64_or document name out default =
      Obeys-read_or j.is_int64 j.get_int64 document name out default

  pub Obeys-json_parse_uint64_or :
      (document : j.Value) (name : String) (out default : ℕ)
      → Obeys P (json_parse_uint64_or document name out default)
  unfolding json_parse_uint64_or
  Obeys-json_parse_uint64_or document name out default =
      Obeys-read_or j.is_uint64 j.get_uint64 document name out default

  pub Obeys-json_parse_uint_or :
      (document : j.Value) (name : String) (out default : ℕ)
      → Obeys P (json_parse_uint_or document name out default)
  unfolding json_parse_uint_or
  Obeys-json_parse_uint_or document name out default =
      Obeys-read_or j.is_uint j.get_uint document name out default

  pub Obeys-json_parse_boolean :
      (document : j.Value) (name : String) (out : Bool)
      → Obeys P (json_parse_boolean document name out)
  unfolding json_parse_boolean
  Obeys-json_parse_boolean document name out = Obeys-read j.is_bool j.get_bool document name out

  pub Obeys-json_parse_boolean_or :
      (document : j.Value) (name : String) (out default : Bool)
      → Obeys P (json_parse_boolean_or document name out default)
  unfolding json_parse_boolean_or
  Obeys-json_parse_boolean_or document name out default =
      Obeys-read_or j.is_bool j.get_bool document name out default

  pub Obeys-json_parse_number :
      (document : j.Value) (name : String) (out : j.Double)
      → Obeys P (json_parse_number document name out)
  unfolding json_parse_number
  Obeys-json_parse_number document name out = Obeys-read j.is_number j.get_double document name out

  pub Obeys-parse_user_credentials :
      (document : j.Value) (c : Credentials) → Obeys P (parse_user_credentials document c)
  unfolding parse_user_credentials
  Obeys-parse_user_credentials document c = search (Obeys-bind, Obeys-pure, Obeys-read_or) depth 20

pub ruleset field_rules = (
  Obeys-json_parse_string, Obeys-json_parse_string_or, Obeys-json_parse_int64,
  Obeys-json_parse_int64_or, Obeys-json_parse_uint64_or, Obeys-json_parse_uint_or,
  Obeys-json_parse_boolean, Obeys-json_parse_boolean_or, Obeys-json_parse_number,
  Obeys-parse_user_credentials,
)
