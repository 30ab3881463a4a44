-- ===== src/Http/Access/Fields.antt =====
-- The rules of the module above for the field readers of http.cpp.
use poolfrontend.Prelude.{ℕ, Bool, ◌≡◌, String}
use poolfrontend.Prelude.Int.{ℤ}
use poolfrontend.Json.{Json}
use poolfrontend.Http.Services.{Services}
use poolfrontend.Http.Handler.{Handler, Trace, ◌>>=◌}
use poolfrontend.Http.Fields.{
  json_parse_string, json_parse_int64, json_parse_boolean, json_parse_number, json_parse_string_or,
  json_parse_int64_or, json_parse_uint64_or, json_parse_uint_or, json_parse_boolean_or,
}
use poolfrontend.Http.Access.Rules.{Checks, Checks-read, Checks-read_or, Checks-require_valid}

module _ {j : Json} {s : Services j} {H : Type 0} {P : Trace j s → Type 0} where
  pub Checks-json_parse_string :
      (document : j.Value) (name : String) (out : String) (k : String → Handler j s ⊥)
      → ((a : String) → Checks (H × (a ≡ j.get_string (j.member document name))) P (k a))
      → Checks H P (json_parse_string document name out >>= k)
  unfolding json_parse_string
  Checks-json_parse_string document name out k h =
      Checks-read j.is_string j.get_string document name out k h

  pub Checks-json_parse_int64 :
      (document : j.Value) (name : String) (out : ℤ) (k : ℤ → Handler j s ⊥)
      → ((a : ℤ) → Checks (H × (a ≡ j.get_int64 (j.member document name))) P (k a))
      → Checks H P (json_parse_int64 document name out >>= k)
  unfolding json_parse_int64
  Checks-json_parse_int64 document name out k h =
      Checks-read j.is_int64 j.get_int64 document name out k h

  pub Checks-json_parse_boolean :
      (document : j.Value) (name : String) (out : Bool) (k : Bool → Handler j s ⊥)
      → ((a : Bool) → Checks (H × (a ≡ j.get_bool (j.member document name))) P (k a))
      → Checks H P (json_parse_boolean document name out >>= k)
  unfolding json_parse_boolean
  Checks-json_parse_boolean document name out k h =
      Checks-read j.is_bool j.get_bool document name out k h

  pub Checks-json_parse_number :
      (document : j.Value) (name : String) (out : j.Double) (k : j.Double → Handler j s ⊥)
      → ((a : j.Double) → Checks (H × (a ≡ j.get_double (j.member document name))) P (k a))
      → Checks H P (json_parse_number document name out >>= k)
  unfolding json_parse_number
  Checks-json_parse_number document name out k h =
      Checks-read j.is_number j.get_double document name out k h

  pub Checks-json_parse_string_or :
      (document : j.Value) (name : String) (out default : String) (k : String → Handler j s ⊥)
      → ((a : String) → Checks H P (k a))
      → Checks H P (json_parse_string_or document name out default >>= k)
  unfolding json_parse_string_or
  Checks-json_parse_string_or document name out default k h =
      Checks-read_or j.is_string j.get_string document name out default k h

  pub Checks-json_parse_int64_or :
      (document : j.Value) (name : String) (out default : ℤ) (k : ℤ → Handler j s ⊥)
      → ((a : ℤ) → Checks H P (k a))
      → Checks H P (json_parse_int64_or document name out default >>= k)
  unfolding json_parse_int64_or
  Checks-json_parse_int64_or document name out default k h =
      Checks-read_or j.is_int64 j.get_int64 document name out default k h

  pub Checks-json_parse_uint64_or :
      (document : j.Value) (name : String) (out default : ℕ) (k : ℕ → Handler j s ⊥)
      → ((a : ℕ) → Checks H P (k a))
      → Checks H P (json_parse_uint64_or document name out default >>= k)
  unfolding json_parse_uint64_or
  Checks-json_parse_uint64_or document name out default k h =
      Checks-read_or j.is_uint64 j.get_uint64 document name out default k h

  pub Checks-json_parse_uint_or :
      (document : j.Value) (name : String) (out default : ℕ) (k : ℕ → Handler j s ⊥)
      → ((a : ℕ) → Checks H P (k a))
      → Checks H P (json_parse_uint_or document name out default >>= k)
  unfolding json_parse_uint_or
  Checks-json_parse_uint_or document name out default k h =
      Checks-read_or j.is_uint j.get_uint document name out default k h

  pub Checks-json_parse_boolean_or :
      (document : j.Value) (name : String) (out default : Bool) (k : Bool → Handler j s ⊥)
      → ((a : Bool) → Checks H P (k a))
      → Checks H P (json_parse_boolean_or document name out default >>= k)
  unfolding json_parse_boolean_or
  Checks-json_parse_boolean_or document name out default k h =
      Checks-read_or j.is_bool j.get_bool document name out default k h

pub ruleset check_rules = (
  Checks-require_valid, Checks-json_parse_string, Checks-json_parse_int64,
  Checks-json_parse_boolean, Checks-json_parse_number, Checks-json_parse_string_or,
  Checks-json_parse_int64_or, Checks-json_parse_uint64_or, Checks-json_parse_uint_or,
  Checks-json_parse_boolean_or,
)
