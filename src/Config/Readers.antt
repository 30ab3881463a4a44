-- ===== src/Config/Readers.antt =====
-- The jsonParse functions of config.cpp. A value that is not read stays as it was, `out`.
use poolfrontend.Prelude.{ℕ, Bool, true, false, List, [], ◌∷◌, String, if◌then◌else◌}
use poolfrontend.Json.{Json}
use poolfrontend.Config.Loader.{
  ErrorType, ok, not_exists, type_mismatch, Status, set_error_description, Outcome, next, returned,
  Loader, pure, leave,
}

-- The tests that all readers make, in their order: no error so far, the member is there, it has the
-- type.
abbrev pub choose : {O : Type 0} → ErrorType → Bool → Bool → O → O → O → O → O
choose ok true true good mismatch absent skipped = good
choose ok true false good mismatch absent skipped = mismatch
choose ok false is good mismatch absent skipped = absent
choose _ has is good mismatch absent skipped = skipped

module _ {C : Type 0} (j : Json) where
  open j use {Value, Double, has_member, member}

  unfoldable pub read :
      {A : Type 0}
      → (Value → Bool)
      → (Value → A)
      → String
      → Value
      → String
      → A
      → String
      → Loader C A
  unfolding set_error_description
  read is get required_type value name out place st =
      choose st.error (has_member value name) (is (member value name))
        (next (get (member value name)) st)
        (next out (set_error_description type_mismatch place name required_type st))
        (next out (set_error_description not_exists place name required_type st)) (next out st)

  unfoldable pub read_or :
      {A : Type 0}
      → (Value → Bool)
      → (Value → A)
      → String
      → Value
      → String
      → A
      → A
      → String
      → Loader C A
  unfolding set_error_description
  read_or is get required_type value name out default place st =
      choose st.error (has_member value name) (is (member value name))
        (next (get (member value name)) st)
        (next out (set_error_description type_mismatch place name required_type st))
        (next default st) (next out st)

  unfoldable pub json_parse_string : Value → String → String → String → Loader C String
  unfolding read
  json_parse_string = read j.is_string j.get_string "string"

  unfoldable pub json_parse_string_or : Value → String → String → String → String → Loader C String
  unfolding read_or
  json_parse_string_or = read_or j.is_string j.get_string "string"

  unfoldable pub json_parse_boolean : Value → String → Bool → String → Loader C Bool
  unfolding read
  json_parse_boolean = read j.is_bool j.get_bool "boolean"

  unfoldable pub json_parse_boolean_or : Value → String → Bool → Bool → String → Loader C Bool
  unfolding read_or
  json_parse_boolean_or = read_or j.is_bool j.get_bool "boolean"

  unfoldable pub json_parse_uint : Value → String → ℕ → String → Loader C ℕ
  unfolding read
  json_parse_uint = read j.is_uint j.get_uint "unsigned integer"

  unfoldable pub json_parse_uint_or : Value → String → ℕ → ℕ → String → Loader C ℕ
  unfolding read_or
  json_parse_uint_or = read_or j.is_uint j.get_uint "unsigned integer"

  unfoldable pub json_parse_double : Value → String → Double → String → Loader C Double
  unfolding read
  json_parse_double = read j.is_float j.get_double "floating point number (like 1.0)"

  unfoldable pub json_parse_double_or : Value → String → Double → Double → String → Loader C Double
  unfolding read_or
  json_parse_double_or = read_or j.is_float j.get_double "floating point number (like 1.0)"

  -- The elements up to the first that is no text, where the loop breaks.
  unfoldable pub read_strings : List Value → Status → Status → Outcome C (List String)
  read_strings [] mismatch st = next [] st
  read_strings (v ∷ vs) mismatch st =
      if j.is_string v
      then elim (read_strings vs mismatch st) [
        | next rest st' ↦ next (j.get_string v ∷ rest) st'
        | returned c st' ↦ returned c st'
      ]
      else next [] mismatch

  -- The out vector is empty at the call.
  unfoldable pub json_parse_string_array : Value → String → String → Loader C (List String)
  unfolding read_strings set_error_description
  json_parse_string_array value name place st =
      let mismatch = set_error_description type_mismatch place name "array of string" st in
      choose st.error (has_member value name) (j.is_array (member value name))
        (read_strings (j.get_array (member value name)) mismatch st) (next [] mismatch)
        (next [] (set_error_description not_exists place name "array of string" st)) (next [] st)

  -- The two tests that CCoinConfig::load and CPoolFrontendConfig::load make of a member that they
  -- need, whatever the accumulator holds.
  unfoldable pub check : (Value → Bool) → String → Value → String → String → C → Loader C (Unit {0})
  unfolding leave pure
  check is required_type value name place c =
      if has_member value name
      then (if is (member value name)
          then pure tt
          else leave type_mismatch place name required_type c)
      else leave not_exists place name required_type c
