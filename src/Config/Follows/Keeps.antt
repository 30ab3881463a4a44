-- ===== src/Config/Follows/Keeps.antt =====
-- The readers and the loaders of parts, started with an error that is held.
use poolfrontend.Prelude.{Bool, ◌≡◌, refl, String, []}
use poolfrontend.Json.{Json}
use poolfrontend.Config.Loader.{
  ErrorType, ok, not_exists, type_mismatch, Status, Outcome, next, returned, Loader, ◌>>=◌, pure,
}
use poolfrontend.Config.Readers.{
  choose, read, read_or, json_parse_string, json_parse_string_or, json_parse_boolean_or,
  json_parse_uint, json_parse_uint_or, json_parse_double, json_parse_string_array,
}
use poolfrontend.Config.Parts.{load_instance, load_node, load_fee, load_mining_address}
use poolfrontend.Config.Follows.{IsError}

abbrev status_after : {C A : Type 0} → Outcome C A → Status
status_after (next a st) = st
status_after (returned c st) = st

-- Started with an error, it leaves the accumulator and the description as they are.
pub record Keeps {C A : Type 0} (m : Loader C A) : Type 0 where
  pub at : (st : Status) → IsError st.error → status_after (m st) ≡ st

choose_kept :
    {C A : Type 0} (e : ErrorType) (has is : Bool) (good mismatch absent : Outcome C A) (out : A)
    (st : Status)
    → IsError e
    → status_after (choose e has is good mismatch absent (next out st)) ≡ st
choose_kept ok has is good mismatch absent out st h = absurd h
choose_kept not_exists has is good mismatch absent out st h = refl
choose_kept type_mismatch has is good mismatch absent out st h = refl

bind_kept :
    {C A B : Type 0} (out : Outcome C A) (f : A → Loader C B) (st : Status)
    → IsError st.error
    → ((a : A) → Keeps (f a))
    → status_after out ≡ st
    → status_after (elim out [ next a st' ↦ f a st' | returned c st' ↦ returned c st' ]) ≡ st
bind_kept (next a st') f st h k e = rw e ((k a).at st h)
bind_kept (returned c st') f st h k e = e

Keeps-bind :
    {C A B : Type 0} (m : Loader C A) (f : A → Loader C B)
    → Keeps m
    → ((a : A) → Keeps (f a))
    → Keeps (m >>= f)
unfolding ◌>>=◌
Keeps-bind m f h k = record { at = λ st e. bind_kept (m st) f st e k (h.at st e) }

Keeps-pure : {C A : Type 0} (a : A) → Keeps {C = C} (pure a)
unfolding pure
Keeps-pure a = record { at = λ st e. refl }

module _ (j : Json) {C : Type 0} where
  open j use {Value}

  Keeps-read :
      {A : Type 0} (is : Value → Bool) (get : Value → A) (required_type : String) (value : Value)
      (name : String) (out : A) (place : String)
      → Keeps {C = C} (read j is get required_type value name out place)
  unfolding read
  Keeps-read is get required_type value name out place = record {
    at = λ st e. choose_kept st.error _ _ _ _ _ out st e;
  }

  Keeps-read_or :
      {A : Type 0} (is : Value → Bool) (get : Value → A) (required_type : String) (value : Value)
      (name : String) (out default : A) (place : String)
      → Keeps {C = C} (read_or j is get required_type value name out default place)
  unfolding read_or
  Keeps-read_or is get required_type value name out default place = record {
    at = λ st e. choose_kept st.error _ _ _ _ _ out st e;
  }

  Keeps-json_parse_string_array :
      (value : Value) (name place : String)
      → Keeps {C = C} (json_parse_string_array j value name place)
  unfolding json_parse_string_array
  Keeps-json_parse_string_array value name place = record {
    at = λ st e. choose_kept st.error _ _ _ _ _ [] st e;
  }

ruleset keeps_rules =
    (Keeps-bind, Keeps-pure, Keeps-read, Keeps-read_or, Keeps-json_parse_string_array)

module _ (j : Json) where
  open j use {Value, Double}

  -- An error that the accumulator holds when an instance, a node, a fee or a mining address is
  -- loaded stays the one that is reported.
  pub load-Keeps :
      (value : Value) (path : String)
      → Keeps (load_instance j value)
        × Keeps (load_node j path value)
        × Keeps (load_fee j path value)
        × Keeps (load_mining_address j path value)
  unfolding load_instance load_node load_fee load_mining_address json_parse_string
      json_parse_string_or json_parse_boolean_or json_parse_uint json_parse_uint_or
      json_parse_double
  load-Keeps value path = (
    search keeps_rules depth 20,
    search keeps_rules depth 20,
    search keeps_rules depth 20,
    search keeps_rules depth 20,
  )
