-- ===== src/Config/Decode.antt =====
-- What the configuration file has to look like, without the order of the tests, the places and the
-- descriptions of config.cpp: a decoder that answers the record or nothing.
pub mod Schema
use poolfrontend.Prelude.{
  Bool, true, false, ◌&&◌, Option, none, some, List, [], ◌∷◌, String, if◌then◌else◌,
}
use poolfrontend.Json.{Json}

infixl 5 ◌>>=◌ ◌>>◌
unfoldable pub ◌>>=◌ : {A B : Type 0} → Option A → (A → Option B) → Option B
o >>= f = elim o [ some a ↦ f a | none ↦ none ]

abbrev pub ◌>>◌ : {A B : Type 0} → Option A → Option B → Option B
o >> p = o >>= λ _. p

unfoldable pub decode_all : {V B : Type 0} → (V → Option B) → List V → Option (List B)
unfolding ◌>>=◌
decode_all decode [] = some []
decode_all decode (v ∷ vs) = do b ← decode v; bs ← decode_all decode vs; some (b ∷ bs)

module _ (j : Json) where
  open j use {Value}

  -- A member of the type that `is` tests.
  unfoldable pub field : {A : Type 0} → (Value → Bool) → (Value → A) → Value → String → Option A
  field is get value name =
      if j.has_member value name && is (j.member value name)
      then some (get (j.member value name))
      else none

  unfoldable pub field_or :
      {A : Type 0} → (Value → Bool) → (Value → A) → Value → String → A → Option A
  unfolding field
  field_or is get value name default =
      if j.has_member value name then field is get value name else some default

  unfoldable pub string_element : Value → Option String
  string_element value = if j.is_string value then some (j.get_string value) else none

  unfoldable pub strings : Value → String → Option (List String)
  unfolding field decode_all string_element
  strings value name = field j.is_array j.get_array value name >>= decode_all string_element

  -- A member that is there with the type that `is` tests, and read by the rest.
  unfoldable pub holds : (Value → Bool) → Value → String → Option (Unit {0})
  holds is value name =
      if j.has_member value name && is (j.member value name) then some tt else none

  -- The elements of an array.
  unfoldable pub each : {B : Type 0} → (Value → Option B) → Value → String → Option (List B)
  unfolding decode_all
  each decode value name = decode_all decode (j.get_array (j.member value name))
