-- ===== src/Config/Follows/Reports.antt =====
-- The messages that an error is reported with, and the ways to report one.
use Prim.Native.String.{◌++◌}
use poolfrontend.Prelude.{Bool, true, false, List, [], ◌∷◌, String, if◌then◌else◌}
use poolfrontend.Json.{Json}
use poolfrontend.Config.Loader.{
  ErrorType, ok, not_exists, type_mismatch, Status, Outcome, next, returned, Loader, ◌>>=◌, pure,
  leave, set_error_description, call, load_all,
}
use poolfrontend.Config.Readers.{
  choose, read, read_or, check, json_parse_string_array, read_strings,
}

-- The two messages.
pub data IsMessage : String → Type 0 where
  missing :
      (place name : String)
      → IsMessage ("Required parameter '" ++ name ++ "' does not exists at " ++ place)
  mismatch :
      (place name required_type : String)
      → IsMessage (
          "Type mismatch: parameter '" ++ place ++ " -> " ++ name ++ "' must be a "
          ++ required_type)

-- No error, or one with a message.
pub data Described : ErrorType → String → Type 0 where
  no_error : {d : String} → Described ok d
  described : {e : ErrorType} {d : String} → IsMessage d → Described e d

abbrev pub DescribedAt : {C A : Type 0} → Outcome C A → Type 0
DescribedAt (next a st) = Described st.error st.description
DescribedAt (returned c st) = IsMessage st.description

pub record Reports {C A : Type 0} (m : Loader C A) : Type 0 where
  pub at : (st : Status) → Described st.error st.description → DescribedAt (m st)

bind_described :
    {C A B : Type 0} (out : Outcome C A) (f : A → Loader C B)
    → ((a : A) → Reports (f a))
    → DescribedAt out
    → DescribedAt (elim out [ next a st' ↦ f a st' | returned c st' ↦ returned c st' ])
bind_described (next a st) f k d = (k a).at st d
bind_described (returned c st) f k d = d

pub Reports-bind :
    {C A B : Type 0} (m : Loader C A) (f : A → Loader C B)
    → Reports m
    → ((a : A) → Reports (f a))
    → Reports (m >>= f)
unfolding ◌>>=◌
Reports-bind m f h k = record { at = λ st d. bind_described (m st) f k (h.at st d) }

pub Reports-pure : {C A : Type 0} (a : A) → Reports {C = C} (pure a)
unfolding pure
Reports-pure a = record { at = λ st d. d }

call_described :
    (C : Type 0) {B : Type 0} (out : Outcome B B)
    → DescribedAt out
    → DescribedAt {C = C} (elim out [ next b st' ↦ next b st' | returned b st' ↦ next b st' ])
call_described C (next b st) d = d
call_described C (returned b st) d = described d

pub Reports-load_all :
    {C V B : Type 0} (load_one : V → Loader B B) (vs : List V)
    → ((v : V) → Reports (load_one v))
    → Reports {C = C} (load_all load_one vs)
unfolding load_all call
Reports-load_all load_one [] h = Reports-pure []
Reports-load_all {C = C} load_one (v ∷ vs) h =
    Reports-bind _ _ (record { at = λ st d. call_described C (load_one v st) ((h v).at st d) })
      (λ b. Reports-bind _ _ (Reports-load_all load_one vs h) (λ bs. Reports-pure (b ∷ bs)))

chosen :
    {C A : Type 0} (e : ErrorType) (has is : Bool) (good wrong absent skipped : Outcome C A)
    → DescribedAt good
    → DescribedAt wrong
    → DescribedAt absent
    → DescribedAt skipped
    → DescribedAt (choose e has is good wrong absent skipped)
chosen ok true true g w a s p q r t = p
chosen ok true false g w a s p q r t = q
chosen ok false is g w a s p q r t = r
chosen not_exists has is g w a s p q r t = t
chosen type_mismatch has is g w a s p q r t = t

pub Reports-if :
    {C A : Type 0} (b : Bool) (m n : Loader C A)
    → Reports m
    → Reports n
    → Reports (if b then m else n)
Reports-if true m n h k = h
Reports-if false m n h k = k

pub Reports-leave :
    {C A : Type 0} (place name required_type : String) (c : C)
    → Reports {A = A} (leave not_exists place name required_type c)
      × Reports {A = A} (leave type_mismatch place name required_type c)
unfolding leave set_error_description
Reports-leave place name required_type c = (
  record { at = λ st d. missing place name },
  record { at = λ st d. mismatch place name required_type },
)

strings_step :
    {C : Type 0} (is : Bool) (got : String) (wrong : Status) (out : Outcome C (List String))
    → Described wrong.error wrong.description
    → DescribedAt out
    → DescribedAt (
        if is
        then elim out [ next rest st' ↦ next (got ∷ rest) st' | returned c st' ↦ returned c st' ]
        else next [] wrong)
strings_step true got wrong (next rest st) w d = d
strings_step true got wrong (returned c st) w d = d
strings_step false got wrong out w d = w

read_strings-Described :
    (j : Json) (C : Type 0) (vs : List j.Value) (wrong st : Status)
    → Described wrong.error wrong.description
    → Described st.error st.description
    → DescribedAt {C = C} (read_strings j vs wrong st)
unfolding read_strings
read_strings-Described j C [] wrong st w d = d
read_strings-Described j C (v ∷ vs) wrong st w d =
    strings_step (j.is_string v) (j.get_string v) wrong (read_strings j vs wrong st) w
      (read_strings-Described j C vs wrong st w d)

module _ (j : Json) {C : Type 0} where
  open j use {Value}

  pub Reports-read :
      {A : Type 0} (is : Value → Bool) (get : Value → A) (required_type : String) (value : Value)
      (name : String) (out : A) (place : String)
      → Reports {C = C} (read j is get required_type value name out place)
  unfolding read set_error_description
  Reports-read is get required_type value name out place = record {
    at = λ st d.
        chosen st.error _ _ _ _ _ _ d (described (mismatch place name required_type))
          (described (missing place name)) d;
  }

  pub Reports-read_or :
      {A : Type 0} (is : Value → Bool) (get : Value → A) (required_type : String) (value : Value)
      (name : String) (out default : A) (place : String)
      → Reports {C = C} (read_or j is get required_type value name out default place)
  unfolding read_or set_error_description
  Reports-read_or is get required_type value name out default place = record {
    at = λ st d. chosen st.error _ _ _ _ _ _ d (described (mismatch place name required_type)) d d;
  }

  pub Reports-check :
      (is : Value → Bool) (required_type : String) (value : Value) (name place : String) (c : C)
      → Reports {C = C} (check j is required_type value name place c)
  unfolding check
  Reports-check is required_type value name place c =
      Reports-if _ _ _
        (Reports-if _ _ _ (Reports-pure tt) ((Reports-leave place name required_type c).1))
        ((Reports-leave place name required_type c).0)

  pub Reports-json_parse_string_array :
      (value : Value) (name place : String)
      → Reports {C = C} (json_parse_string_array j value name place)
  unfolding json_parse_string_array set_error_description
  Reports-json_parse_string_array value name place = record {
    at = λ st d.
        chosen st.error _ _ _ _ _ _
          (read_strings-Described j C _ _ st (described (mismatch place name "array of string")) d)
          (described (mismatch place name "array of string")) (described (missing place name)) d;
  }

pub ruleset report_rules = (
  Reports-bind, Reports-pure, Reports-load_all, Reports-read, Reports-read_or, Reports-check,
  Reports-json_parse_string_array,
)
