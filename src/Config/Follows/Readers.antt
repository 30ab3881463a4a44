-- ===== src/Config/Follows/Readers.antt =====
-- The readers follow the decoder's fields.
use poolfrontend.Prelude.{
  Bool, true, false, refl, Option, none, some, List, [], ◌∷◌, String, if◌then◌else◌, ◌&&◌,
}
use poolfrontend.Json.{Json}
use poolfrontend.Config.Loader.{
  ErrorType, ok, not_exists, type_mismatch, Status, set_error_description, Outcome, next, returned,
  Loader, leave, pure,
}
use poolfrontend.Config.Readers.{
  choose, read, read_or, check, json_parse_string_array, read_strings,
}
use poolfrontend.Config.Decode.{
  ◌>>=◌ as and_then, decode_all, field, field_or, holds, strings, string_element,
}
use poolfrontend.Config.Follows.{Follows, FollowsAt, Fails, IsError}

abbrev status : ErrorType → String → Status
status e d = record { error = e; description = d }

module _ {C A : Type 0} where
  read_at :
      (e : ErrorType) (d : String) (has is : Bool) (mismatch absent : Outcome C A) (skipped got : A)
      → Fails mismatch
      → Fails absent
      → FollowsAt e
          (status e d)
          (choose e has is (next got (status e d)) mismatch absent (next skipped (status e d)))
          (if has && is then some got else none)
  read_at ok d true true mismatch absent skipped got m a = refl
  read_at ok d true false mismatch absent skipped got m a = m
  read_at ok d false is mismatch absent skipped got m a = a
  read_at not_exists d has is mismatch absent skipped got m a = tt
  read_at type_mismatch d has is mismatch absent skipped got m a = tt

  read_or_at :
      (e : ErrorType) (d : String) (has is : Bool) (mismatch : Outcome C A)
      (skipped got default : A)
      → Fails mismatch
      → FollowsAt e
          (status e d)
          (choose e has is
            (next got (status e d))
            mismatch
            (next default (status e d))
            (next skipped (status e d)))
          (if has then (if has && is then some got else none) else some default)
  read_or_at ok d true true mismatch skipped got default m = refl
  read_or_at ok d true false mismatch skipped got default m = m
  read_or_at ok d false is mismatch skipped got default m = refl
  read_or_at not_exists d has is mismatch skipped got default m = tt
  read_or_at type_mismatch d has is mismatch skipped got default m = tt

check_at :
    {C : Type 0} (e : ErrorType) (d : String) (has is : Bool)
    (mismatch absent : Loader C (Unit {0}))
    → Fails (mismatch (status e d))
    → Fails (absent (status e d))
    → FollowsAt e
        (status e d)
        ((if has then (if is then pure tt else mismatch) else absent) (status e d))
        (if has && is then some tt else none)
unfolding pure
check_at ok d true true mismatch absent m a = refl
check_at ok d true false mismatch absent m a = m
check_at ok d false is mismatch absent m a = a
check_at not_exists d true true mismatch absent m a = tt
check_at not_exists d true false mismatch absent m a = m
check_at not_exists d false is mismatch absent m a = a
check_at type_mismatch d true true mismatch absent m a = tt
check_at type_mismatch d true false mismatch absent m a = m
check_at type_mismatch d false is mismatch absent m a = a

pub Follows-test :
    {C : Type 0} (b : Bool) (mismatch : Loader C (Unit {0}))
    → ((st : Status) → Fails (mismatch st))
    → Follows (if b then pure tt else mismatch) (if b then some tt else none)
Follows-test b mismatch h = record {
  at = λ st. check_at st.error st.description true b mismatch mismatch (h st) (h st);
}

strings_step :
    {C : Type 0} (st : Status) (is : Bool) (got : String) (mismatch : Status)
    (out : Outcome C (List String)) (o : Option (List String))
    → IsError mismatch.error
    → FollowsAt ok st out o
    → FollowsAt ok st
        (if is
          then elim out [ next rest st' ↦ next (got ∷ rest) st' | returned c st' ↦ returned c st' ]
          else next [] mismatch)
        (and_then (if is then some got else none) (λ b. and_then o (λ bs. some (b ∷ bs))))
unfolding and_then
strings_step st true got mismatch out (some bs) m h = rw h refl
strings_step st true got mismatch (next rest st') none m h = h
strings_step st true got mismatch (returned c st') none m h = h
strings_step st false got mismatch out o m h = m

module _ (j : Json) (C : Type 0) where
  read_strings_at :
      (vs : List j.Value) (mismatch st : Status)
      → IsError mismatch.error
      → FollowsAt {C = C} ok st (read_strings j vs mismatch st) (decode_all (string_element j) vs)
  unfolding read_strings decode_all string_element
  read_strings_at [] mismatch st m = refl
  read_strings_at (v ∷ vs) mismatch st m =
      strings_step st (j.is_string v) (j.get_string v) mismatch (read_strings j vs mismatch st)
        (decode_all (string_element j) vs) m (read_strings_at vs mismatch st m)

strings_at :
    {C A B : Type 0} (e : ErrorType) (d : String) (has is : Bool) (read_all : Status → Outcome C B)
    (mismatch absent : Outcome C B) (skipped : B) (got : A) (decode : A → Option B)
    → Fails mismatch
    → Fails absent
    → FollowsAt ok (status ok d) (read_all (status ok d)) (decode got)
    → FollowsAt e
        (status e d)
        (choose e has is (read_all (status e d)) mismatch absent (next skipped (status e d)))
        (and_then (if has && is then some got else none) decode)
unfolding and_then
strings_at ok d true true read_all mismatch absent skipped got decode m a h = h
strings_at ok d true false read_all mismatch absent skipped got decode m a h = m
strings_at ok d false is read_all mismatch absent skipped got decode m a h = a
strings_at not_exists d has is read_all mismatch absent skipped got decode m a h = tt
strings_at type_mismatch d has is read_all mismatch absent skipped got decode m a h = tt

module _ (j : Json) {C : Type 0} where
  open j use {Value}

  pub Follows-read :
      {A : Type 0} (is : Value → Bool) (get : Value → A) (required_type : String) (value : Value)
      (name : String) (out : A) (place : String)
      → Follows {C = C}
          (read j is get required_type value name out place)
          (field j is get value name)
  unfolding read field set_error_description
  Follows-read is get required_type value name out place = record {
    at = λ st.
        read_at st.error st.description (j.has_member value name) (is (j.member value name)) _ _ out
          (get (j.member value name)) tt tt;
  }

  pub Follows-read_or :
      {A : Type 0} (is : Value → Bool) (get : Value → A) (required_type : String) (value : Value)
      (name : String) (out default : A) (place : String)
      → Follows {C = C}
          (read_or j is get required_type value name out default place)
          (field_or j is get value name default)
  unfolding read_or field_or field set_error_description
  Follows-read_or is get required_type value name out default place = record {
    at = λ st.
        read_or_at st.error st.description (j.has_member value name) (is (j.member value name)) _
          out (get (j.member value name)) default tt;
  }

  pub Follows-check :
      (is : Value → Bool) (required_type : String) (value : Value) (name place : String) (c : C)
      → Follows {C = C} (check j is required_type value name place c) (holds j is value name)
  unfolding check holds leave pure set_error_description
  Follows-check is required_type value name place c = record {
    at = λ st.
        check_at st.error st.description (j.has_member value name) (is (j.member value name)) _ _ tt
          tt;
  }

  pub Follows-json_parse_string_array :
      (value : Value) (name place : String)
      → Follows {C = C} (json_parse_string_array j value name place) (strings j value name)
  unfolding json_parse_string_array strings set_error_description field
  Follows-json_parse_string_array value name place = record {
    at = λ st.
        strings_at st.error st.description (j.has_member value name)
          (j.is_array (j.member value name)) (read_strings j (j.get_array (j.member value name)) _)
          _ _ [] _ (decode_all (string_element j)) tt tt (read_strings_at j C _ _ _ tt);
  }
