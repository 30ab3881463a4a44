-- ===== src/Config/Follows.antt =====
-- How a loader follows a decoder: started without an error it goes on with the decoded value and
-- changes nothing, or has an error at its end; started with an error it keeps one.
pub mod Readers
pub mod Parts
pub mod Load
pub mod Keeps
pub mod Reports
pub mod Reported
use poolfrontend.Prelude.{
  ℕ, Bool, true, false, ◌≡◌, refl, ◌≢◌, Option, none, some, List, [], ◌∷◌, String, arith,
  if◌then◌else◌, ◌&&◌,
}
use poolfrontend.Config.Loader.{
  ErrorType, ok, not_exists, type_mismatch, Status, set_error_description, Outcome, next, returned,
  Loader, ◌>>=◌, ◌>>◌, pure, leave, call, load_all,
}
use poolfrontend.Config.Decode.{◌>>=◌ as and_then, decode_all}

-- An error is kept.
abbrev pub IsError : ErrorType → Type 0
IsError ok = ⊥
IsError _ = Unit

abbrev pub Fails : {C A : Type 0} → Outcome C A → Type 0
Fails (next a st) = IsError st.error
Fails (returned c st) = IsError st.error

abbrev pub FollowsAt : {C A : Type 0} → ErrorType → Status → Outcome C A → Option A → Type 0
FollowsAt ok st out (some a) = out ≡ next a st
FollowsAt ok st out none = Fails out
FollowsAt _ st out o = Fails out

pub record Follows {C A : Type 0} (m : Loader C A) (o : Option A) : Type 0 where
  pub at : (st : Status) → FollowsAt st.error st (m st) o

FollowsAt-Fails :
    {C A : Type 0} (e : ErrorType) (st : Status) (out : Outcome C A) (o : Option A)
    → IsError e
    → FollowsAt e st out o
    → Fails out
FollowsAt-Fails ok st out o h x = absurd h
FollowsAt-Fails not_exists st out o h x = x
FollowsAt-Fails type_mismatch st out o h x = x

Fails-bind :
    {C A B : Type 0} (out : Outcome C A) (f : A → Loader C B) (g : A → Option B)
    → ((a : A) → Follows (f a) (g a))
    → Fails out
    → Fails (elim out [ next a st' ↦ f a st' | returned c st' ↦ returned c st' ])
Fails-bind (next a st) f g k h = FollowsAt-Fails st.error st (f a st) (g a) h ((k a).at st)
Fails-bind (returned c st) f g k h = h

bind_at :
    {C A B : Type 0} (e : ErrorType) (d : String) (out : Outcome C A) (o : Option A)
    (f : A → Loader C B) (g : A → Option B)
    → ((a : A) → Follows (f a) (g a))
    → FollowsAt e (record { error = e; description = d }) out o
    → FollowsAt e
        (record { error = e; description = d })
        (elim out [ next a st' ↦ f a st' | returned c st' ↦ returned c st' ])
        (and_then o g)
unfolding and_then
bind_at ok d out (some a) f g k h = rw h ((k a).at (record { error = ok; description = d }))
bind_at ok d out none f g k h = Fails-bind out f g k h
bind_at not_exists d out o f g k h = Fails-bind out f g k h
bind_at type_mismatch d out o f g k h = Fails-bind out f g k h

pub Follows-bind :
    {C A B : Type 0} (m : Loader C A) (f : A → Loader C B) (o : Option A) (g : A → Option B)
    → Follows m o
    → ((a : A) → Follows (f a) (g a))
    → Follows (m >>= f) (and_then o g)
unfolding ◌>>=◌
Follows-bind m f o g h k = record {
  at = λ st. bind_at st.error st.description (m st) o f g k (h.at st);
}

pub Follows-pure : {C A : Type 0} (a : A) → Follows {C = C} (pure a) (some a)
unfolding pure
Follows-pure {C = C} {A = A} a = record { at = λ st. pure_at st.error st.description }
  where
    pure_at :
        (e : ErrorType) (d : String)
        → FollowsAt {C = C} e
            (record { error = e; description = d })
            (next a (record { error = e; description = d }))
            (some a)
    pure_at ok d = refl
    pure_at not_exists d = tt
    pure_at type_mismatch d = tt

call_at :
    (C : Type 0) {B : Type 0} (e : ErrorType) (st : Status) (out : Outcome B B) (o : Option B)
    → FollowsAt e st out o
    → FollowsAt {C = C} e st (elim out [ next b st' ↦ next b st' | returned b st' ↦ next b st' ]) o
call_at C ok st out (some b) h = rw h refl
call_at C ok st (next b st') none h = h
call_at C ok st (returned b st') none h = h
call_at C not_exists st (next b st') o h = h
call_at C not_exists st (returned b st') o h = h
call_at C type_mismatch st (next b st') o h = h
call_at C type_mismatch st (returned b st') o h = h

pub Follows-call :
    {C B : Type 0} (m : Loader B B) (o : Option B) → Follows m o → Follows {C = C} (call m) o
unfolding call
Follows-call {C = C} m o h = record { at = λ st. call_at C st.error st (m st) o (h.at st) }

pub Follows-load_all :
    {C V B : Type 0} (load : V → Loader B B) (decode : V → Option B) (vs : List V)
    → ((v : V) → Follows (load v) (decode v))
    → Follows {C = C} (load_all load vs) (decode_all decode vs)
unfolding load_all decode_all
Follows-load_all load decode [] h = Follows-pure []
Follows-load_all load decode (v ∷ vs) h =
    Follows-bind _ _ (decode v) (λ b. and_then (decode_all decode vs) (λ bs. some (b ∷ bs)))
      (Follows-call (load v) (decode v) (h v))
      (λ b.
        Follows-bind _ _ (decode_all decode vs) (λ bs. some (b ∷ bs))
          (Follows-load_all load decode vs h) (λ bs. Follows-pure (b ∷ bs)))
