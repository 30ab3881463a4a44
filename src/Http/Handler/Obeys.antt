-- ===== src/Http/Handler/Obeys.antt =====
-- Rules for the events of a handler: one for each way that the handlers of http.cpp are built.
use mathlib.Core.List.{append_assoc}
use poolfrontend.Prelude.{
  Bool, true, false, ◌≡◌, refl, Option, none, some, [], ◌∷◌, ◌++◌, String, arith, if◌then◌else◌,
}
use poolfrontend.Json.{Json}
use poolfrontend.Http.Services.{Services}
use poolfrontend.Http.Handler.{
  Handler, Trace, Frame, Outcome, next, returned, Event, write, start, increment_reference, Reply,
  ServiceCall, status_reply, ◌>>=◌, ◌>>◌, pure, emit, invalidate, reply, reply_with_status,
  start_call, require, require_some, require_valid, events, ended,
}
use poolfrontend.Http.Fields.{read, read_or}

module _ {j : Json} {s : Services j} where
  -- A computation that goes on has done nothing yet; one that returns has done what `P` allows.
  abbrev pub ObeysAt : {A : Type 0} → (Trace j s → Type 0) → Trace j s → Outcome j s A → Type 0
  ObeysAt P t (next a fr) = fr.trace ≡ t
  ObeysAt P t (returned u) = (d : Trace j s) × (u ≡ t ++ d) × P d

  pub record Obeys {A : Type 0} (P : Trace j s → Type 0) (m : Handler j s A) : Type 0 where
    pub at : (fr : Frame j s) → ObeysAt P fr.trace (m fr)

  ObeysAt-trace :
      {A : Type 0} (P : Trace j s → Type 0) {t u : Trace j s} (o : Outcome j s A)
      → u ≡ t
      → ObeysAt P u o
      → ObeysAt P t o
  ObeysAt-trace P o e x = rw e at x

  module _ {P : Trace j s → Type 0} where
    bind_at :
        {A B : Type 0} (t : Trace j s) (o : Outcome j s A) (f : A → Handler j s B)
        → ((a : A) → Obeys P (f a))
        → ObeysAt P t o
        → ObeysAt P t (elim o [ next a fr' ↦ f a fr' | returned u ↦ returned u ])
    bind_at t (next a fr) f k h = ObeysAt-trace P (f a fr) h ((k a).at fr)
    bind_at t (returned u) f k h = h

    pub Obeys-bind :
        {A B : Type 0} (m : Handler j s A) (f : A → Handler j s B)
        → Obeys P m
        → ((a : A) → Obeys P (f a))
        → Obeys P (m >>= f)
    unfolding ◌>>=◌
    Obeys-bind m f h k = record { at = λ fr. bind_at fr.trace (m fr) f k (h.at fr) }

    pub Obeys-pure : {A : Type 0} (a : A) → Obeys P (pure a)
    unfolding pure
    Obeys-pure a = record { at = λ fr. refl }

    pub Obeys-invalidate : Obeys P invalidate
    unfolding invalidate
    Obeys-invalidate = record { at = λ fr. refl }

    pub Obeys-if :
        {A : Type 0} (b : Bool) (m n : Handler j s A)
        → (b ≡ true → Obeys P m)
        → (b ≡ false → Obeys P n)
        → Obeys P (if b then m else n)
    Obeys-if true m n km kn = km refl
    Obeys-if false m n km kn = kn refl

    pub Obeys-reply : (r : Reply j.Double) → P (write r ∷ []) → Obeys P (reply r)
    unfolding reply
    Obeys-reply r p = record { at = λ fr. (write r ∷ [], refl, p) }

    pub Obeys-reply_with_status :
        (status : String)
        → P (write (status_reply status) ∷ [])
        → Obeys P (reply_with_status status)
    unfolding reply_with_status
    Obeys-reply_with_status status p = record {
      at = λ fr. (write (status_reply status) ∷ [], refl, p);
    }

    pub Obeys-start_call :
        (c : ServiceCall j s) → P (increment_reference ∷ start c ∷ []) → Obeys P (start_call c)
    unfolding start_call
    Obeys-start_call c p = record {
      at = λ fr. (increment_reference ∷ start c ∷ [], append_assoc fr.trace _ _, p);
    }

    pub Obeys-set_and_reply :
        (e : Event j s) (status : String)
        → P (e ∷ write (status_reply status) ∷ [])
        → Obeys P (emit e >> reply_with_status status)
    unfolding reply_with_status
    Obeys-set_and_reply e status p = record {
      at = λ fr. (e ∷ write (status_reply status) ∷ [], append_assoc fr.trace _ _, p);
    }

    pub Obeys-require :
        (b : Bool) (status : String)
        → P (write (status_reply status) ∷ [])
        → Obeys P (require b status)
    unfolding require
    Obeys-require true status p = record { at = λ fr. refl }
    Obeys-require false status p = record { at = λ fr. (write (status_reply status) ∷ [], refl, p) }

    -- The rest may use that the test held.
    pub Obeys-require-bind :
        {A : Type 0} (b : Bool) (status : String) (k : Handler j s A)
        → P (write (status_reply status) ∷ [])
        → (b ≡ true → Obeys P k)
        → Obeys P (require b status >> k)
    Obeys-require-bind true status k p h =
        Obeys-bind (require true status) (λ _. k) (Obeys-require true status p) (λ _. h refl)
    Obeys-require-bind false status k p h = record {
      at = λ fr. unfold ◌>>=◌ require in (write (status_reply status) ∷ [], refl, p);
    }

    pub Obeys-require_some-bind :
        {A B : Type 0} (o : Option A) (status : String) (k : A → Handler j s B)
        → P (write (status_reply status) ∷ [])
        → ((a : A) → o ≡ some a → Obeys P (k a))
        → Obeys P (require_some o status >>= k)
    unfolding ◌>>=◌ require_some
    Obeys-require_some-bind (some a) status k p h = record { at = λ fr. (h a refl).at fr }
    Obeys-require_some-bind none status k p h = record {
      at = λ fr. (write (status_reply status) ∷ [], refl, p);
    }

    pub Obeys-require_valid :
        P (write (status_reply "json_format_error") ∷ []) → Obeys P require_valid
    unfolding require_valid
    Obeys-require_valid p = record {
      at = λ fr. (Obeys-require fr.valid "json_format_error" p).at fr;
    }

    pub Obeys-read :
        {A : Type 0} (is : j.Value → Bool) (get : j.Value → A) (document : j.Value) (name : String)
        (out : A)
        → Obeys P (read is get document name out)
    unfolding read
    Obeys-read is get document name out = record { at = λ fr. ground arith }

    pub Obeys-read_or :
        {A : Type 0} (is : j.Value → Bool) (get : j.Value → A) (document : j.Value) (name : String)
        (out default : A)
        → Obeys P (read_or is get document name out default)
    unfolding read_or
    Obeys-read_or is get document name out default = record { at = λ fr. ground arith }

  ended_at : (P : Trace j s → Type 0) (o : Outcome j s ⊥) → ObeysAt P [] o → P (ended o)
  ended_at P (next never fr) h = absurd never
  ended_at P (returned u) (d, e, p) = rw e p

  -- What a handler does obeys `P`.
  pub events-Obeys : (P : Trace j s → Type 0) (m : Handler j s ⊥) → Obeys P m → P (events m)
  unfolding events
  events-Obeys P m h = ended_at P (m _) (h.at (record { valid = true; trace = [] }))

pub ruleset handler_rules = (
  Obeys-bind, Obeys-pure, Obeys-invalidate, Obeys-if, Obeys-reply, Obeys-reply_with_status,
  Obeys-start_call, Obeys-set_and_reply, Obeys-require, Obeys-require-bind, Obeys-require_some-bind,
  Obeys-require_valid,
)
