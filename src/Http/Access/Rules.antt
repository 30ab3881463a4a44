-- ===== src/Http/Access/Rules.antt =====
-- Rules for what a handler knows once `validAcc` has been tested: the values that it has read are
-- the fields of the document. `H` is what has been learnt so far, if the accumulator still holds.
use poolfrontend.Prelude.{Bool, true, false, ◌&&◌, ◌≡◌, refl, String, if◌then◌else◌, [], ◌∷◌}
use poolfrontend.Json.{Json}
use poolfrontend.Http.Services.{Services}
use poolfrontend.Http.Handler.{
  Handler, Trace, Frame, write, status_reply, ◌>>=◌, ◌>>◌, require_valid, require, next,
}
use poolfrontend.Http.Handler.Obeys.{Obeys, ObeysAt}
use poolfrontend.Http.Fields.{read, read_or}

module _ {j : Json} {s : Services j} where
  pub record Checks (H : Type 0) (P : Trace j s → Type 0) (m : Handler j s ⊥) : Type 0 where
    pub at : (fr : Frame j s) → (fr.valid ≡ true → H) → ObeysAt P fr.trace (m fr)

  -- The outcome of a reader, by the test that it makes.
  read_at :
      {A : Type 0} (P : Trace j s → Type 0) (b : Bool) (k : A → Handler j s ⊥) (good out : A)
      (fr : Frame j s)
      → (b ≡ true → ObeysAt P fr.trace (k good fr))
      → (b ≡ false → ObeysAt P fr.trace (k out (record fr { valid = false })))
      → ObeysAt P fr.trace (
          ((λ (x : Frame j s). if b then next good x else next out (record x { valid = false }))
              >>= k)
            fr)
  unfolding ◌>>=◌
  read_at P true k good out fr x y = x refl
  read_at P false k good out fr x y = y refl

  read_or_at :
      {A : Type 0} (P : Trace j s → Type 0) (b c : Bool) (k : A → Handler j s ⊥)
      (good out default : A) (fr : Frame j s)
      → ObeysAt P fr.trace (k good fr)
      → ObeysAt P fr.trace (k out (record fr { valid = false }))
      → ObeysAt P fr.trace (k default fr)
      → ObeysAt P fr.trace (
          ((λ (x : Frame j s).
                if b
                then (if c then next good x else next out (record x { valid = false }))
                else next default x)
              >>= k)
            fr)
  unfolding ◌>>=◌
  read_or_at P true true k good out default fr x y z = x
  read_or_at P true false k good out default fr x y z = y
  read_or_at P false c k good out default fr x y z = z

  valid_at :
      (P : Trace j s → Type 0) (b : Bool) (k : Handler j s ⊥) (fr : Frame j s)
      → P (write (status_reply "json_format_error") ∷ [])
      → (b ≡ true → ObeysAt P fr.trace (k fr))
      → ObeysAt P fr.trace ((require b "json_format_error" >> k) fr)
  unfolding require ◌>>=◌
  valid_at P true k fr p x = x refl
  valid_at P false k fr p x = (write (status_reply "json_format_error") ∷ [], refl, p)

  module _ {H : Type 0} {P : Trace j s → Type 0} where
    pub Checks-read :
        {A : Type 0} (is : j.Value → Bool) (get : j.Value → A) (document : j.Value) (name : String)
        (out : A) (k : A → Handler j s ⊥)
        → ((a : A) → Checks (H × (a ≡ get (j.member document name))) P (k a))
        → Checks H P (read is get document name out >>= k)
    unfolding read
    Checks-read is get document name out k h = record {
      at = λ fr v.
          read_at P (j.has_member document name && is (j.member document name)) k _ out fr
            (λ _. (h _).at fr (λ e. (v e, refl)))
            (λ _. (h out).at (record fr { valid = false }) (λ e. cc));
    }

    pub Checks-read_or :
        {A : Type 0} (is : j.Value → Bool) (get : j.Value → A) (document : j.Value) (name : String)
        (out default : A) (k : A → Handler j s ⊥)
        → ((a : A) → Checks H P (k a))
        → Checks H P (read_or is get document name out default >>= k)
    unfolding read_or
    Checks-read_or is get document name out default k h = record {
      at = λ fr v.
          read_or_at P (j.has_member document name) (is (j.member document name)) k _ out default fr
            ((h _).at fr v) ((h out).at (record fr { valid = false }) (λ e. cc))
            ((h default).at fr v);
    }

    -- After the test of the accumulator, what was learnt is known.
    pub Checks-require_valid :
        (k : Handler j s ⊥)
        → P (write (status_reply "json_format_error") ∷ [])
        → (H → Obeys P k)
        → Checks H P (require_valid >> k)
    unfolding require_valid ◌>>=◌
    Checks-require_valid k p h = record {
      at = λ fr v. valid_at P fr.valid k fr p (λ e. (h (v e)).at fr);
    }

  pub Checks-Obeys :
      {P : Trace j s → Type 0} (m : Handler j s ⊥) → Checks (Unit {0}) P m → Obeys P m
  Checks-Obeys m c = record { at = λ fr. c.at fr (λ e. tt) }
