-- ===== src/Http/Handler/Runs.antt =====
-- How a handler runs when its checks pass, step by step.
use poolfrontend.Prelude.{
  Bool, true, false, ◌≡◌, refl, ap, ◌∙◌, if◌then◌else◌, Option, some, [], ◌∷◌, String, ◌&&◌,
}
use poolfrontend.Json.{Json}
use poolfrontend.Http.Services.{Services}
use poolfrontend.Http.Handler.{
  Handler, Trace, Frame, Outcome, next, returned, start, increment_reference, ServiceCall, ◌>>=◌,
  ◌>>◌, emit, exit, pure, start_call, require, require_some, require_valid, events, ended,
}
use poolfrontend.Http.Fields.{read, read_or}

-- A field that the code requires.
abbrev pub Given : (j : Json) → (j.Value → Bool) → j.Value → String → Type 0
Given j is document name = (j.has_member document name && is (j.member document name)) ≡ true

-- The value of a field that has a default one.
pub data Defaulted (j : Json) {A : Type 0} (is : j.Value → Bool) (get : j.Value → A)
    (document : j.Value) (name : String) (default : A) : A → Type 0 where
  absent : j.has_member document name ≡ false → Defaulted j is get document name default default
  present :
      j.has_member document name ≡ true
      → is (j.member document name) ≡ true
      → Defaulted j is get document name default (get (j.member document name))

module _ {j : Json} {s : Services j} where
  abbrev fresh : Frame j s
  fresh = record { valid = true; trace = [] }

  -- From its first line the handler does exactly `t`.
  pub record Runs (m : Handler j s ⊥) (t : Trace j s) : Type 0 where
    pub run : m fresh ≡ returned t

  pub events-Runs : {m : Handler j s ⊥} {t : Trace j s} → Runs m t → events m ≡ t
  unfolding events
  events-Runs r = ap ended r.run

  pub Runs-start_call :
      (c : ServiceCall j s) → Runs (start_call c) (increment_reference ∷ start c ∷ [])
  unfolding start_call ◌>>=◌ emit exit
  Runs-start_call c = record { run = refl }

  module _ {t : Trace j s} where
    pub Runs-read :
        {A : Type 0} (is : j.Value → Bool) (get : j.Value → A) (document : j.Value) (name : String)
        (out : A) (k : A → Handler j s ⊥)
        → Given j is document name
        → Runs (k (get (j.member document name))) t
        → Runs (read is get document name out >>= k) t
    unfolding read ◌>>=◌
    Runs-read is get document name out k h r = record {
      run =
          ap
            (λ b.
              ((λ (x : Frame j s).
                    if b
                    then next (get (j.member document name)) x
                    else next out (record x { valid = false }))
                  >>= k)
                fresh)
            h
          ∙ r.run;
    }

    pub Runs-read_or :
        {A : Type 0} (is : j.Value → Bool) (get : j.Value → A) (document : j.Value) (name : String)
        (out default value : A) (k : A → Handler j s ⊥)
        → Defaulted j is get document name default value
        → Runs (k value) t
        → Runs (read_or is get document name out default >>= k) t
    unfolding read_or ◌>>=◌
    Runs-read_or {A = A} is get document name out default value k d r = record {
      run = read_or_run d ∙ r.run;
    }
      where
        branches : Bool → Bool → Outcome j s ⊥
        branches b c =
            ((λ (x : Frame j s).
                  if b
                  then (if c
                      then next (get (j.member document name)) x
                      else next out (record x { valid = false }))
                  else next default x)
                >>= k)
              fresh

        read_or_run :
            {v : A}
            → Defaulted j is get document name default v
            → branches (j.has_member document name) (is (j.member document name)) ≡ k v fresh
        read_or_run (absent h) = ap (λ b. branches b (is (j.member document name))) h
        read_or_run (present h i) =
            ap (λ b. branches b (is (j.member document name))) h ∙ ap (branches true) i

    pub Runs-require_valid : (k : Handler j s ⊥) → Runs k t → Runs (require_valid >> k) t
    unfolding require_valid require ◌>>=◌ pure
    Runs-require_valid k r = record { run = r.run }

    pub Runs-require :
        (b : Bool) (status : String) (k : Handler j s ⊥)
        → b ≡ true
        → Runs k t
        → Runs (require b status >> k) t
    unfolding require ◌>>=◌ pure
    Runs-require b status k h r = record { run = ap (λ c. (require c status >> k) fresh) h ∙ r.run }

    pub Runs-require_some :
        {A : Type 0} (o : Option A) (a : A) (status : String) (k : A → Handler j s ⊥)
        → o ≡ some a
        → Runs (k a) t
        → Runs (require_some o status >>= k) t
    unfolding require_some ◌>>=◌ pure
    Runs-require_some o a status k h r = record {
      run = ap (λ x. (require_some x status >>= k) fresh) h ∙ r.run;
    }
