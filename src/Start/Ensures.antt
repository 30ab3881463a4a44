-- ===== src/Start/Ensures.antt =====
-- What a start-up that is done ensures: rules for the ways that main.cpp is built.
use mathlib.Core.List.{Memᴰ}
use poolfrontend.Prelude.{
  Bool, true, false, ◌≡◌, refl, Option, none, some, List, [], ◌∷◌, if◌then◌else◌,
}
use poolfrontend.Start.Types.{
  Result, done, failed, Failure, ◌>>=◌, ◌>>◌, require, require_some, each,
}

pub data Ensures {A : Type 0} (P : A → Type 0) : Result A → Type 0 where
  holds : {a : A} → P a → Ensures P (done a)
  fails : {e : Failure} → Ensures P (failed e)

module _ {A B : Type 0} {P : B → Type 0} where
  pub Ensures-bind :
      (Q : A → Type 0) (r : Result A) (f : A → Result B)
      → Ensures Q r
      → ((a : A) → Q a → Ensures P (f a))
      → Ensures P (r >>= f)
  unfolding ◌>>=◌
  Ensures-bind Q (done a) f (holds q) h = h a q
  Ensures-bind Q (failed e) f fails h = fails

  pub Ensures-require_some :
      (o : Option A) (e : Failure) (f : A → Result B)
      → ((a : A) → o ≡ some a → Ensures P (f a))
      → Ensures P (require_some o e >>= f)
  unfolding ◌>>=◌ require_some
  Ensures-require_some (some a) e f h = h a refl
  Ensures-require_some none e f h = fails

module _ {B : Type 0} {P : B → Type 0} where
  pub Ensures-require :
      (b : Bool) (e : Failure) (r : Result B)
      → (b ≡ true → Ensures P r)
      → Ensures P (require b e >> r)
  unfolding ◌>>=◌ require
  Ensures-require true e r h = h refl
  Ensures-require false e r h = fails

pub Ensures-weaken :
    {A : Type 0} {P Q : A → Type 0} (r : Result A)
    → ((a : A) → Q a → P a)
    → Ensures Q r
    → Ensures P r
Ensures-weaken (done a) f (holds q) = holds (f a q)
Ensures-weaken (failed e) f fails = fails

pub Ensures-any : {A : Type 0} (r : Result A) → Ensures (λ a. Unit {0}) r
Ensures-any (done a) = holds tt
Ensures-any (failed e) = fails

pub Ensures-if :
    {A : Type 0} {P : A → Type 0} (b : Bool) (r s : Result A)
    → (b ≡ true → Ensures P r)
    → (b ≡ false → Ensures P s)
    → Ensures P (if b then r else s)
Ensures-if true r s f g = f refl
Ensures-if false r s f g = g refl

-- Element by element.
pub data Pointwise {A B : Type 0} (R : A → B → Type 0) : List A → List B → Type 0 where
  empty : Pointwise R [] []
  next :
      {a : A} {b : B} {as_ : List A} {bs : List B}
      → R a b
      → Pointwise R as_ bs
      → Pointwise R (a ∷ as_) (b ∷ bs)

pub Ensures-each :
    {A B : Type 0} (R : A → B → Type 0) (f : A → Result B) (xs : List A)
    → ((a : A) → Ensures (R a) (f a))
    → Ensures (Pointwise R xs) (each f xs)
unfolding each
Ensures-each R f [] h = holds empty
Ensures-each R f (x ∷ xs) h = Ensures-bind (R x) (f x) _ (h x) (λ b r.
    Ensures-bind (Pointwise R xs) (each f xs) _ (Ensures-each R f xs h)
      (λ bs rs. holds (next r rs)))

-- Of every element.
pub data All {A : Type 0} (P : A → Type 0) : List A → Type 0 where
  none_left : All P []
  and_all : {a : A} {rest : List A} → P a → All P rest → All P (a ∷ rest)

pub All-map :
    {A : Type 0} {P Q : A → Type 0} (xs : List A) → ((a : A) → P a → Q a) → All P xs → All Q xs
All-map [] f none_left = none_left
All-map (x ∷ xs) f (and_all p ps) = and_all (f x p) (All-map xs f ps)

pub All-from : {A : Type 0} {P : A → Type 0} (xs : List A) → ((a : A) → Memᴰ a xs → P a) → All P xs
All-from [] f = none_left
All-from (x ∷ xs) f = and_all (f x (Memᴰ.head refl)) (All-from xs (λ a m. f a (Memᴰ.tail m)))
