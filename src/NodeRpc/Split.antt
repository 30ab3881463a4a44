-- ===== src/NodeRpc/Split.antt =====
-- noderpc.cpp: the loop that cuts an argument at its commas, against the text that the pieces join
-- to.
use Prim.Native.Char.{Char, code}
use Prim.Native.String as S
use Prim.Native.String.{◌++◌ as append}
use text.Mathlib.TextEquality.{Char-path}
use text.Mathlib.TextLemmas.{nil-append, cons-append}
use poolfrontend.Prelude.{
  ℕ, zero, suc, ◌<◌, ◌≡◌, refl, subst, sym, ap, ◌∙◌, Bool, true, false, Option, none, some,
  some-injective, List, [], ◌∷◌, String, inl, inr, ◌==◌, ==_iff, arith, if◌then◌else◌, Option-cases,
}
use poolfrontend.Start.Text.{split_at, comma}
use poolfrontend.NodeRpc.Options.{size, split_loop, split_commas}

-- The pieces with a comma between each two.
abbrev pub join : List String → String
join [] = ""
join (x ∷ []) = x
join (x ∷ y ∷ ys) = append x (S.◌∷◌ "," (join (y ∷ ys)))

-- No piece has a comma.
pub data AllFree : List String → Type 0 where
  none_left : AllFree []
  piece : {x : String} {xs : List String} → split_at comma x ≡ none → AllFree xs → AllFree (x ∷ xs)

-- The rounds of the loop, without fuel: it ends with the piece that has no comma behind it.
pub data Splits : String → List String → Type 0 where
  last : {p : String} → split_at comma p ≡ none → Splits p (p ∷ [])
  round :
      {p before after : String} {xs : List String}
      → split_at comma p ≡ some (before, after)
      → Splits after xs
      → Splits p (before ∷ xs)

-- What strchr answers on a text with one more character.
data Found (c : Char) (s before after : String) : Type 0 where
  here : code c ≡ comma → before ≡ "" → after ≡ s → Found c s before after
  further :
      (before' : String)
      → (code c == comma) ≡ false
      → split_at comma s ≡ some (before', after)
      → before ≡ S.◌∷◌ c before'
      → Found c s before after

found_by :
    (c : Char) (s before after : String) (b : Bool) (o : Option (String × String))
    → (code c == comma) ≡ b
    → split_at comma s ≡ o
    → if◌then◌else◌ {A = Option (String × String)} b
        (some ("", s))
        (elim o [ some (x, y) ↦ some (S.◌∷◌ c x, y) | none ↦ none ])
      ≡ some (before, after)
    → Found c s before after
found_by c s before after true o eb eo e =
    let p = some-injective _ _ e in
    here ((==_iff _ _).0 eb) (sym (ap (λ x. x.0) p)) (sym (ap (λ x. x.1) p))
found_by c s before after false (some (x, y)) eb eo e =
    let p = some-injective _ _ e in
    further x eb (eo ∙ ap (λ z. some (x, z)) (ap (λ z. z.1) p)) (sym (ap (λ z. z.0) p))
found_by c s before after false none eb eo e = ground arith

found :
    (c : Char) (s before after : String)
    → split_at comma (S.◌∷◌ c s) ≡ some (before, after)
    → Found c s before after
unfolding split_at
found c s before after e =
    found_by c s before after (code c == comma) (split_at comma s) refl refl e

-- What stands behind a comma is shorter.
size_after :
    (p before after : String) → split_at comma p ≡ some (before, after) → size after < size p
unfolding split_at size
size_after S.[] before after e = ground arith
size_after (S.◌∷◌ c s) before after e = elim (found c s before after e) [
  | here ec eb ea ↦ rw ea (omega arith)
  | further before' differs es eb ↦
      let smaller = size_after s before' after es in omega (arith, smaller)
]

-- The two sides of a comma give the text back.
join_parts :
    (p before after : String)
    → split_at comma p ≡ some (before, after)
    → append before (S.◌∷◌ "," after) ≡ p
unfolding split_at
join_parts S.[] before after e = ground arith
join_parts (S.◌∷◌ c s) before after e = elim (found c s before after e) [
  | here ec eb ea ↦
      rw (eb, ea) (nil-append (S.◌∷◌ "," s) ∙ ap (λ x. S.◌∷◌ x s) (Char-path "," c (sym ec)))
  | further before' differs es eb ↦
      rw eb (cons-append c before' (S.◌∷◌ "," after) ∙ ap (S.◌∷◌ c) (join_parts s before' after es))
]

free_before :
    (p before after : String)
    → split_at comma p ≡ some (before, after)
    → split_at comma before ≡ none
unfolding split_at
free_before S.[] before after e = ground arith
free_before (S.◌∷◌ c s) before after e = elim (found c s before after e) [
  | here ec eb ea ↦ rw eb refl
  | further before' differs es eb ↦ rw (eb, differs, free_before s before' after es) refl
]

-- Enough fuel is more than the size of the text.
pub split_loop-Splits : (fuel : ℕ) (p : String) → size p < fuel → Splits p (split_loop fuel p)
unfolding split_loop
split_loop-Splits zero p h = absurd (omega arith)
split_loop-Splits (suc fuel) p h = elim (Option-cases (split_at comma p)) [
  | inl is_not ↦ rw (is_not, split_loop) (last is_not)
  | inr ((before, after), is) ↦
      rw (is, split_loop)
        (round is (split_loop-Splits fuel after (omega (arith, size_after p before after is))))
]

-- The cuts give the text back, and no piece has a comma.
pub record IsCut (p : String) (xs : List String) : Type 0 where
  pub joins : join xs ≡ p
  pub free : AllFree xs

join_cons :
    (x y : String) (xs : List String) → Splits y xs → join (x ∷ xs) ≡ append x (S.◌∷◌ "," (join xs))
join_cons x y xs (last e) = refl
join_cons x y xs (round e s) = refl

Splits-IsCut : (p : String) {xs : List String} → Splits p xs → IsCut p xs
Splits-IsCut p (last e) = record { joins = refl; free = piece e none_left }
Splits-IsCut p (round {before = before} {after = after} {xs = xs} e s) =
    let rest = Splits-IsCut after s in
    record {
      joins =
          join_cons before after xs s
          ∙ ap (λ z. append before (S.◌∷◌ "," z)) rest.joins
          ∙ join_parts p before after e;
      free = piece (free_before p before after e) rest.free;
    }

free_by :
    (c : Char) (s : String) (b : Bool) (o : Option (String × String))
    → if◌then◌else◌ {A = Option (String × String)} b
        (some ("", s))
        (elim o [ some (x, y) ↦ some (S.◌∷◌ c x, y) | none ↦ none ])
      ≡ none
    → (b ≡ false) × (o ≡ none)
free_by c s true o e = ground arith
free_by c s false (some (x, y)) e = ground arith
free_by c s false none e = (refl, refl)

split_at-append :
    (x r : String) → split_at comma x ≡ none → split_at comma (append x (S.◌∷◌ "," r)) ≡ some (x, r)
unfolding split_at
split_at-append S.[] r e = rw (nil-append (S.◌∷◌ "," r)) refl
split_at-append (S.◌∷◌ c s) r e =
    let (differs, free) = free_by c s (code c == comma) (split_at comma s) e in
    rw (cons-append c s (S.◌∷◌ "," r), differs, split_at-append s r free) refl

joined-Splits : (x : String) (xs : List String) → AllFree (x ∷ xs) → Splits (join (x ∷ xs)) (x ∷ xs)
joined-Splits x [] (piece e none_left) = last e
joined-Splits x (y ∷ ys) (piece e free) =
    round (split_at-append x (join (y ∷ ys)) e) (joined-Splits y ys free)

Splits-unique : {p : String} {xs ys : List String} → Splits p xs → Splits p ys → xs ≡ ys
Splits-unique (last e) (last d) = refl
Splits-unique (last e) (round d s) = ground arith
Splits-unique (round e s) (last d) = ground arith
Splits-unique (round {xs = xs} e s) (round {before = before} d r) =
    let same = some-injective _ _ (sym e ∙ d) in
    ap (λ z. z.0 ∷ xs) same
    ∙ ap (◌∷◌ before) (Splits-unique (subst (λ z. Splits z xs) (ap (λ z. z.1) same) s) r)

-- The pieces of a text join to the text, and none has a comma.
pub split_commas-IsCut : (p : String) → IsCut p (split_commas p)
unfolding split_commas
split_commas-IsCut p = Splits-IsCut p (split_loop-Splits (suc (size p)) p (omega arith))

-- Texts without commas, at least one, come back from the text that they join to.
pub split_commas-join :
    (x : String) (xs : List String) → AllFree (x ∷ xs) → split_commas (join (x ∷ xs)) ≡ x ∷ xs
unfolding split_commas
split_commas-join x xs free =
    Splits-unique (split_loop-Splits (suc (size (join (x ∷ xs)))) (join (x ∷ xs)) (omega arith))
      (joined-Splits x xs free)
