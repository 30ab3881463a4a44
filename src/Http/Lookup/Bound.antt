-- ===== src/Http/Lookup/Bound.antt =====
-- The binary search of std::lower_bound, over a vector whose smaller elements come first.
use poolfrontend.Prelude.{
  ℕ, zero, suc, ◌+◌, ◌-◌, ◌/◌, ◌≤◌, ◌<◌, ◌≡◌, refl, sym, ap, ◌∙◌, Bool, true, false, none, some,
  List, [], ◌∷◌, inl, inr, Bool-cases, Option-cases, get_elem?, length, arith, ◌==◌, ==_iff,
  if◌then◌else◌,
}
use poolfrontend.Http.Lookup.{lower_bound_loop, lower_bound, test_at}

module _ {A : Type 0} where
  pub get_elem?-none :
      (xs : List A) (m i : ℕ) (a : A) → get_elem? xs m ≡ none → m ≤ i → get_elem? xs i ≡ some a → ⊥
  get_elem?-none [] m i a h le e = ground arith
  get_elem?-none (x ∷ xs) zero i a h le e = ground arith
  get_elem?-none (x ∷ xs) (suc m) zero a h le e = omega arith
  get_elem?-none (x ∷ xs) (suc m) (suc i) a h le e = get_elem?-none xs m i a h (omega arith) e

  length-get_elem? : (xs : List A) (i : ℕ) (a : A) → length xs ≤ i → get_elem? xs i ≡ some a → ⊥
  length-get_elem? [] i a le e = ground arith
  length-get_elem? (x ∷ xs) zero a le e = omega arith
  length-get_elem? (x ∷ xs) (suc i) a le e = length-get_elem? xs i a (omega arith) e

if-cases :
    (P : ℕ → Type 0) (b : Bool) (x y : ℕ)
    → (b ≡ true → P x)
    → (b ≡ false → P y)
    → P (if b then x else y)
if-cases P true x y f g = f refl
if-cases P false x y f g = g refl

false-true : false ≡ true → ⊥
false-true h = ground arith

module _ {A : Type 0} (less : A → Bool) (xs : List A) where
  -- Every element before `r` is smaller, and none from `r` on is.
  abbrev Below : ℕ → Type 0
  Below r = (i : ℕ) (a : A) → i < r → get_elem? xs i ≡ some a → less a ≡ true

  abbrev Above : ℕ → Type 0
  Above r = (i : ℕ) (a : A) → r ≤ i → get_elem? xs i ≡ some a → less a ≡ false

  abbrev pub IsBound : ℕ → Type 0
  IsBound r = Below r × Above r

  abbrev pub SmallerFirst : Type 0
  SmallerFirst =
      (i j : ℕ) (a b : A)
      → i ≤ j
      → get_elem? xs i ≡ some a
      → get_elem? xs j ≡ some b
      → less b ≡ true
      → less a ≡ true

  module _ (mono : SmallerFirst) where
    Below-suc : (m : ℕ) → test_at less (get_elem? xs m) ≡ true → Below (suc m)
    Below-suc m h i a lt e = elim (Option-cases (get_elem? xs m)) [
      | inl is ↦ absurd (false-true (ap (test_at less) (sym is) ∙ h))
      | inr (b, is) ↦ mono i m a b (omega arith) e is (ap (test_at less) (sym is) ∙ h)
    ]

    Above-here : (m : ℕ) → test_at less (get_elem? xs m) ≡ false → Above m
    Above-here m h i a le e = elim (Option-cases (get_elem? xs m)) [
      | inl is ↦ absurd (get_elem?-none xs m i a is le e)
      | inr (b, is) ↦ elim (Bool-cases (less a)) [
        | inr is_not ↦ is_not
        | inl smaller ↦
            absurd
              (false-true (sym (ap (test_at less) (sym is) ∙ h) ∙ mono m i b a le is e smaller))
      ]
    ]

    loop-IsBound :
        (fuel first len : ℕ)
        → len < fuel
        → Below first
        → Above (first + len)
        → IsBound (lower_bound_loop fuel less xs first len)
    unfolding lower_bound_loop
    loop-IsBound zero first len h below above = absurd (omega arith)
    loop-IsBound (suc fuel) first len h below above =
        if-cases IsBound (len == 0) first _
          (λ e. (below, λ i a le. above i a (omega (arith, (==_iff len 0).0 e))))
          (λ n.
            if-cases IsBound (test_at less (get_elem? xs (first + len / 2))) _ _
              (λ is.
                let m = Below-suc (first + len / 2) is in
                loop-IsBound fuel (first + len / 2 + 1) (len - len / 2 - 1) (ground arith)
                  (λ i a lt. m i a (omega arith)) (λ i a le. above i a (ground arith)))
              (λ is_not.
                loop-IsBound fuel first (len / 2) (ground arith) below
                  (Above-here (first + len / 2) is_not)))

    pub lower_bound-IsBound : IsBound (lower_bound less xs)
    unfolding lower_bound
    lower_bound-IsBound =
        loop-IsBound (suc (length xs)) 0 (length xs) (omega arith) (λ i a h e. absurd (omega arith))
          (λ i a h e. absurd (length-get_elem? xs i a (omega arith) e))
