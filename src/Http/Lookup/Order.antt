-- ===== src/Http/Lookup/Order.antt =====
-- The order of coin names: string_lt is the order of std::string, and transitive.
use Prim.Native.Nat.{ℕ, Ordering, compare as compare_ℕ}
use Prim.Native.Char.{code}
use Prim.Native.String.compare
use Prim.Native.String.{String, [], ◌∷◌, compare, then}
use poolfrontend.Prelude.{
  ◌≡◌, sym, ap, ◌∙◌, true, false, eq_iff, Bool-cases, inl, inr, ◌⊎◌, arith, str_eq,
}
use poolfrontend.Http.Lookup.{string_lt}

pub true≢false : true ≡ false → ⊥
true≢false h = ground arith

gt≢lt : Ordering.gt ≡ Ordering.lt → ⊥
gt≢lt h = ground arith

then_trans :
    (x y z : ℕ) (p q r : Ordering)
    → (p ≡ Ordering.lt → q ≡ Ordering.lt → r ≡ Ordering.lt)
    → then (compare_ℕ x y) p ≡ Ordering.lt
    → then (compare_ℕ y z) q ≡ Ordering.lt
    → then (compare_ℕ x z) r ≡ Ordering.lt
then_trans x y z p q r f h k = ground arith

lt_trans :
    (a b c : String)
    → compare a b ≡ Ordering.lt
    → compare b c ≡ Ordering.lt
    → compare a c ≡ Ordering.lt
lt_trans [] [] c h k = k
lt_trans [] (d ∷ t) [] h k = absurd (gt≢lt (sym (compare.cons-nil d t) ∙ k))
lt_trans [] (d ∷ t) (e ∷ u) h k = compare.nil-cons e u
lt_trans (c ∷ s) [] u h k = absurd (gt≢lt (sym (compare.cons-nil c s) ∙ h))
lt_trans (c ∷ s) (d ∷ t) [] h k = absurd (gt≢lt (sym (compare.cons-nil d t) ∙ k))
lt_trans (c ∷ s) (d ∷ t) (e ∷ u) h k =
    compare.cons-cons c e s u
    ∙ then_trans (code c) (code d) (code e) (compare s t) (compare t u) (compare s u)
        (lt_trans s t u) (sym (compare.cons-cons c d s t) ∙ h) (sym (compare.cons-cons d e t u) ∙ k)

abbrev opposite : Ordering → Ordering
opposite Ordering.lt = Ordering.gt
opposite Ordering.eq = Ordering.eq
opposite Ordering.gt = Ordering.lt

then-opposite :
    (x y : ℕ) (p q : Ordering)
    → q ≡ opposite p
    → then (compare_ℕ y x) q ≡ opposite (then (compare_ℕ x y) p)
then-opposite x y p q h = ground arith

compare-opposite : (a b : String) → compare b a ≡ opposite (compare a b)
compare-opposite [] [] = compare.nil-nil ∙ ap opposite (sym compare.nil-nil)
compare-opposite [] (d ∷ t) = compare.cons-nil d t ∙ ap opposite (sym (compare.nil-cons d t))
compare-opposite (c ∷ s) [] = compare.nil-cons c s ∙ ap opposite (sym (compare.cons-nil c s))
compare-opposite (c ∷ s) (d ∷ t) =
    compare.cons-cons d c t s
    ∙ then-opposite (code c) (code d) (compare s t) (compare t s) (compare-opposite s t)
    ∙ ap opposite (sym (compare.cons-cons c d s t))

pub string_lt_trans :
    (a b c : String) → string_lt a b ≡ true → string_lt b c ≡ true → string_lt a c ≡ true
string_lt_trans a b c h k = let l = lt_trans a b c in ground arith

pub string_lt-cases :
    (a b : String) → (string_lt a b ≡ true) ⊎ (str_eq a b ≡ true) ⊎ (string_lt b a ≡ true)
string_lt-cases a b = let e = compare-opposite a b in ground arith

pub string_lt_irrefl : (a b : String) → string_lt a b ≡ true → str_eq a b ≡ true → ⊥
string_lt_irrefl a b h k = ground arith

-- The names that string_lt cannot tell apart are equal, so its negation is transitive too.
pub not_lt_trans :
    (a b c : String) → string_lt b a ≡ false → string_lt c b ≡ false → string_lt c a ≡ false
not_lt_trans a b c h k = elim (Bool-cases (string_lt c a)) [
  | inr is_not ↦ is_not
  | inl is ↦ elim (string_lt-cases a b) [
    | inl less ↦ absurd (true≢false (sym (string_lt_trans c a b is less) ∙ k))
    | inr (inl same) ↦ absurd (true≢false (sym is ∙ ap (string_lt c) ((eq_iff a b).0 same) ∙ k))
    | inr (inr more) ↦ absurd (true≢false (sym more ∙ h))
  ]
]
