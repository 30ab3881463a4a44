-- ===== src/Http/Lookup/Sorted.antt =====
-- The tables that PoolHttpServer sorts once, in its constructor.
use mathlib.Core.List.Memᴰ
use mathlib.Core.List.Permᴰ
use mathlib.Core.List.{Memᴰ, Permᴰ}
use poolfrontend.Prelude.{
  ℕ, zero, suc, ◌≡◌, refl, sym, ◌∙◌, true, false, some, List, [], ◌∷◌, inl, inr, Bool-cases,
  str_eq_refl, some-injective, subst, ◌<◌, String, get_elem?, arith,
}
use poolfrontend.Http.Lookup.{string_lt, insert_by, sort_by}
use poolfrontend.Http.Lookup.Order.{string_lt_trans, string_lt_irrefl, not_lt_trans}

module _ {A : Type 0} (key_of : A → String) where
  -- No element comes before one with a smaller key.
  abbrev NotLess : A → A → Type 0
  NotLess a b = string_lt (key_of b) (key_of a) ≡ false

  pub data IsSorted : List A → Type 0 where
    empty : IsSorted []
    front :
        {a : A} {xs : List A}
        → ((b : A) → Memᴰ b xs → NotLess a b)
        → IsSorted xs
        → IsSorted (a ∷ xs)

  insert_by-Permᴰ : (a : A) (xs : List A) → Permᴰ (a ∷ xs) (insert_by key_of a xs)
  insert_by-Permᴰ a [] = Permᴰ.refl (a ∷ [])
  insert_by-Permᴰ a (x ∷ xs) = elim (Bool-cases (string_lt (key_of x) (key_of a))) [
    | inl is ↦ rw is (Permᴰ.trans (Permᴰ.swap refl refl) (Permᴰ.cons refl (insert_by-Permᴰ a xs)))
    | inr is_not ↦ rw is_not (Permᴰ.refl (a ∷ x ∷ xs))
  ]

  pub sort_by-Permᴰ : (xs : List A) → Permᴰ xs (sort_by key_of xs)
  unfolding sort_by
  sort_by-Permᴰ [] = Permᴰ.nil
  sort_by-Permᴰ (x ∷ xs) =
      Permᴰ.trans (Permᴰ.cons refl (sort_by-Permᴰ xs)) (insert_by-Permᴰ x (sort_by key_of xs))

  Permᴰ-Memᴰ : {a : A} {xs ys : List A} → Permᴰ xs ys → Memᴰ a xs → Memᴰ a ys
  Permᴰ-Memᴰ Permᴰ.nil m = m
  Permᴰ-Memᴰ (Permᴰ.cons e p) (Memᴰ.head h) = Memᴰ.head (h ∙ e)
  Permᴰ-Memᴰ (Permᴰ.cons e p) (Memᴰ.tail m) = Memᴰ.tail (Permᴰ-Memᴰ p m)
  Permᴰ-Memᴰ (Permᴰ.swap d e) (Memᴰ.head h) = Memᴰ.tail (Memᴰ.head (h ∙ d))
  Permᴰ-Memᴰ (Permᴰ.swap d e) (Memᴰ.tail (Memᴰ.head h)) = Memᴰ.head (h ∙ e)
  Permᴰ-Memᴰ (Permᴰ.swap d e) (Memᴰ.tail (Memᴰ.tail m)) = Memᴰ.tail (Memᴰ.tail m)
  Permᴰ-Memᴰ (Permᴰ.trans p q) m = Permᴰ-Memᴰ q (Permᴰ-Memᴰ p m)

  pub sort_by-Memᴰ : {a : A} (xs : List A) → Memᴰ a xs → Memᴰ a (sort_by key_of xs)
  sort_by-Memᴰ xs m = Permᴰ-Memᴰ (sort_by-Permᴰ xs) m

  pub Memᴰ-sort_by : {a : A} (xs : List A) → Memᴰ a (sort_by key_of xs) → Memᴰ a xs
  Memᴰ-sort_by xs m = Permᴰ-Memᴰ (Permᴰ.symm (sort_by-Permᴰ xs)) m

  NotLess-flip : (a x : A) → string_lt (key_of x) (key_of a) ≡ true → NotLess x a
  NotLess-flip a x is = elim (Bool-cases (string_lt (key_of a) (key_of x))) [
    | inr is_not ↦ is_not
    | inl back ↦ absurd (string_lt_irrefl _ _ (string_lt_trans _ _ _ is back) (str_eq_refl _))
  ]

  insert_by-IsSorted : (a : A) (xs : List A) → IsSorted xs → IsSorted (insert_by key_of a xs)
  insert_by-IsSorted a [] empty = front (λ b m. absurd (Memᴰ.not-nil m)) empty
  insert_by-IsSorted a (x ∷ xs) (front h sorted) =
      elim (Bool-cases (string_lt (key_of x) (key_of a))) [
        | inl is ↦ rw is (front (behind is) (insert_by-IsSorted a xs sorted))
        | inr is_not ↦ rw is_not (front (before is_not) (front h sorted))
      ]
    where
      behind :
          string_lt (key_of x) (key_of a) ≡ true
          → (b : A) → Memᴰ b (insert_by key_of a xs)
          → NotLess x b
      behind is b m = elim (Permᴰ-Memᴰ (Permᴰ.symm (insert_by-Permᴰ a xs)) m) [
        | Memᴰ.head e ↦ subst (NotLess x) (sym e) (NotLess-flip a x is)
        | Memᴰ.tail n ↦ h b n
      ]

      before : string_lt (key_of x) (key_of a) ≡ false → (b : A) → Memᴰ b (x ∷ xs) → NotLess a b
      before is_not b (Memᴰ.head e) = subst (NotLess a) (sym e) is_not
      before is_not b (Memᴰ.tail m) = not_lt_trans _ _ _ is_not (h b m)

  pub sort_by-IsSorted : (xs : List A) → IsSorted (sort_by key_of xs)
  unfolding sort_by
  sort_by-IsSorted [] = empty
  sort_by-IsSorted (x ∷ xs) = insert_by-IsSorted x (sort_by key_of xs) (sort_by-IsSorted xs)

  pub get_elem?-Memᴰ : (xs : List A) (i : ℕ) {a : A} → get_elem? xs i ≡ some a → Memᴰ a xs
  get_elem?-Memᴰ [] i e = ground arith
  get_elem?-Memᴰ (x ∷ xs) zero e = Memᴰ.head (sym (some-injective _ _ e))
  get_elem?-Memᴰ (x ∷ xs) (suc i) e = Memᴰ.tail (get_elem?-Memᴰ xs i e)

  -- Of two places of a sorted table, the earlier has the key that is not greater.
  pub IsSorted-get_elem? :
      (xs : List A)
      → IsSorted xs
      → (i j : ℕ) {a b : A} → i < j
      → get_elem? xs i ≡ some a
      → get_elem? xs j ≡ some b
      → NotLess a b
  IsSorted-get_elem? [] s i j lt e f = ground arith
  IsSorted-get_elem? (x ∷ xs) (front h s) i zero lt e f = absurd (omega arith)
  IsSorted-get_elem? (x ∷ xs) (front h s) zero (suc j) {b = b} lt e f =
      subst (λ y. NotLess y b) (some-injective _ _ e) (h b (get_elem?-Memᴰ xs j f))
  IsSorted-get_elem? (x ∷ xs) (front h s) (suc i) (suc j) lt e f =
      IsSorted-get_elem? xs s i j (omega arith) e f
