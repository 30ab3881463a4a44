-- ===== src/Http/Lookup/Found.antt =====
-- PoolHttpServer::backend and statisticDb, over the tables that the constructor has sorted.
use mathlib.Core.List.Memᴰ
use mathlib.Core.List.{Memᴰ}
use poolfrontend.Prelude.{
  ℕ, suc, ◌≤◌, ◌≡◌, sym, ap, ◌∙◌, subst, Bool, false, Option, none, some, List, [], ◌∷◌, ◌++◌, map,
  inl, inr, Bool-cases, Option-cases, String, str_eq, str_eq_refl, eq_iff, get_elem?, arith,
  some-injective, ltb, ltb→lt,
}
use poolfrontend.Json.{Json}
use poolfrontend.Http.Services.{Services}
use poolfrontend.Config.Types.{InstanceConfig}
use poolfrontend.Http.Lookup.{
  string_lt, sort_by, lower_bound, find_by_name, when_named, make_server, find_backend,
  statistic_db, backend_name, statistic_name,
}
use poolfrontend.Http.Lookup.Order.{true≢false, string_lt-cases, string_lt_irrefl, not_lt_trans}
use poolfrontend.Http.Lookup.Bound.{SmallerFirst, IsBound, lower_bound-IsBound, get_elem?-none}
use poolfrontend.Http.Lookup.Sorted.{
  IsSorted, sort_by-IsSorted, sort_by-Memᴰ, Memᴰ-sort_by, get_elem?-Memᴰ, IsSorted-get_elem?,
}

string_lt_self : (a : String) → string_lt a a ≡ false
string_lt_self a = let e = str_eq_refl a in ground arith

ge_of_not-ltb : (a b : ℕ) → ltb a b ≡ false → b ≤ a
ge_of_not-ltb a b h = ground arith

apart : (a b : String) → str_eq a b ≡ false → string_lt a b ≡ false → string_lt b a ≡ false → ⊥
apart a b d h k = let c = string_lt-cases a b in ground arith

module _ {A : Type 0} (key_of : A → String) where
  -- What a look-up promises: an element of the list under the name, or none is under it.
  pub data Finds (xs : List A) (key : String) : Option A → Type 0 where
    present : {a : A} → Memᴰ a xs → key_of a ≡ key → Finds xs key (some a)
    missing : ((a : A) → Memᴰ a xs → key_of a ≡ key → ⊥) → Finds xs key none

  abbrev before : String → A → Bool
  before key a = string_lt (key_of a) key

  place : (xs : List A) {a : A} → Memᴰ a xs → (i : ℕ) × (get_elem? xs i ≡ some a)
  place [] m = absurd (Memᴰ.not-nil m)
  place (x ∷ xs) (Memᴰ.head e) = (0, ap some (sym e))
  place (x ∷ xs) (Memᴰ.tail m) = let (i, e) = place xs m in (suc i, e)

  not_before :
      (xs : List A)
      → IsSorted key_of xs
      → (i j : ℕ) {a b : A} → i ≤ j
      → get_elem? xs i ≡ some a
      → get_elem? xs j ≡ some b
      → string_lt (key_of b) (key_of a) ≡ false
  not_before xs sorted i j {a} {b} le e f = elim (Bool-cases (ltb i j)) [
    | inl is ↦ IsSorted-get_elem? key_of xs sorted i j (ltb→lt i j is) e f
    | inr is_not ↦
        subst (λ x. string_lt (key_of b) (key_of x) ≡ false)
          (some-injective _ _ (sym f ∙ ap (get_elem? xs) (sym (i_is_j is_not)) ∙ e))
          (string_lt_self (key_of b))
  ]
    where
      i_is_j : ltb i j ≡ false → i ≡ j
      i_is_j is_not = ground arith

  before_mono : (xs : List A) (key : String) → IsSorted key_of xs → SmallerFirst (before key) xs
  before_mono xs key sorted i j a b le e f less = elim (Bool-cases (before key a)) [
    | inl is ↦ is
    | inr is_not ↦
        absurd (true≢false (sym less ∙ not_lt_trans _ _ _ is_not (not_before xs sorted i j le e f)))
  ]

  module _ (xs : List A) (key : String) (sorted : IsSorted key_of xs) where
    bound : IsBound (before key) xs (lower_bound (before key) xs)
    bound = lower_bound-IsBound (before key) xs (before_mono xs key sorted)

    -- Every element under the name stands at the bound or behind it.
    behind_bound :
        (i : ℕ) (a : A) → get_elem? xs i ≡ some a → key_of a ≡ key → lower_bound (before key) xs ≤ i
    behind_bound i a e is = elim (Bool-cases (ltb i (lower_bound (before key) xs))) [
      | inl less ↦
          absurd
            (string_lt_irrefl (key_of a) key (bound.0 i a (ltb→lt _ _ less) e) ((eq_iff _ _).1 is))
      | inr is_not ↦ omega (arith, ge_of_not-ltb _ _ is_not)
    ]

    pub find_by_name-Finds : Finds xs key (find_by_name key_of xs key)
    unfolding find_by_name
    find_by_name-Finds = elim (Option-cases (get_elem? xs (lower_bound (before key) xs))) [
      | inl is ↦ rw is (
          missing (λ a m e.
            let (i, f) = place xs m in get_elem?-none xs _ i a is (behind_bound i a f e) f))
      | inr (b, is) ↦ rw is (at_bound b is)
    ]
      where
        at_bound :
            (b : A)
            → get_elem? xs (lower_bound (before key) xs) ≡ some b
            → Finds xs key (when_named key_of key (some b))
        at_bound b is = elim (Bool-cases (str_eq (key_of b) key)) [
          | inl same ↦ rw same (present (get_elem?-Memᴰ key_of xs _ is) ((eq_iff _ _).0 same))
          | inr differs ↦ rw differs (
              missing (λ a m e.
                let (i, f) = place xs m in
                let not_less = not_before xs sorted _ i (behind_bound i a f e) is f in
                apart (key_of b) key differs (bound.1 _ b (omega arith) is)
                  (subst (λ k. string_lt k (key_of b) ≡ false) e not_less)))
        ]

module _ {A : Type 0} (key_of : A → String) (xs : List A) (key : String) where
  unsorted_Finds : {o : Option A} → Finds key_of (sort_by key_of xs) key o → Finds key_of xs key o
  unsorted_Finds (present m e) = present (Memᴰ-sort_by key_of xs m) e
  unsorted_Finds (missing none_is) = missing (λ a m. none_is a (sort_by-Memᴰ key_of xs m))

  pub sorted_Finds : Finds key_of xs key (find_by_name key_of (sort_by key_of xs) key)
  sorted_Finds =
      unsorted_Finds
        (find_by_name-Finds key_of (sort_by key_of xs) key (sort_by-IsSorted key_of xs))

module _ {j : Json} (s : Services j) (backends : List s.Backend)
    (algo_meta_statistic : List s.Statistic)
    (instances : List (InstanceConfig j.Value j.Double)) where
  -- The backend found under a coin's name is one of those given to the constructor and has that
  -- name; none is found just when none of them has it.
  pub find_backend-Finds :
      (coin : String)
      → Finds (backend_name s) backends coin (
          find_backend {j = j} {s = s}
            (make_server {j = j} {s = s} backends algo_meta_statistic instances)
            coin)
  unfolding find_backend make_server
  find_backend-Finds coin = sorted_Finds (backend_name s) backends coin

  -- The statistic database found under a name is that of a backend or one of those of the
  -- algorithms, and has the name; none is found just when none of them has it.
  pub statistic_db-Finds :
      (name : String)
      → Finds (statistic_name s) (map s.backend_statistic backends ++ algo_meta_statistic) name (
          statistic_db {j = j} {s = s}
            (make_server {j = j} {s = s} backends algo_meta_statistic instances)
            name)
  unfolding statistic_db make_server
  statistic_db-Finds name =
      sorted_Finds (statistic_name s) (map s.backend_statistic backends ++ algo_meta_statistic) name
