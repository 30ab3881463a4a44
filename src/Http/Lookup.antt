-- ===== src/Http/Lookup.antt =====
-- PoolHttpServer's tables of backends and statistic databases, ordered by coin name, and the
-- look-ups by std::lower_bound in them.
mod Order
mod Bound
pub mod Sorted
pub mod Found
use Prim.Native.String.{compare}
use Prim.Native.Nat.{Ordering}
use poolfrontend.Prelude.{
  ℕ, zero, suc, ◌+◌, ◌-◌, ◌/◌, Bool, true, false, Option, none, some, List, [], ◌∷◌, ◌++◌, map,
  String, str_eq, length, get_elem?, if◌then◌else◌, ◌==◌,
}
use poolfrontend.Json.{Json}
use poolfrontend.Http.Services.{Services}
use poolfrontend.Config.Types.{InstanceConfig}

-- operator< of std::string: the order of the bytes, which is that of the code points.
abbrev pub string_lt : String → String → Bool
string_lt a b = elim (compare a b) [ Ordering.lt ↦ true | _ ↦ false ]

module _ {A : Type 0} where
  abbrev test_at : (A → Bool) → Option A → Bool
  test_at less none = false
  test_at less (some a) = less a

  -- std::lower_bound over a vector: `first` and `len` bound the part still searched, which halves
  -- at each round. The fuel is one more than the length.
  pub lower_bound_loop : ℕ → (A → Bool) → List A → ℕ → ℕ → ℕ
  lower_bound_loop zero less xs first len = first
  lower_bound_loop (suc fuel) less xs first len =
      let right = lower_bound_loop fuel less xs (first + len / 2 + 1) (len - len / 2 - 1) in
      let left = lower_bound_loop fuel less xs first (len / 2) in
      let here = test_at less (get_elem? xs (first + len / 2)) in
      if len == 0 then first else (if here then right else left)

  unfoldable pub lower_bound : (A → Bool) → List A → ℕ
  unfolding lower_bound_loop
  lower_bound less xs = lower_bound_loop (suc (length xs)) less xs 0 (length xs)

  abbrev pub when_named : (A → String) → String → Option A → Option A
  when_named key_of key none = none
  when_named key_of key (some a) = if str_eq (key_of a) key then some a else none

  -- The element whose key is the one asked for; `none` where the code returns nullptr, at the end
  -- of the vector or on another key.
  unfoldable pub find_by_name : (A → String) → List A → String → Option A
  unfolding lower_bound
  find_by_name key_of xs key =
      when_named key_of key (get_elem? xs (lower_bound (λ a. string_lt (key_of a) key) xs))

  -- std::sort by key, as insertion.
  abbrev insert_by : (A → String) → A → List A → List A
  insert_by key_of a [] = a ∷ []
  insert_by key_of a (x ∷ xs) =
      if string_lt (key_of x) (key_of a) then x ∷ insert_by key_of a xs else a ∷ x ∷ xs

  unfoldable pub sort_by : (A → String) → List A → List A
  sort_by key_of [] = []
  sort_by key_of (x ∷ xs) = insert_by key_of x (sort_by key_of xs)

-- The members of PoolHttpServer that the handlers use.
pub record Server (j : Json) (s : Services j) : Type 0 where
  pub backends : List s.Backend
  pub statistics : List s.Statistic
  pub instances : List (InstanceConfig j.Value j.Double)

module _ {j : Json} (s : Services j) where
  abbrev pub backend_name : s.Backend → String
  backend_name b = (s.backend_coin_info b).name

  abbrev pub statistic_name : s.Statistic → String
  statistic_name d = (s.statistic_coin_info d).name

module _ {j : Json} {s : Services j} where
  -- The constructor: the backends' statistics come first, then those of the algorithms.
  unfoldable pub make_server :
      List s.Backend → List s.Statistic → List (InstanceConfig j.Value j.Double) → Server j s
  unfolding sort_by
  make_server backends algo_meta_statistic instances = record {
    backends = sort_by (backend_name s) backends;
    statistics =
        sort_by (statistic_name s) (map s.backend_statistic backends ++ algo_meta_statistic);
    instances = instances;
  }

  unfoldable pub find_backend : Server j s → String → Option s.Backend
  unfolding find_by_name
  find_backend server coin = find_by_name (backend_name s) server.backends coin

  unfoldable pub statistic_db : Server j s → String → Option s.Statistic
  unfolding find_by_name
  statistic_db server name = find_by_name (statistic_name s) server.statistics name
