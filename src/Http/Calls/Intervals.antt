-- ===== src/Http/Calls/Intervals.antt =====
-- onBackendPoolLuck: the intervals that it asks the accounting database about.
use poolfrontend.Prelude.{
  ap, ◌∙◌, Bool, ◌&&◌, ◌≡◌, refl, Bool, true, false, some, List, [], ◌∷◌, ◌++◌, map, String, not,
  arith,
}
use poolfrontend.Prelude.Int.{ℤ, pos, leb_ℤ, ◌<ℤ◌}
use poolfrontend.Json.{Json}
use poolfrontend.Http.Services.{Services}
use poolfrontend.Http.Handler.{
  Trace, Frame, Outcome, Handler, events, write, start, increment_reference, pool_luck,
  status_reply, ◌>>=◌, pure, require, returned, next,
}
use poolfrontend.Http.Handler.Obeys.{
  Obeys, events-Obeys, Obeys-require-bind, Obeys-require_some-bind, Obeys-start_call, ObeysAt,
}
use poolfrontend.Http.Handler.Runs.{
  Runs, events-Runs, Runs-require, Runs-require_some, Runs-start_call,
}
use poolfrontend.Http.Calls.{field}
use poolfrontend.Http.Lookup.{Server, find_backend}
use poolfrontend.Http.Backend.{read_intervals, on_backend_pool_luck}

-- Each number is greater than the one before it, the first greater than `prev`.
pub data Rising : ℤ → List ℤ → Type 0 where
  done : {prev : ℤ} → Rising prev []
  step : {prev x : ℤ} {xs : List ℤ} → prev <ℤ x → Rising x xs → Rising prev (x ∷ xs)

-- Every value of the array is a number of 64 bits.
pub data AllInt64 (j : Json) : List j.Value → Type 0 where
  none_left : AllInt64 j []
  and_then :
      {v : j.Value} {vs : List j.Value} → j.is_int64 v ≡ true → AllInt64 j vs → AllInt64 j (v ∷ vs)

not_leb_ℤ : (x prev : ℤ) → not (leb_ℤ x prev) ≡ true → prev <ℤ x
not_leb_ℤ x prev h = ground arith

module _ {j : Json} {s : Services j} where
  -- Reading gives all the values of the array, which are numbers of 64 bits and rise, or ends the
  -- request.
  data Read (prev : ℤ) (vs : List j.Value) (fr : Frame j s) : Outcome j s (List ℤ) → Type 0 where
    good :
        AllInt64 j vs
        → Rising prev (map j.get_int64 vs)
        → Read prev vs fr (next (map j.get_int64 vs) fr)
    bad : Read prev vs fr (returned (fr.trace ++ write (status_reply "json_format_error") ∷ []))

  Read-more :
      (prev : ℤ) (v : j.Value) (vs : List j.Value) (fr : Frame j s) (o : Outcome j s (List ℤ))
      → j.is_int64 v ≡ true
      → prev <ℤ j.get_int64 v
      → Read (j.get_int64 v) vs fr o
      → Read prev (v ∷ vs) fr (elim o [
        | next a fr' ↦ pure {j = j} {s = s} (j.get_int64 v ∷ a) fr'
        | returned u ↦ returned u
      ])
  unfolding pure
  Read-more prev v vs fr o is lt (good a r) = good (and_then is a) (step lt r)
  Read-more prev v vs fr o is lt bad = bad

  Read-test :
      (prev : ℤ) (v : j.Value) (vs : List j.Value) (fr : Frame j s) (b c : Bool)
      (rest : Handler j s (List ℤ))
      → (b ≡ true → c ≡ true → Read prev (v ∷ vs) fr ((rest >>= λ a. pure (j.get_int64 v ∷ a)) fr))
      → Read prev (v ∷ vs) fr (
          (require b "json_format_error" >>= λ _.
          require c "json_format_error" >>= λ _. rest >>= λ a. pure (j.get_int64 v ∷ a))
            fr)
  unfolding ◌>>=◌ require
  Read-test prev v vs fr true true rest h = h refl refl
  Read-test prev v vs fr true false rest h = bad
  Read-test prev v vs fr false c rest h = bad

  read_intervals-Read :
      (prev : ℤ) (vs : List j.Value) (fr : Frame j s)
      → Read prev vs fr (read_intervals j s prev vs fr)
  unfolding read_intervals pure ◌>>=◌
  read_intervals-Read prev [] fr = good none_left done
  read_intervals-Read prev (v ∷ vs) fr =
      Read-test prev v vs fr (j.is_int64 v) (not (leb_ℤ (j.get_int64 v) prev))
        (read_intervals j s (j.get_int64 v) vs)
        (λ is h.
          Read-more prev v vs fr _ is (not_leb_ℤ (j.get_int64 v) prev h)
            (read_intervals-Read (j.get_int64 v) vs fr))

  read_bind_at :
      (P : Trace j s → Type 0) (prev : ℤ) (vs : List j.Value) (k : List ℤ → Handler j s ⊥)
      (fr : Frame j s) (o : Outcome j s (List ℤ))
      → Read prev vs fr o
      → P (write (status_reply "json_format_error") ∷ [])
      → (AllInt64 j vs → Rising prev (map j.get_int64 vs) → Obeys P (k (map j.get_int64 vs)))
      → ObeysAt P fr.trace (elim o [ next a fr' ↦ k a fr' | returned u ↦ returned u ])
  read_bind_at P prev vs k fr o (good a r) p h = (h a r).at fr
  read_bind_at P prev vs k fr o bad p h = (write (status_reply "json_format_error") ∷ [], refl, p)

  Obeys-read_intervals-bind :
      {P : Trace j s → Type 0} (prev : ℤ) (vs : List j.Value) (k : List ℤ → Handler j s ⊥)
      → P (write (status_reply "json_format_error") ∷ [])
      → (AllInt64 j vs → Rising prev (map j.get_int64 vs) → Obeys P (k (map j.get_int64 vs)))
      → Obeys P (read_intervals j s prev vs >>= k)
  unfolding ◌>>=◌
  Obeys-read_intervals-bind {P} prev vs k p h = record {
    at = λ fr. read_bind_at P prev vs k fr _ (read_intervals-Read prev vs fr) p h;
  }

-- Either a status alone is written, or the one call asks the backend of the document's coin about the
-- numbers of the array `intervals`, all of them and in their order, which are numbers of 64 bits and rise strictly from above 0.
pub data Asks {j : Json} {s : Services j} (server : Server j s) (document : j.Value)
    : Trace j s → Type 0 where
  refused : (status : String) → Asks server document (write (status_reply status) ∷ [])
  asked :
      (b : s.Backend)
      → find_backend server (field j document "coin") ≡ some b
      → AllInt64 j (j.get_array (j.member document "intervals"))
      → Rising (pos 0) (map j.get_int64 (j.get_array (j.member document "intervals")))
      → Asks server document (
          increment_reference
          ∷ start (pool_luck b (map j.get_int64 (j.get_array (j.member document "intervals"))))
          ∷ [])

module _ {j : Json} {s : Services j} where
  on_backend_pool_luck-Obeys :
      (server : Server j s) (document : j.Value)
      → Obeys {j = j} {s = s} (Asks server document) (on_backend_pool_luck j s server document)
  unfolding on_backend_pool_luck
  on_backend_pool_luck-Obeys server document = Obeys-require-bind _ _ _ (refused _) λ fits.
      Obeys-require_some-bind _ _ _ (refused _) λ b found.
        Obeys-read_intervals-bind (pos 0) _ _ (refused _)
          λ numbers rising. Obeys-start_call _ (asked b found numbers rising)

module _ (j : Json) (s : Services j) where
  -- For every document, onBackendPoolLuck either writes a status alone, or asks the coin's backend about
  -- exactly the values of the array, which are all numbers of 64 bits and rise strictly from above 0.
  pub on_backend_pool_luck-Asks :
      (server : Server j s) (document : j.Value)
      → Asks {j = j} {s = s} server document (events (on_backend_pool_luck j s server document))
  on_backend_pool_luck-Asks server document =
      events-Obeys _ _ (on_backend_pool_luck-Obeys server document)

less_not_leb : (x prev : ℤ) → prev <ℤ x → not (leb_ℤ x prev) ≡ true
less_not_leb x prev h = ground arith

module _ {j : Json} {s : Services j} where
  read_intervals-next :
      (prev : ℤ) (vs : List j.Value) (fr : Frame j s)
      → AllInt64 j vs
      → Rising prev (map j.get_int64 vs)
      → read_intervals j s prev vs fr ≡ next (map j.get_int64 vs) fr
  unfolding read_intervals pure ◌>>=◌ require
  read_intervals-next prev [] fr a r = refl
  read_intervals-next prev (v ∷ vs) fr (and_then is a) (step lt r) =
      ap (λ b. tests b (not (leb_ℤ (j.get_int64 v) prev))) is
      ∙ ap (tests true) (less_not_leb (j.get_int64 v) prev lt)
      ∙ ap (λ o. elim o [ next xs fr' ↦ next (j.get_int64 v ∷ xs) fr' | returned u ↦ returned u ])
          (read_intervals-next (j.get_int64 v) vs fr a r)
    where
      tests : Bool → Bool → Outcome j s (List ℤ)
      tests b c =
          (require {j = j} {s = s} b "json_format_error" >>= λ _.
          require c "json_format_error" >>= λ _.
          read_intervals j s (j.get_int64 v) vs >>= λ xs. pure (j.get_int64 v ∷ xs))
            fr

  Runs-read_intervals :
      (prev : ℤ) (vs : List j.Value) (k : List ℤ → Handler j s ⊥) {t : Trace j s}
      → AllInt64 j vs
      → Rising prev (map j.get_int64 vs)
      → Runs (k (map j.get_int64 vs)) t
      → Runs (read_intervals j s prev vs >>= k) t
  unfolding ◌>>=◌
  Runs-read_intervals prev vs k a r runs = record {
    run =
        ap (λ o. elim o [ next xs fr' ↦ k xs fr' | returned u ↦ returned u ])
          (read_intervals-next prev vs _ a r)
        ∙ runs.run;
  }

module _ (j : Json) (s : Services j) (server : Server j s) (document : j.Value)
    (b : s.Backend) where
  -- When the document has a coin and an array of intervals, the coin has a backend, and every value of the
  -- array is a number of 64 bits and they rise strictly from above 0, the request is not refused: the
  -- one call asks about all of them.
  pub on_backend_pool_luck-Rising :
      ((j.has_member document "coin" && j.is_string (j.member document "coin"))
          && (j.has_member document "intervals" && j.is_array (j.member document "intervals")))
        ≡ true
      → find_backend server (field j document "coin") ≡ some b
      → AllInt64 j (j.get_array (j.member document "intervals"))
      → Rising (pos 0) (map j.get_int64 (j.get_array (j.member document "intervals")))
      → events (on_backend_pool_luck j s server document)
        ≡ increment_reference
          ∷ start (pool_luck b (map j.get_int64 (j.get_array (j.member document "intervals"))))
          ∷ []
  unfolding on_backend_pool_luck
  on_backend_pool_luck-Rising given found numbers rising = events-Runs (
      Runs-require _ _ _ given (
        Runs-require_some _ b _ _ found
          (Runs-read_intervals (pos 0) _ _ numbers rising (Runs-start_call _))))
