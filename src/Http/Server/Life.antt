-- ===== src/Http/Server/Life.antt =====
-- What starting, accepting and stopping come to.
use poolfrontend.Prelude.{
  ℕ, zero, suc, ◌+◌, ◌≤◌, ◌≡◌, refl, ap, ◌∙◌, Bool, true, false, ◌&&◌, none, some, ◌∷◌, get_elem?,
  arith, if◌then◌else◌,
}
use poolfrontend.Http.Server.{new_server, indices, start, stop, join_threads}
use poolfrontend.Start.Settings.{http_threads_num}

get_elem?-indices : (i k n : ℕ) → suc k ≤ n → get_elem? (indices i n) k ≡ some (i + k)
unfolding indices
get_elem?-indices i k zero h = absurd (omega arith)
get_elem?-indices i zero (suc n) h = ap some (omega arith)
get_elem?-indices i (suc k) (suc n) h =
    get_elem?-indices (suc i) k n (omega arith) ∙ ap some (omega arith)

joins_all : (n i m : ℕ) → i + m ≤ n → join_threads (some (indices 0 n)) i m ≡ some (indices i m)
unfolding join_threads indices
joins_all n i zero h = refl
joins_all n i (suc m) h =
    ap
      (λ t. elim t [
        | some thread ↦ elim (join_threads (some (indices 0 n)) (suc i) m) [
          | some joined ↦ some (thread ∷ joined)
          | none ↦ none
        ]
        | none ↦ none
      ])
      (get_elem?-indices 0 i n (omega arith) ∙ ap some (omega arith))
    ∙ ap (λ t. elim t [ some joined ↦ some (i ∷ joined) | none ↦ none ])
        (joins_all n (suc i) m (omega arith))

none_joined : (n : ℕ) → 1 ≤ n → join_threads none 0 n ≡ none
unfolding join_threads
none_joined zero h = absurd (omega arith)
none_joined (suc n) h = refl

some_thread : (configured : ℕ) → 1 ≤ http_threads_num configured
unfolding http_threads_num
some_thread configured = ground arith

-- A server that could start joins each of its threads once when it stops; one that could not,
-- with the number of threads that main gives it, reads a thread through a null pointer.
pub start-stop :
    (port configured : ℕ) (bound listening : Bool)
    → stop (start bound listening (new_server port (http_threads_num configured))).1
      ≡ (if bound && listening then some (indices 0 (http_threads_num configured)) else none)
unfolding start stop new_server
start-stop port configured true true =
    joins_all (http_threads_num configured) 0 (http_threads_num configured) (omega arith)
start-stop port configured true false =
    none_joined (http_threads_num configured) (some_thread configured)
start-stop port configured false listening =
    none_joined (http_threads_num configured) (some_thread configured)
