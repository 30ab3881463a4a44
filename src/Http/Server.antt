-- ===== src/Http/Server.antt =====
-- PoolHttpServer's life in http.cpp: the listening socket, the threads and the accepted
-- connections. What the socket calls answer are arguments.
pub mod Life
mod Examples
use poolfrontend.Prelude.{
  ℕ, zero, suc, ◌+◌, Bool, true, false, Option, none, some, List, [], ◌∷◌, get_elem?, if◌then◌else◌,
}

-- `threads` is Threads_, null before start has created them; a thread is its index.
pub record HttpServer : Type 0 where
  pub port : ℕ
  pub threads_num : ℕ
  pub threads : Option (List ℕ)
  pub pending_accepts : ℕ
  pub connections : ℕ

-- What the constructor leaves.
unfoldable pub new_server : ℕ → ℕ → HttpServer
new_server port threads_num = record {
  port = port;
  threads_num = threads_num;
  threads = none;
  pending_accepts = 0;
  connections = 0;
}

-- The indices i, i + 1, …, n of them.
unfoldable pub indices : ℕ → ℕ → List ℕ
indices i zero = []
indices i (suc n) = i ∷ indices (suc i) n

-- socketBind and socketListen answer whether they succeed.
unfoldable pub start : Bool → Bool → HttpServer → Bool × HttpServer
unfolding indices
start bound listening server =
    if bound
    then (if listening
        then (
          true,
          record server {
            threads = some (indices 0 server.threads_num);
            pending_accepts = server.pending_accepts + 1;
          },
        )
        else (false, server))
    else (false, server)

-- The loop that joins the threads from the index i on, n of them: nothing where it reads a thread
-- that is not there.
unfoldable pub join_threads : Option (List ℕ) → ℕ → ℕ → Option (List ℕ)
join_threads threads i zero = some []
join_threads none i (suc n) = none
join_threads (some threads) i (suc n) = elim (get_elem? threads i) [
  | some thread ↦ elim (join_threads (some threads) (suc i) n) [
    | some joined ↦ some (thread ∷ joined)
    | none ↦ none
  ]
  | none ↦ none
]

-- The threads that stop joins, behind the quit operation.
unfoldable pub stop : HttpServer → Option (List ℕ)
unfolding join_threads
stop server = join_threads server.threads 0 server.threads_num

-- acceptCb: the pending accept is over, a connection is made of a socket, and accept starts again.
unfoldable pub accept_cb : HttpServer → Bool → HttpServer
accept_cb server success = record server {
  connections = if success then server.connections + 1 else server.connections;
}
