-- ===== src/Start/Known.antt =====
-- The statistic servers that main.cpp creates, one of each algorithm, and how they are looked up.
use mathlib.Core.List.{Memᴰ}
use mathlib.Core.List.Memᴰ
use poolfrontend.Prelude.{
  ap, str_eq_refl, Bool, true, false, not, ◌≡◌, ◌≢◌, refl, Option, none, some, List, [], ◌∷◌, ◌++◌,
  String, str_eq, eq_iff, arith, inl, inr, if◌then◌else◌, ◌⊎◌, some-injective, Option-cases, subst,
}
use poolfrontend.Json.{Json}
use poolfrontend.Start.Types.{Core, StatisticServer}
use poolfrontend.Start.Text.{◌/path◌}
use poolfrontend.Start.Backends.{Servers, find_server, algo_server}
use poolfrontend.Start.Ensures.{Ensures, holds, Ensures-require}
use poolfrontend.Start.Checked.{not_empty}

module _ {A : Type 0} where
  if_single :
      {x s : A} {Q : Type 0} (b : Bool)
      → (b ≡ true → Q)
      → (if b then some x else none) ≡ some s
      → Q × (x ≡ s)
  if_single true f e = (f refl, some-injective _ _ e)
  if_single false f e = ground arith

  if_step :
      (x : A) {s : A} {o o' : Option A} {Q : Type 0} (b : Bool)
      → (o' ≡ some s → (o ≡ some s) ⊎ Q)
      → (if b then some x else o') ≡ some s
      → ((if b then some x else o) ≡ some s) ⊎ Q
  if_step x true f e = inl e
  if_step x false f e = f e

  still :
      (x : A) {s : A} {o o' : Option A} (b : Bool)
      → (o ≡ some s → o' ≡ some s)
      → (if b then some x else o) ≡ some s
      → (if b then some x else o') ≡ some s
  still x true f e = e
  still x false f e = f e

  at_last :
      (x : A) {s : A} {o o' : Option A} (b : Bool)
      → (o ≡ none → o' ≡ some s)
      → (if b then some x else o) ≡ none
      → (if b then some x else o') ≡ some s
  at_last x true f e = ground arith
  at_last x false f e = f e

module _ (j : Json) (core : Core j.Double j.Value) where
  open j use {Value, Double}
  open core use {CoinInfo}

  -- The statistic server of a coin's algorithm.
  pub record IsServer (path algorithm : String) (server : StatisticServer CoinInfo) : Type 0 where
    pub entry : server.coin_info ≡ core.get algorithm
    pub known : core.name server.coin_info ≢ ""
    pub db_path : server.db_path ≡ (path /path core.name server.coin_info)

  -- The servers known so far: one of each algorithm.
  pub data IsKnown (path : String) : Servers j core → Type 0 where
    none_known : IsKnown path []
    known_too :
        {servers : Servers j core} {algorithm : String} {server : StatisticServer CoinInfo}
        → IsKnown path servers
        → find_server j core servers algorithm ≡ none
        → IsServer path algorithm server
        → IsKnown path (servers ++ (algorithm, server) ∷ [])

  found_append :
      (servers : Servers j core) (name : String) (server : StatisticServer CoinInfo)
      (algorithm : String) (s : StatisticServer CoinInfo)
      → find_server j core (servers ++ (name, server) ∷ []) algorithm ≡ some s
      → (find_server j core servers algorithm ≡ some s) ⊎ ((name ≡ algorithm) × (server ≡ s))
  found_append [] name server algorithm s e =
      inr (if_single (str_eq name algorithm) ((eq_iff _ _).0) e)
  found_append ((n, x) ∷ servers) name server algorithm s e =
      if_step x (str_eq n algorithm) (found_append servers name server algorithm s) e

  known-IsServer :
      (path : String) {servers : Servers j core} (algorithm : String) (s : StatisticServer CoinInfo)
      → IsKnown path servers
      → find_server j core servers algorithm ≡ some s
      → IsServer path algorithm s
  known-IsServer path algorithm s none_known e = ground arith
  known-IsServer path algorithm s
        (known_too {servers = servers} {algorithm = a} {server = server} known fresh server_is) e =
      elim (found_append servers a server algorithm s e) [
        | inl before ↦ known-IsServer path algorithm s known before
        | inr (ea, es) ↦
            subst (λ x. IsServer path algorithm x) es
              (subst (λ x. IsServer path x server) ea server_is)
      ]

  find_append :
      (servers later : Servers j core) (algorithm : String) (s : StatisticServer CoinInfo)
      → find_server j core servers algorithm ≡ some s
      → find_server j core (servers ++ later) algorithm ≡ some s
  find_append [] later algorithm s e = ground arith
  find_append ((n, x) ∷ servers) later algorithm s e =
      still x (str_eq n algorithm) (find_append servers later algorithm s) e

  find_last :
      (servers : Servers j core) (algorithm : String) (s : StatisticServer CoinInfo)
      → find_server j core servers algorithm ≡ none
      → find_server j core (servers ++ (algorithm, s) ∷ []) algorithm ≡ some s
  find_last [] algorithm s e = rw (str_eq_refl algorithm) refl
  find_last ((n, x) ∷ servers) algorithm s e =
      at_last x (str_eq n algorithm) (find_last servers algorithm s) e

  -- The servers known later: those found before are found as before, and each new one is of one of the
  -- algorithms.
  pub record IsGrown (algorithms : List String) (known later : Servers j core) : Type 0 where
    pub kept :
        (algorithm : String) (s : StatisticServer CoinInfo)
        → find_server j core known algorithm ≡ some s
        → find_server j core later algorithm ≡ some s
    pub added :
        (p : String × StatisticServer CoinInfo) → Memᴰ p later → Memᴰ p known ⊎ Memᴰ p.0 algorithms

  pub IsGrown-refl :
      (algorithms : List String) (known : Servers j core) → IsGrown algorithms known known
  IsGrown-refl algorithms known = record { kept = λ a s e. e; added = λ p m. inl m }

  pub IsGrown-trans :
      {algorithm : String} {algorithms : List String} {known known1 known2 : Servers j core}
      → IsGrown (algorithm ∷ []) known known1
      → IsGrown algorithms known1 known2
      → IsGrown (algorithm ∷ algorithms) known known2
  IsGrown-trans g h = record {
    kept = λ a s e. h.kept a s (g.kept a s e);
    added = λ p m. elim (h.added p m) [
      | inr new ↦ inr (Memᴰ.tail new)
      | inl old ↦ elim (g.added p old) [
        | inl older ↦ inl older
        | inr new ↦ inr (Memᴰ.append_left _ new)
      ]
    ];
  }

  IsGrown-append :
      (algorithm : String) (known : Servers j core) (s : StatisticServer CoinInfo)
      → IsGrown (algorithm ∷ []) known (known ++ (algorithm, s) ∷ [])
  IsGrown-append algorithm known s = record {
    kept = λ a s e. find_append known _ a s e;
    added = λ p m. elim (Memᴰ.append_cases known m) [
      | inl old ↦ inl old
      | inr (Memᴰ.head e) ↦ inr (Memᴰ.head (ap (λ x. x.0) e))
      | inr (Memᴰ.tail none_more) ↦ absurd (Memᴰ.not-nil none_more)
    ];
  }

  -- The server that algo_server answers is that of the algorithm, and is registered from then on.
  pub record IsRegistered (path algorithm : String) (known : Servers j core)
      (x : StatisticServer CoinInfo × Servers j core) : Type 0 where
    pub server_is : IsServer path algorithm x.0
    pub known_is : IsKnown path x.1
    pub found : find_server j core x.1 algorithm ≡ some x.0
    pub grown : IsGrown (algorithm ∷ []) known x.1

  pub Ensures-algo_server :
      (path : String) (coin_info : CoinInfo) (known : Servers j core)
      → IsKnown path known
      → Ensures
          (IsRegistered path (core.algorithm coin_info) known)
          (algo_server j core path coin_info known)
  unfolding algo_server
  Ensures-algo_server path coin_info known h =
      elim (Option-cases (find_server j core known (core.algorithm coin_info))) [
        | inr (server, is) ↦
            rw (is, algo_server)
              (holds (record {
                server_is = known-IsServer path _ server h is;
                known_is = h;
                found = is;
                grown = IsGrown-refl _ known;
              }))
        | inl is_not ↦
            rw (is_not, algo_server)
              (Ensures-require (not (str_eq (core.name (core.get (core.algorithm coin_info))) "")) _
                _
                (λ ok.
                  let server : StatisticServer CoinInfo = record {
                    db_path = path /path core.name (core.get (core.algorithm coin_info));
                    coin_info = core.get (core.algorithm coin_info);
                  } in
                  let server_is : IsServer path (core.algorithm coin_info) server = record {
                    entry = refl;
                    known = not_empty _ ok;
                    db_path = refl;
                  } in
                  holds (record {
                    server_is = server_is;
                    known_is = known_too h is_not server_is;
                    found = find_last known _ server is_not;
                    grown = IsGrown-append _ known server;
                  })))
      ]
