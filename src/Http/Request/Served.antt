-- ===== src/Http/Request/Served.antt =====
-- Every request is answered once, and the reference that was taken for an asynchronous call is
-- given back after the reply is written.
use poolfrontend.Prelude.{ℕ, suc, ◌≡◌, refl, List, [], ◌∷◌, ◌++◌, String, Bool}
use poolfrontend.Json.{Json}
use poolfrontend.Http.Services.{Services}
use poolfrontend.Http.Types.{Credentials, UserColumn}
use poolfrontend.Http.Handler.{
  Trace, write, start, increment_reference, decrement_reference, set_profit_switch_coeff,
  ServiceCall, Reply, user_action, user_create, user_resend_email, user_login, user_logout,
  user_query_monitoring_session, user_change_password_initiate, user_change_password_force,
  update_credentials, update_settings, enumerate_users, query_all_users_stats, update_fee_plan,
  change_fee_plan, activate2fa_initiate, deactivate2fa_initiate, manual_payout, query_user_balance,
  query_user_balance_multi, query_user_stats, query_found_blocks, query_pool_stats,
  query_pool_stats_multi, query_pplns_payouts, query_pplns_acc, pool_luck, query_mining_stats,
}
use poolfrontend.Http.Lookup.{Server}
use poolfrontend.Http.Callback.{Answer, callback}
use poolfrontend.Http.Responds.{Responds, answered, configured, pending}
use poolfrontend.Http.Request.{run_calls, writes, increments, decrements}

-- What a callback does: it writes the reply and then gives the reference back, or it starts the
-- query for the statistics of the users that were enumerated.
data Finishes {j : Json} {s : Services j} : Trace j s → Type 0 where
  finishes : (r : Reply j.Double) → Finishes (write r ∷ decrement_reference ∷ [])

data Continues {j : Json} {s : Services j} : Trace j s → Type 0 where
  done : {t : Trace j s} → Finishes t → Continues t
  asks :
      (statistic : s.Statistic) (users : List Credentials) (status : String) (offset size : ℕ)
      (column : UserColumn) (descending : Bool)
      → Continues
          (start (query_all_users_stats statistic users status offset size column descending) ∷ [])

module _ {j : Json} {s : Services j} (server : Server j s) where
  callback-Continues :
      (c : ServiceCall j s) (answer : Answer c) → Continues (callback j s server c answer)
  unfolding callback
  callback-Continues (user_action a b c) answer = done (finishes _)
  callback-Continues (user_create a b) answer = done (finishes _)
  callback-Continues (user_resend_email a) answer = done (finishes _)
  callback-Continues (user_login a) answer = done (finishes _)
  callback-Continues (user_logout a) answer = done (finishes _)
  callback-Continues (user_query_monitoring_session a b) answer = done (finishes _)
  callback-Continues (user_change_password_initiate a) answer = done (finishes _)
  callback-Continues (user_change_password_force a b c) answer = done (finishes _)
  callback-Continues (update_credentials a b c) answer = done (finishes _)
  callback-Continues (update_settings a b) answer = done (finishes _)
  callback-Continues (enumerate_users a b c d e f) answer = asks b answer.1 answer.0 c d e f
  callback-Continues (query_all_users_stats a b c d e f g) answer = done (finishes _)
  callback-Continues (update_fee_plan a b) answer = done (finishes _)
  callback-Continues (change_fee_plan a b c) answer = done (finishes _)
  callback-Continues (activate2fa_initiate a b) answer = done (finishes _)
  callback-Continues (deactivate2fa_initiate a b) answer = done (finishes _)
  callback-Continues (manual_payout a b) answer = done (finishes _)
  callback-Continues (query_user_balance a b) answer = done (finishes _)
  callback-Continues (query_user_balance_multi a b) answer = done (finishes _)
  callback-Continues (query_user_stats a b c d e f) answer = done (finishes _)
  callback-Continues (query_found_blocks a b c d) answer = done (finishes _)
  callback-Continues (query_pool_stats a) answer = done (finishes _)
  callback-Continues (query_pool_stats_multi a) answer = done (finishes _)
  callback-Continues (query_pplns_payouts a b c d e) answer = done (finishes _)
  callback-Continues (query_pplns_acc a b c d e) answer = done (finishes _)
  callback-Continues (pool_luck a b) answer = done (finishes _)
  callback-Continues (query_mining_stats a) answer = done (finishes _)

-- A request that is finished: a reply at once; or a reference taken, the call, the one that its
-- callback may start, the reply, and the reference given back as the last event.
pub data Completed {j : Json} {s : Services j} : Trace j s → Type 0 where
  at_once : (r : Reply j.Double) → Completed (write r ∷ [])
  after_setting :
      (b : s.Backend) (d : j.Double) (r : Reply j.Double)
      → Completed (set_profit_switch_coeff b d ∷ write r ∷ [])
  after_call :
      (c : ServiceCall j s) (r : Reply j.Double)
      → Completed (increment_reference ∷ start c ∷ write r ∷ decrement_reference ∷ [])
  after_two_calls :
      (c d : ServiceCall j s) (r : Reply j.Double)
      → Completed (increment_reference ∷ start c ∷ start d ∷ write r ∷ decrement_reference ∷ [])

pub writes-Completed :
    {j : Json} {s : Services j} {t : Trace j s}
    → Completed t
    → (writes t ≡ 1) × (increments t ≡ decrements t)
writes-Completed (at_once r) = (refl, refl)
writes-Completed (after_setting b d r) = (refl, refl)
writes-Completed (after_call c r) = (refl, refl)
writes-Completed (after_two_calls c d r) = (refl, refl)

module _ {j : Json} {s : Services j} (server : Server j s)
    (answer : (c : ServiceCall j s) → Answer c) where
  after_finish :
      (n : ℕ) (c : ServiceCall j s) {t : Trace j s}
      → Finishes t
      → Completed (increment_reference ∷ start c ∷ (run_calls j s server answer (suc n) t ++ []))
  unfolding run_calls
  after_finish n c (finishes r) = after_call c r

  after_second :
      (n : ℕ) (c d : ServiceCall j s) {t : Trace j s}
      → Finishes t
      → Completed (
          increment_reference
          ∷ start c
          ∷ ((start d ∷ (run_calls j s server answer (suc n) t ++ [])) ++ []))
  unfolding run_calls
  after_second n c d (finishes r) = after_two_calls c d r

  query_all_users_stats-Finishes :
      (statistic : s.Statistic) (users : List Credentials) (status : String) (offset size : ℕ)
      (column : UserColumn) (descending : Bool)
      → let c = query_all_users_stats statistic users status offset size column descending in
        Finishes (callback j s server c (answer c))
  unfolding callback
  query_all_users_stats-Finishes statistic users status offset size column descending = finishes _

  after_start :
      (n : ℕ) (c : ServiceCall j s) {t : Trace j s}
      → Continues t
      → Completed
          (increment_reference ∷ start c ∷ (run_calls j s server answer (suc (suc n)) t ++ []))
  unfolding run_calls
  after_start n c (done f) = after_finish (suc n) c f
  after_start n c (asks statistic users status offset size column descending) =
      after_second n c _
        (query_all_users_stats-Finishes statistic users status offset size column descending)

  -- Three rounds of calls are enough for whatever a handler does.
  pub run_calls-Completed :
      (n : ℕ) {t : Trace j s}
      → Responds t
      → Completed (run_calls j s server answer (suc (suc (suc n))) t)
  unfolding run_calls
  run_calls-Completed n (answered r) = at_once r
  run_calls-Completed n (configured b d r) = after_setting b d r
  run_calls-Completed n (pending c) = after_start n c (callback-Continues server c (answer c))
