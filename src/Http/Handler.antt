-- ===== src/Http/Handler.antt =====
-- How a handler of PoolHttpConnection runs. What it does to the outside is a list of events in
-- order: references to the socket object taken and dropped, asynchronous operations started,
-- replies written, the one setting changed. A handler is a computation over a frame, which holds
-- the accumulator `validAcc` and the events so far; it goes on with a value, or returns early.
pub mod Obeys
pub mod Runs
use poolfrontend.Prelude.{ℕ, Bool, true, false, List, [], ◌∷◌, ◌++◌, Option, none, some, String}
use poolfrontend.Prelude.Int.{ℤ}
use poolfrontend.Json.{Json}
use poolfrontend.Http.Out.{Out, obj, str}
use poolfrontend.Http.Services.{Services}
use poolfrontend.Http.Types.{Credentials, UserSettings, UserFeePlan, UserColumn, StatsColumn}

-- What aioWrite is given: a 200 reply with a JSON body, with a fixed text, or with the text that
-- the mining statistics produced; or the 404 page.
pub data Reply (D : Type 0) : Type 0 where
  page : Out D → Reply D
  text : String → Reply D
  not_found : Reply D

-- The reply of replyWithStatus.
abbrev pub status_reply : {D : Type 0} → String → Reply D
status_reply status = page (obj (("status", str status) ∷ []))

-- The asynchronous operations of poolcore that a handler starts, with their arguments.
pub data ServiceCall (j : Json) (s : Services j) : Type 0 where
  user_action : String → String → String → ServiceCall j s
  user_create : String → Credentials → ServiceCall j s
  user_resend_email : Credentials → ServiceCall j s
  user_login : Credentials → ServiceCall j s
  user_logout : String → ServiceCall j s
  user_query_monitoring_session : String → String → ServiceCall j s
  user_change_password_initiate : String → ServiceCall j s
  user_change_password_force : String → String → String → ServiceCall j s
  update_credentials : String → String → Credentials → ServiceCall j s
  update_settings : UserSettings → String → ServiceCall j s
  enumerate_users : String → s.Statistic → ℕ → ℕ → UserColumn → Bool → ServiceCall j s
  query_all_users_stats :
      s.Statistic → List Credentials → String → ℕ → ℕ → UserColumn → Bool → ServiceCall j s
  update_fee_plan : String → UserFeePlan j.Double → ServiceCall j s
  change_fee_plan : String → String → String → ServiceCall j s
  activate2fa_initiate : String → String → ServiceCall j s
  deactivate2fa_initiate : String → String → ServiceCall j s
  manual_payout : s.Backend → String → ServiceCall j s
  query_user_balance : s.Backend → String → ServiceCall j s
  query_user_balance_multi : List s.Backend → String → ServiceCall j s
  query_user_stats : s.Statistic → String → ℕ → ℕ → StatsColumn → Bool → ServiceCall j s
  query_found_blocks : s.Backend → ℤ → String → ℕ → ServiceCall j s
  query_pool_stats : s.Statistic → ServiceCall j s
  query_pool_stats_multi : List s.Statistic → ServiceCall j s
  query_pplns_payouts : s.Backend → String → ℤ → String → ℕ → ServiceCall j s
  query_pplns_acc : s.Backend → String → ℤ → ℤ → ℤ → ServiceCall j s
  pool_luck : s.Backend → List ℤ → ServiceCall j s
  query_mining_stats : j.Value → ServiceCall j s

pub data Event (j : Json) (s : Services j) : Type 0 where
  increment_reference : Event j s
  decrement_reference : Event j s
  start : ServiceCall j s → Event j s
  write : Reply j.Double → Event j s
  set_profit_switch_coeff : s.Backend → j.Double → Event j s

module _ (j : Json) (s : Services j) where
  abbrev pub Trace : Type 0
  Trace = List (Event j s)

  pub record Frame : Type 0 where
    pub valid : Bool
    pub trace : Trace

  pub data Outcome (A : Type 0) : Type 0 where
    next : A → Frame → Outcome A
    returned : Trace → Outcome A

  abbrev pub Handler : Type 0 → Type 0
  Handler A = Frame → Outcome A

module _ {j : Json} {s : Services j} where
  infixl 5 ◌>>=◌ ◌>>◌
  unfoldable pub ◌>>=◌ : {A B : Type 0} → Handler j s A → (A → Handler j s B) → Handler j s B
  ◌>>=◌ m f fr = elim (m fr) [ next a fr' ↦ f a fr' | returned t ↦ returned t ]

  abbrev pub ◌>>◌ : {A B : Type 0} → Handler j s A → Handler j s B → Handler j s B
  ◌>>◌ m k = m >>= λ _. k

  unfoldable pub pure : {A : Type 0} → A → Handler j s A
  pure a fr = next a fr

  -- `return;`
  unfoldable pub exit : Handler j s ⊥
  exit fr = returned fr.trace

  unfoldable pub emit : Event j s → Handler j s (Unit {0})
  emit event fr = next tt (record fr { trace = fr.trace ++ event ∷ [] })

  -- `validAcc = false;`
  unfoldable pub invalidate : Handler j s (Unit {0})
  invalidate fr = next tt (record fr { valid = false })

  -- finishChunk and aioWrite of the reply that was built, at the end of a handler.
  unfoldable pub reply : Reply j.Double → Handler j s ⊥
  unfolding ◌>>=◌ emit exit
  reply r = do emit (write r); exit

  -- `replyWithStatus(status); return;`
  unfoldable pub reply_with_status : String → Handler j s ⊥
  unfolding reply
  reply_with_status status = reply (status_reply status)

  -- `objectIncrementReference(…, 1);` and the call that takes the callback.
  unfoldable pub start_call : ServiceCall j s → Handler j s ⊥
  unfolding ◌>>=◌ emit exit
  start_call call = do emit increment_reference; emit (start call); exit

  -- `if (!test) { replyWithStatus(status); return; }`
  unfoldable pub require : Bool → String → Handler j s (Unit {0})
  unfolding ◌>>=◌ pure reply_with_status
  require true status = pure tt
  require false status = do never ← reply_with_status status; absurd never

  -- The same where the test also yields a value: a lookup, validateSession, parseMoneyValue.
  unfoldable pub require_some : {A : Type 0} → Option A → String → Handler j s A
  unfolding ◌>>=◌ pure reply_with_status
  require_some (some a) status = pure a
  require_some none status = do never ← reply_with_status status; absurd never

  -- `if (!validAcc) { replyWithStatus("json_format_error"); return; }`
  unfoldable pub require_valid : Handler j s (Unit {0})
  unfolding require
  require_valid fr = require fr.valid "json_format_error" fr

  abbrev ended : Outcome j s ⊥ → Trace j s
  ended (next never fr) = absurd never
  ended (returned t) = t

  -- The events of a handler that begins with `bool validAcc = true;`.
  unfoldable pub events : Handler j s ⊥ → Trace j s
  events m = ended (m (record { valid = true; trace = [] }))
