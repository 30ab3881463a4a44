-- ===== src/Http/Services.antt =====
-- The parts of poolcore that the HTTP front end calls and waits for: the user manager's session
-- and settings queries, the accessors of a backend and of a statistic database, money and address
-- routines, the clock. They are not in the repository, so each is a parameter; a value of
-- `Services` is what they answer while one request is served.
use poolfrontend.Prelude.{ℕ, Bool, List, Option, String, ◌⊎◌}
use poolfrontend.Prelude.Int.{ℤ}
use poolfrontend.Json.{Json}
use poolfrontend.Http.Types.{
  Credentials, UserWithAccessRights, UserSettings, UserFeePlan, CoinInfo, Stats, Payout,
}

pub record Services (j : Json) : Type 1 where
  -- PoolBackend* and StatisticDb*
  pub Backend : Type 0
  pub Statistic : Type 0
  pub backend_coin_info : Backend → CoinInfo
  pub backend_statistic : Backend → Statistic
  pub minimal_allowed_payout : Backend → ℤ
  pub profit_switch_coeff : Backend → j.Double
  pub query_payouts : Backend → String → ℕ → ℕ → List Payout
  pub statistic_coin_info : Statistic → CoinInfo
  pub get_history : Statistic → String → String → ℤ → ℤ → ℤ → List (Stats j.Double)
  -- The session's user, if validateSession(id, targetLogin, _, needWriteAccess) returns true.
  pub validate_session : String → String → Bool → Option UserWithAccessRights
  -- A default-constructed UserManager::Credentials.
  pub default_credentials : Credentials
  pub get_user_credentials : String → Option Credentials
  pub get_user_coin_settings : String → String → Option UserSettings
  -- The error status, or the result.
  pub enumerate_fee_plan : String → String ⊎ List (UserFeePlan j.Double)
  pub get_fee_plan : String → String → String ⊎ UserFeePlan j.Double
  pub coin_info : List CoinInfo
  -- coinIdxMap().find(name), and the entry of coinInfo() at the index found
  pub find_coin : String → Option CoinInfo
  pub check_address : CoinInfo → String → Bool
  pub parse_money_value : String → ℤ → Option ℤ
  pub format_money : ℤ → ℤ → String
  pub time : ℤ
