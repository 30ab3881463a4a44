-- ===== src/Http/Types.antt =====
-- The data of poolcore that http.cpp reads or fills: of each structure the members that the code
-- names, under its names. `D` is the type of floating point numbers.
use poolfrontend.Prelude.{ℕ, Bool, List, String}
use poolfrontend.Prelude.Int.{ℤ}

-- UserManager::Credentials
pub record Credentials : Type 0 where
  pub login : String
  pub password : String
  pub name : String
  pub email : String
  pub two_factor : String
  pub is_active : Bool
  pub is_read_only : Bool
  pub fee_plan : String
  pub registration_date : ℤ
  pub has_two_factor : Bool

-- UserManager::UserWithAccessRights
pub record UserWithAccessRights : Type 0 where
  pub login : String
  pub is_read_only : Bool

-- UserSettingsRecord
pub record UserSettings : Type 0 where
  pub login : String
  pub coin : String
  pub address : String
  pub minimal_payout : ℤ
  pub auto_payout : Bool

-- UserFeePair, CoinSpecificFeeRecord, UserFeePlanRecord
pub record UserFeePair (D : Type 0) : Type 0 where
  pub user_id : String
  pub percentage : D

pub record CoinSpecificFee (D : Type 0) : Type 0 where
  pub coin_name : String
  pub config : List (UserFeePair D)

pub record UserFeePlan (D : Type 0) : Type 0 where
  pub fee_plan_id : String
  pub default : List (UserFeePair D)
  pub coin_specific_fee : List (CoinSpecificFee D)

-- CCoinInfo; `power_unit_name` is what getPowerUnitName() returns
pub record CoinInfo : Type 0 where
  pub name : String
  pub full_name : String
  pub algorithm : String
  pub rational_part_size : ℤ
  pub extra_multiplier : ℤ
  pub payout_address_type : ℕ
  pub power_mult_log10 : ℤ
  pub power_unit_name : String

-- StatisticDb::CStats
pub record Stats (D : Type 0) : Type 0 where
  pub worker_id : String
  pub time : ℤ
  pub clients_num : ℤ
  pub workers_num : ℤ
  pub shares_per_second : D
  pub shares_work : D
  pub average_power : ℤ
  pub last_share_time : ℤ

-- StatisticDb::CredentialsWithStatistic
pub record CredentialsWithStatistic (D : Type 0) : Type 0 where
  pub credentials : Credentials
  pub workers_num : ℤ
  pub shares_per_second : D
  pub average_power : ℤ
  pub last_share_time : ℤ

-- AccountingDb::UserBalanceInfo; `balance` is Data.Balance.getRational as a function of its
-- argument
pub record UserBalance : Type 0 where
  pub balance : ℤ → ℤ
  pub requested : ℤ
  pub paid : ℤ
  pub queued : ℤ

-- FoundBlockRecord, with the confirmations that stand at the same index
pub record FoundBlock : Type 0 where
  pub height : ℤ
  pub hash : String
  pub public_hash : String
  pub time : ℤ
  pub available_coins : ℤ
  pub found_by : String
  pub confirmations : ℤ

-- PayoutDbRecord
pub record Payout : Type 0 where
  pub time : ℤ
  pub transaction_id : String
  pub value : ℤ
  pub status : ℤ

-- CPPLNSPayout
pub record PplnsPayout (D : Type 0) : Type 0 where
  pub round_start_time : ℤ
  pub round_end_time : ℤ
  pub block_hash : String
  pub block_height : ℤ
  pub payout_value : ℤ
  pub rate_to_btc : D
  pub rate_btc_to_usd : D

-- AccountingDb::CPPLNSPayoutAcc
pub record PplnsPayoutAcc (D : Type 0) : Type 0 where
  pub interval_end : ℤ
  pub total_coin : ℤ
  pub total_btc : ℤ
  pub total_usd : D
  pub avg_hash_rate : ℤ

-- StatisticDb::CredentialsWithStatistic::EColumns and StatisticDb::EStatsColumn
pub data UserColumn : Type 0 where
  login workers_num average_power shares_per_second last_share_time : UserColumn

pub data StatsColumn : Type 0 where
  name average_power shares_per_second last_share_time : StatsColumn
