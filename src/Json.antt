-- ===== src/Json.antt =====
-- The interface of rapidjson that the program uses: the queries on a parsed value. The library is
-- not part of the repository, so a value and the queries are parameters, and so are its floating
-- point numbers. `member v name` stands for `v[name]`, which the code calls only after
-- `HasMember`; `get_array` lists the elements of an array in order.
pub mod Sample
use poolfrontend.Prelude.{ℕ, Bool, List, String}
use poolfrontend.Prelude.Int.{ℤ}

pub record Json : Type 1 where
  pub Value : Type 0
  pub Double : Type 0
  pub has_member : Value → String → Bool
  pub member : Value → String → Value
  pub is_object : Value → Bool
  pub is_array : Value → Bool
  pub is_string : Value → Bool
  pub is_bool : Value → Bool
  pub is_int64 : Value → Bool
  pub is_uint64 : Value → Bool
  pub is_uint : Value → Bool
  pub is_number : Value → Bool
  pub is_float : Value → Bool
  pub is_double : Value → Bool
  pub get_array : Value → List Value
  pub get_string : Value → String
  pub get_bool : Value → Bool
  pub get_int64 : Value → ℤ
  pub get_uint64 : Value → ℕ
  pub get_uint : Value → ℕ
  pub get_double : Value → Double
  -- 0.0, std::isnan, std::isinf and static_cast<double>
  pub zero_double : Double
  pub is_nan : Double → Bool
  pub is_inf : Double → Bool
  pub double_of : ℕ → Double
