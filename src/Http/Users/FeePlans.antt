-- ===== src/Http/Users/FeePlans.antt =====
-- The fee plan handlers of http.cpp, with the reader of a fee configuration and the writer of a
-- plan.
use poolfrontend.Prelude.{◌&&◌, ◌⊎◌, inl, inr, List, [], ◌∷◌, map, String, if◌then◌else◌}
use poolfrontend.Json.{Json}
use poolfrontend.Http.Out.{Out, obj, arr, str, double}
use poolfrontend.Http.Services.{Services}
use poolfrontend.Http.Types.{UserFeePair, CoinSpecificFee, UserFeePlan}
use poolfrontend.Http.Handler.{
  Handler, ◌>>=◌, ◌>>◌, pure, invalidate, reply, page, reply_with_status, start_call, require_some,
  require_valid, update_fee_plan, change_fee_plan,
}
use poolfrontend.Http.Fields.{json_parse_string, json_parse_number}
use poolfrontend.Http.Lookup.{Server, find_backend}

module _ {D : Type 0} where
  -- addUserFeeConfig
  unfoldable pub user_fee_config_out : List (UserFeePair D) → Out D
  user_fee_config_out config = arr (
      map (λ pair. obj (("userId", str pair.user_id) ∷ ("percentage", double pair.percentage) ∷ []))
        config)

  -- addUserFeePlan
  unfoldable pub user_fee_plan_out : UserFeePlan D → Out D
  unfolding user_fee_config_out
  user_fee_plan_out plan = obj (
      ("feePlanId", str plan.fee_plan_id)
      ∷ ("default", user_fee_config_out plan.default)
      ∷ (
        "coinSpecificFee",
        arr (
            map
              (λ fee.
                obj (("coin", str fee.coin_name) ∷ ("config", user_fee_config_out fee.config) ∷ []))
              plan.coin_specific_fee),
      )
      ∷ [])

module _ (j : Json) (s : Services j) where
  open j use {Value, Double, has_member, member, is_array, is_object, get_array}

  -- The loop over the pairs stops at the first that is no object.
  unfoldable pub read_fee_pairs : List Value → Handler j s (List (UserFeePair Double))
  read_fee_pairs [] = pure []
  read_fee_pairs (pair ∷ pairs) =
      if is_object pair
      then (do
        user_id ← json_parse_string pair "userId" ""
        percentage ← json_parse_number pair "percentage" j.zero_double
        rest ← read_fee_pairs pairs
        pure (record { user_id = user_id; percentage = percentage } ∷ rest))
      else do invalidate; pure []

  -- jsonParseUserFeeConfig
  unfoldable pub json_parse_user_fee_config :
      Value → String → Handler j s (List (UserFeePair Double))
  unfolding read_fee_pairs
  json_parse_user_fee_config value field_name =
      if has_member value field_name && is_array (member value field_name)
      then read_fee_pairs (get_array (member value field_name))
      else do invalidate; pure []

  unfoldable pub read_specific_fees : List Value → Handler j s (List (CoinSpecificFee Double))
  unfolding json_parse_user_fee_config
  read_specific_fees [] = pure []
  read_specific_fees (fee ∷ fees) =
      if is_object fee
      then (do
        coin_name ← json_parse_string fee "coin" ""
        config ← json_parse_user_fee_config fee "config"
        rest ← read_specific_fees fees
        pure (record { coin_name = coin_name; config = config } ∷ rest))
      else do invalidate; pure []

  -- A field that is missing or no array is passed over.
  unfoldable pub read_coin_specific_fee : Value → Handler j s (List (CoinSpecificFee Double))
  unfolding read_specific_fees
  read_coin_specific_fee document =
      if has_member document "coinSpecificFee" && is_array (member document "coinSpecificFee")
      then read_specific_fees (get_array (member document "coinSpecificFee"))
      else pure []

  -- Every coin named must have a backend.
  unfoldable pub require_backends :
      Server j s → List (CoinSpecificFee Double) → Handler j s (Unit {0})
  require_backends server [] = pure tt
  require_backends server (fee ∷ fees) = do
    require_some (find_backend server fee.coin_name) "invalid_coin"
    require_backends server fees

  unfoldable pub on_user_update_fee_plan : Server j s → Value → Handler j s ⊥
  unfolding read_coin_specific_fee require_backends
  on_user_update_fee_plan server document = do
    session_id ← json_parse_string document "id" ""
    fee_plan_id ← json_parse_string document "feePlanId" ""
    default ← json_parse_user_fee_config document "default"
    coin_specific_fee ← read_coin_specific_fee document
    require_valid
    require_backends server coin_specific_fee
    start_call (
        update_fee_plan session_id (record {
          fee_plan_id = fee_plan_id;
          default = default;
          coin_specific_fee = coin_specific_fee;
        }))

  unfoldable pub fee_plans_reply : String ⊎ List (UserFeePlan Double) → Handler j s ⊥
  fee_plans_reply (inl status) = reply_with_status status
  fee_plans_reply (inr plans) =
      reply (page (obj (("status", str "ok") ∷ ("plans", arr (map user_fee_plan_out plans)) ∷ [])))

  unfoldable pub on_user_enumerate_fee_plan : Value → Handler j s ⊥
  unfolding fee_plans_reply
  on_user_enumerate_fee_plan document = do
    session_id ← json_parse_string document "id" ""
    require_valid
    fee_plans_reply (s.enumerate_fee_plan session_id)

  unfoldable pub fee_plan_reply : String ⊎ UserFeePlan Double → Handler j s ⊥
  fee_plan_reply (inl status) = reply_with_status status
  fee_plan_reply (inr plan) =
      reply (page (obj (("status", str "ok") ∷ ("plan", user_fee_plan_out plan) ∷ [])))

  unfoldable pub on_user_get_fee_plan : Value → Handler j s ⊥
  unfolding fee_plan_reply
  on_user_get_fee_plan document = do
    session_id ← json_parse_string document "id" ""
    fee_plan_id ← json_parse_string document "feePlanId" ""
    require_valid
    fee_plan_reply (s.get_fee_plan session_id fee_plan_id)

  unfoldable pub on_user_change_fee_plan : Value → Handler j s ⊥
  on_user_change_fee_plan document = do
    session_id ← json_parse_string document "id" ""
    target_login ← json_parse_string document "targetLogin" ""
    fee_plan_id ← json_parse_string document "feePlanId" ""
    require_valid
    start_call (change_fee_plan session_id target_login fee_plan_id)
