-- ===== src/Http/Responds/Loops.antt =====
-- The loops inside the handlers of http.cpp, over the fee configuration of a plan and over the
-- intervals of a luck query: they go on, or return with the one reply that `P` must allow.
use poolfrontend.Prelude.{List, [], ◌∷◌, String}
use poolfrontend.Prelude.Int.{ℤ}
use poolfrontend.Json.{Json}
use poolfrontend.Http.Services.{Services}
use poolfrontend.Http.Types.{CoinSpecificFee}
use poolfrontend.Http.Handler.{Trace, write, status_reply}
use poolfrontend.Http.Handler.Obeys.{
  Obeys, handler_rules, Obeys-pure, Obeys-if, Obeys-bind, Obeys-invalidate,
}
use poolfrontend.Http.Fields.Quiet.{Obeys-json_parse_string, Obeys-json_parse_number}
use poolfrontend.Http.Lookup.{Server}
use poolfrontend.Http.Users.FeePlans.{
  read_fee_pairs, json_parse_user_fee_config, read_specific_fees, read_coin_specific_fee,
  require_backends,
}
use poolfrontend.Http.Backend.{read_intervals}

module _ {j : Json} {s : Services j} {P : Trace j s → Type 0} where
  read_fee_pairs-Obeys : (pairs : List j.Value) → Obeys P (read_fee_pairs j s pairs)
  unfolding read_fee_pairs
  read_fee_pairs-Obeys [] = Obeys-pure []
  read_fee_pairs-Obeys (pair ∷ pairs) =
      Obeys-if (j.is_object pair) _ _
        (λ _. Obeys-bind _ _ (Obeys-json_parse_string pair "userId" "") λ _.
          Obeys-bind _ _ (Obeys-json_parse_number pair "percentage" j.zero_double)
            λ _. Obeys-bind _ _ (read_fee_pairs-Obeys pairs) λ _. Obeys-pure _)
        (λ _. Obeys-bind _ _ Obeys-invalidate λ _. Obeys-pure [])

  pub json_parse_user_fee_config-Obeys :
      (value : j.Value) (field_name : String)
      → Obeys P (json_parse_user_fee_config j s value field_name)
  unfolding json_parse_user_fee_config
  json_parse_user_fee_config-Obeys value field_name =
      search (handler_rules, read_fee_pairs-Obeys) depth 9

  read_specific_fees-Obeys : (fees : List j.Value) → Obeys P (read_specific_fees j s fees)
  unfolding read_specific_fees
  read_specific_fees-Obeys [] = Obeys-pure []
  read_specific_fees-Obeys (fee ∷ fees) =
      Obeys-if (j.is_object fee) _ _
        (λ _. Obeys-bind _ _ (Obeys-json_parse_string fee "coin" "") λ _.
          Obeys-bind _ _ (json_parse_user_fee_config-Obeys fee "config")
            λ _. Obeys-bind _ _ (read_specific_fees-Obeys fees) λ _. Obeys-pure _)
        (λ _. Obeys-bind _ _ Obeys-invalidate λ _. Obeys-pure [])

  pub read_coin_specific_fee-Obeys :
      (document : j.Value) → Obeys P (read_coin_specific_fee j s document)
  unfolding read_coin_specific_fee
  read_coin_specific_fee-Obeys document = search (handler_rules, read_specific_fees-Obeys) depth 9

  pub require_backends-Obeys :
      (server : Server j s) (fees : List (CoinSpecificFee j.Double))
      → P (write (status_reply "invalid_coin") ∷ [])
      → Obeys P (require_backends j s server fees)
  unfolding require_backends
  require_backends-Obeys server [] p = Obeys-pure tt
  require_backends-Obeys server (fee ∷ fees) p =
      search (handler_rules, require_backends-Obeys server fees p) depth 9

  pub read_intervals-Obeys :
      (prev_interval : ℤ) (vs : List j.Value)
      → P (write (status_reply "json_format_error") ∷ [])
      → Obeys P (read_intervals j s prev_interval vs)
  unfolding read_intervals
  read_intervals-Obeys prev_interval [] p = Obeys-pure []
  read_intervals-Obeys prev_interval (v ∷ vs) p =
      search (handler_rules, read_intervals-Obeys (j.get_int64 v) vs p) depth 9
