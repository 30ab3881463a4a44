-- ===== src/NodeRpc/Examples.antt =====
-- The tool on concrete command lines.
use poolfrontend.Prelude.{refl, ◌≡◌, [], ◌∷◌, String, some, str_eq, arith}
use poolfrontend.Prelude.Int.{pos}
use poolfrontend.NodeRpc.Types.{Tool}
use poolfrontend.NodeRpc.Options.{
  node, coin, address, method, mining_addresses, no_options, parse_options, split_loop,
  split_commas, size,
}
use poolfrontend.Start.Text.{split_at}
use poolfrontend.NodeRpc.Run.{find_command, main}
use poolfrontend.NodeRpc.Sends.{Proper, find_command-Proper}
use poolfrontend.NodeRpc.Checked.{Mains, main-Mains}
use poolfrontend.NodeRpc.Split.{
  Splits, split_loop-Splits, IsCut, split_commas-IsCut, none_left, piece, join, split_commas-join,
}

abbrev sample_tool : Tool
sample_tool = record {
  CoinInfo = String;
  get = λ s. s;
  name = λ s. s;
  check_address = λ s t. str_eq t "alice";
  parse_money_value = λ s t. some (pos 7);
  xatoi = λ t. 3;
}

find_command-Proper_example :
    Proper sample_tool "BTC"
      ("alice" ∷ "bob" ∷ "0.1" ∷ [])
      (find_command sample_tool "BTC" ("alice" ∷ "bob" ∷ "0.1" ∷ []) "buildTransaction")
find_command-Proper_example =
    find_command-Proper sample_tool "BTC" ("alice" ∷ "bob" ∷ "0.1" ∷ []) "buildTransaction"

main-Mains_example :
    Mains sample_tool []
      (parse_options no_options (
        node "ethereumrpc"
        ∷ coin "ETH"
        ∷ address "localhost"
        ∷ method "getBalance"
        ∷ mining_addresses "alice"
        ∷ []))
      (main sample_tool
        (node "ethereumrpc"
          ∷ coin "ETH"
          ∷ address "localhost"
          ∷ method "getBalance"
          ∷ mining_addresses "alice"
          ∷ [])
        [])
main-Mains_example =
    main-Mains sample_tool
      (node "ethereumrpc"
        ∷ coin "ETH"
        ∷ address "localhost"
        ∷ method "getBalance"
        ∷ mining_addresses "alice"
        ∷ [])
      []

split_loop-Splits_example : Splits "a,b" (split_loop 5 "a,b")
unfolding size
split_loop-Splits_example = split_loop-Splits 5 "a,b" (omega arith)

split_commas-IsCut_example : IsCut "a,b" (split_commas "a,b")
split_commas-IsCut_example = split_commas-IsCut "a,b"

split_commas-join_example : split_commas (join ("a" ∷ "" ∷ "b" ∷ [])) ≡ "a" ∷ "" ∷ "b" ∷ []
unfolding split_at
split_commas-join_example =
    split_commas-join "a" ("" ∷ "b" ∷ []) (piece refl (piece refl (piece refl none_left)))
