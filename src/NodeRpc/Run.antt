-- ===== src/NodeRpc/Run.antt =====
-- noderpc.cpp: main.
use poolfrontend.Prelude.{
  ℕ, Bool, true, false, not, ◌&&◌, ◌||◌, Option, none, some, List, [], ◌∷◌, String, str_eq, length,
  ◌==◌, if◌then◌else◌,
}
use poolfrontend.Start.Types.{MiningAddress}
use poolfrontend.NodeRpc.Types.{Tool, Command}
use poolfrontend.NodeRpc.Options.{CmdLineOption, Options, no_options, parsed, exit, parse_options}
use poolfrontend.NodeRpc.Commands.{
  get_balance_coro, build_transaction_coro, send_transaction_coro, get_tx_confirmations_coro,
  get_block_confirmation_coro, get_block_extra_info_coro, list_unspent_coro, zsend_many_coro,
  zget_balance_coro,
}

-- CBitcoinRpcClient and CEthereumRpcClient, by the arguments that differ
pub data Client : Type 0 where
  bitcoin_rpc : String → String → String → String → Client
  ethereum_rpc : String → List MiningAddress → Client

-- How main ends before the event loop, or the command that it runs in it.
pub data Outcome (C : Type 0) : Type 0 where
  ends : ℕ → Outcome C
  not_specified : Outcome C
  keys_differ : Outcome C
  unknown_coin : String → Outcome C
  no_single_address : Outcome C
  unknown_client : String → Outcome C
  unknown_method : String → Outcome C
  runs : C → Client → Command → Outcome C

abbrev pub is_empty : List String → Bool
is_empty [] = true
is_empty (_ ∷ _) = false

-- The mining addresses with their keys, or with no keys when none is given. Each weighs 1.
unfoldable pub mining_addresses : List String → List String → List MiningAddress
mining_addresses [] keys = []
mining_addresses (address ∷ addresses) [] =
    record { address = address; private_key = ""; weight = 1 } ∷ mining_addresses addresses []
mining_addresses (address ∷ addresses) (key ∷ keys) =
    record { address = address; private_key = key; weight = 1 } ∷ mining_addresses addresses keys

module _ (tool : Tool) where
  open tool use {CoinInfo}

  -- The choice of the command by the method's name.
  unfoldable pub find_command : CoinInfo → List String → String → Option Command
  find_command coin_info args method =
      if str_eq method "getBalance"
      then some get_balance_coro
      else if str_eq method "buildTransaction"
      then some (build_transaction_coro tool coin_info args)
      else if str_eq method "sendTransaction"
      then some (send_transaction_coro args)
      else if str_eq method "getTxConfirmations"
      then some (get_tx_confirmations_coro args)
      else if str_eq method "getBlockConfirmation"
      then some (get_block_confirmation_coro tool args)
      else if str_eq method "getBlockExtraInfo"
      then some (get_block_extra_info_coro tool args)
      else if str_eq method "listUnspent"
      then some (list_unspent_coro args)
      else if str_eq method "zsendMany"
      then some (zsend_many_coro tool coin_info args)
      else if str_eq method "zgetBalance"
      then some (zget_balance_coro args)
      else none

  unfoldable pub run_command : CoinInfo → Client → String → Option Command → Outcome CoinInfo
  run_command coin_info client method (some command) = runs coin_info client command
  run_command coin_info client method none = unknown_method method

  -- The client of the node, and the command.
  unfoldable pub create_client : CoinInfo → String → Options → List String → Outcome CoinInfo
  unfolding mining_addresses find_command run_command
  create_client coin_info address o args =
      if str_eq o.type "bitcoinrpc"
      then run_command coin_info (bitcoin_rpc address o.user o.password o.wallet) o.method
          (find_command coin_info args o.method)
      else if str_eq o.type "ethereumrpc"
      then (if (str_eq o.method "getBalance" || str_eq o.method "buildTransaction")
            && not (length o.mining_addresses == 1)
          then no_single_address
          else run_command coin_info
              (ethereum_rpc address (mining_addresses o.mining_addresses o.private_keys)) o.method
              (find_command coin_info args o.method))
      else unknown_client o.type

  -- The tests of the options together, with the address.
  unfoldable pub check_given : Options → List String → Option String → Outcome CoinInfo
  unfolding create_client
  check_given o args none = not_specified
  check_given o args (some address) =
      if str_eq o.type "" || str_eq o.coin "" || str_eq o.method ""
      then not_specified
      else if not (is_empty o.private_keys)
          && not (length o.private_keys == length o.mining_addresses)
      then keys_differ
      else if str_eq (tool.name (tool.get o.coin)) ""
      then unknown_coin o.coin
      else create_client (tool.get o.coin) address o args

  unfoldable pub check_options : Options → List String → Outcome CoinInfo
  unfolding check_given
  check_options o args = check_given o args o.address

  -- main: the options that getopt_long answers, and the arguments behind them.
  unfoldable pub main : List CmdLineOption → List String → Outcome CoinInfo
  unfolding no_options parse_options check_options
  main options args = elim (parse_options no_options options) [
    | parsed o ↦ check_options o args
    | exit status ↦ ends status
  ]
