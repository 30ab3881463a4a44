-- ===== src/NodeRpc/Commands.antt =====
-- noderpc.cpp: the commands, run as coroutines with the arguments behind the options.
use poolfrontend.Prelude.{Option, none, some, List, [], ◌∷◌, map, String, if◌then◌else◌}
use poolfrontend.Prelude.Int.{ℤ}
use poolfrontend.NodeRpc.Types.{
  OperationStatus, ok, insufficient_funds, verify_rejected, invalid_address_or_key, Transaction,
  BlockExtraInfo, Output, Request, get_balance, build_transaction, send_transaction,
  get_tx_confirmations, get_block_confirmations, get_block_extra_info, list_unspent, zsend_many,
  zget_balance, Answer, Message, usage, balance_and_immature, operation_failed, invalid_address,
  invalid_amount, no_money_left, payment_failed, real_value, rejected, send_error, sending_ok,
  not_in_block, check_error, confirmations, no_confirmations, block_reward, unspent_outputs, output,
  list_unspent_error, cannot_parse_amount, cannot_parse_fee, async_op_id, zsend_many_error, balance,
  zget_balance_error, Command, say, ask, Tool,
}
use poolfrontend.NodeRpc.Types as T

unfoldable pub on_get_balance : Option (ℤ × ℤ) → List Message
on_get_balance (some (amount, immatured)) = balance_and_immature amount immatured ∷ []
on_get_balance none = operation_failed "ioGetBalance" ∷ []

-- getBalanceCoro
unfoldable pub get_balance_coro : Command
get_balance_coro = ask get_balance on_get_balance

unfoldable pub on_build_transaction : ℤ → String → OperationStatus × Transaction → List Message
on_build_transaction value destination (ok, transaction) =
    T.tx_data transaction.tx_data
    ∷ T.tx_id transaction.tx_id
    ∷ real_value transaction.value
    ∷ T.fee transaction.fee
    ∷ []
on_build_transaction value destination (insufficient_funds, transaction) = no_money_left ∷ []
on_build_transaction value destination (_, transaction) =
    payment_failed value destination transaction.error ∷ []

unfoldable pub on_send_transaction : String → OperationStatus × String → List Message
on_send_transaction data_ (ok, error) = sending_ok ∷ []
on_send_transaction data_ (verify_rejected, error) = rejected data_ ∷ []
on_send_transaction data_ (_, error) = send_error data_ error ∷ []

-- sendTransactionCoro
unfoldable pub send_transaction_coro : List String → Command
send_transaction_coro (data_ ∷ id ∷ []) =
    ask (send_transaction data_ id) (on_send_transaction data_)
send_transaction_coro _ = say (usage "sendTransaction <txdata> <txid>" ∷ [])

unfoldable pub on_get_tx_confirmations : String → OperationStatus × ℤ × ℤ × String → List Message
on_get_tx_confirmations id (ok, n, tx_fee_, error) = confirmations n ∷ T.fee tx_fee_ ∷ []
on_get_tx_confirmations id (invalid_address_or_key, n, tx_fee_, error) = not_in_block id ∷ []
on_get_tx_confirmations id (_, n, tx_fee_, error) = check_error id error ∷ []

-- getTxConfirmationsCoro
unfoldable pub get_tx_confirmations_coro : List String → Command
get_tx_confirmations_coro (id ∷ []) = ask (get_tx_confirmations id) (on_get_tx_confirmations id)
get_tx_confirmations_coro _ = say (usage "getTxConfirmations <txid>" ∷ [])

unfoldable pub on_get_block_confirmations : String → Option ℤ → List Message
on_get_block_confirmations hash (some n) = confirmations n ∷ []
on_get_block_confirmations hash none = no_confirmations hash ∷ []

unfoldable pub on_get_block_extra_info : String → Option BlockExtraInfo → List Message
on_get_block_extra_info hash (some info) =
    confirmations info.confirmations
    ∷ T.public_hash info.public_hash
    ∷ T.tx_fee info.tx_fee
    ∷ block_reward info.block_reward
    ∷ []
on_get_block_extra_info hash none = no_confirmations hash ∷ []

unfoldable pub on_list_unspent : OperationStatus × List Output → List Message
on_list_unspent (ok, outs) = unspent_outputs ∷ map output outs
on_list_unspent (status, outs) = list_unspent_error status ∷ []

-- listUnspentCoro
unfoldable pub list_unspent_coro : List String → Command
list_unspent_coro [] = ask list_unspent on_list_unspent
list_unspent_coro (_ ∷ _) = say (usage "listUnspent" ∷ [])

unfoldable pub on_zsend_many : OperationStatus × String × String → List Message
on_zsend_many (ok, id, error) = async_op_id id ∷ []
on_zsend_many (_, id, error) = zsend_many_error error ∷ []

unfoldable pub on_zget_balance : OperationStatus × ℤ → List Message
on_zget_balance (ok, n) = balance n ∷ []
on_zget_balance (_, n) = zget_balance_error ∷ []

-- zgetBalanceCoro
unfoldable pub zget_balance_coro : List String → Command
zget_balance_coro (address ∷ []) = ask (zget_balance address) on_zget_balance
zget_balance_coro _ = say (usage "zgetBalance <address>" ∷ [])

module _ (tool : Tool) where
  open tool use {CoinInfo}

  unfoldable pub build_payment : CoinInfo → String → String → String → Option ℤ → Command
  build_payment coin_info destination change amount none =
      say (invalid_amount amount (tool.name coin_info) ∷ [])
  build_payment coin_info destination change amount (some value) =
      ask (build_transaction destination change value) (on_build_transaction value destination)

  -- buildTransactionCoro
  unfoldable pub build_transaction_coro : CoinInfo → List String → Command
  unfolding build_payment
  build_transaction_coro coin_info (destination ∷ change ∷ amount ∷ []) =
      if tool.check_address coin_info destination
      then build_payment coin_info destination change amount
          (tool.parse_money_value coin_info amount)
      else say (invalid_address (tool.name coin_info) destination ∷ [])
  build_transaction_coro coin_info _ =
      say (usage "buildTransaction <address> <change_address> <amount>" ∷ [])

  -- getBlockConfirmationCoro
  unfoldable pub get_block_confirmation_coro : List String → Command
  get_block_confirmation_coro (hash ∷ height ∷ []) =
      ask (get_block_confirmations hash (tool.xatoi height)) (on_get_block_confirmations hash)
  get_block_confirmation_coro _ = say (usage "getBlockConfirmation <hash> <height>" ∷ [])

  -- getBlockExtraInfoCoro
  unfoldable pub get_block_extra_info_coro : List String → Command
  get_block_extra_info_coro (hash ∷ height ∷ []) =
      ask (get_block_extra_info hash (tool.xatoi height)) (on_get_block_extra_info hash)
  get_block_extra_info_coro _ = say (usage "getBlockExtraInfo <hash> <height>" ∷ [])

  unfoldable pub zsend :
      String → String → String → String → String → String → Option ℤ → Option ℤ → Command
  zsend source destination amount memo min_conf fee_ none _ = say (cannot_parse_amount amount ∷ [])
  zsend source destination amount memo min_conf fee_ (some value) none =
      say (cannot_parse_fee fee_ ∷ [])
  zsend source destination amount memo min_conf fee_ (some value) (some fee_value) =
      ask (zsend_many source destination value memo (tool.xatoi min_conf) fee_value) on_zsend_many

  -- zsendManyCoro
  unfoldable pub zsend_many_coro : CoinInfo → List String → Command
  unfolding zsend
  zsend_many_coro coin_info (source ∷ destination ∷ amount ∷ memo ∷ min_conf ∷ fee_ ∷ []) =
      zsend source destination amount memo min_conf fee_ (tool.parse_money_value coin_info amount)
        (tool.parse_money_value coin_info fee_)
  zsend_many_coro coin_info _ =
      say (usage "zsendMany <source> <destination> <amount> <memo> <minconf> <fee>" ∷ [])
