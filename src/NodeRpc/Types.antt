-- ===== src/NodeRpc/Types.antt =====
-- noderpc.cpp: the requests of CNetworkClient with their answers, and the messages that are logged.
use poolfrontend.Prelude.{ℕ, Bool, Option, List, String}
use poolfrontend.Prelude.Int.{ℤ}

-- CNetworkClient::EOperationStatus, of which the code names four
pub data OperationStatus : Type 0 where
  ok insufficient_funds verify_rejected invalid_address_or_key : OperationStatus
  other : ℕ → OperationStatus

-- CNetworkClient::BuildTransactionResult
pub record Transaction : Type 0 where
  pub tx_data : String
  pub tx_id : String
  pub value : ℤ
  pub fee : ℤ
  pub error : String

-- CNetworkClient::GetBlockExtraInfoQuery, as it is answered
pub record BlockExtraInfo : Type 0 where
  pub confirmations : ℤ
  pub public_hash : String
  pub tx_fee : ℤ
  pub block_reward : ℤ

-- An element of CNetworkClient::ListUnspentResult
pub record Output : Type 0 where
  pub address : String
  pub amount : ℤ
  pub is_coinbase : Bool

pub data Request : Type 0 where
  get_balance : Request
  build_transaction : String → String → ℤ → Request
  send_transaction : String → String → Request
  get_tx_confirmations : String → Request
  get_block_confirmations : String → ℕ → Request
  get_block_extra_info : String → ℕ → Request
  list_unspent : Request
  zsend_many : String → String → ℤ → String → ℕ → ℤ → Request
  zget_balance : String → Request

-- What the node answers: an operation that returns a bool and fails answers nothing.
abbrev pub Answer : Request → Type 0
Answer get_balance = Option (ℤ × ℤ)
Answer (build_transaction destination change value) = OperationStatus × Transaction
Answer (send_transaction tx_data tx_id) = OperationStatus × String
Answer (get_tx_confirmations tx_id) = OperationStatus × ℤ × ℤ × String
Answer (get_block_confirmations hash height) = Option ℤ
Answer (get_block_extra_info hash height) = Option BlockExtraInfo
Answer list_unspent = OperationStatus × List Output
Answer (zsend_many source destination amount memo min_conf fee) = OperationStatus × String × String
Answer (zget_balance address) = OperationStatus × ℤ

-- The calls of LOG_F in the commands, by what they print.
pub data Message : Type 0 where
  usage : String → Message
  balance_and_immature : ℤ → ℤ → Message
  operation_failed : String → Message
  invalid_address : String → String → Message
  invalid_amount : String → String → Message
  no_money_left : Message
  payment_failed : ℤ → String → String → Message
  tx_data : String → Message
  tx_id : String → Message
  real_value : ℤ → Message
  fee : ℤ → Message
  rejected : String → Message
  send_error : String → String → Message
  sending_ok : Message
  not_in_block : String → Message
  check_error : String → String → Message
  confirmations : ℤ → Message
  no_confirmations : String → Message
  public_hash : String → Message
  tx_fee : ℤ → Message
  block_reward : ℤ → Message
  unspent_outputs : Message
  output : Output → Message
  list_unspent_error : OperationStatus → Message
  cannot_parse_amount : String → Message
  cannot_parse_fee : String → Message
  async_op_id : String → Message
  zsend_many_error : String → Message
  balance : ℤ → Message
  zget_balance_error : Message

-- A command: messages at once, or one request and the messages on its answer.
pub data Command : Type 0 where
  say : List Message → Command
  ask : (request : Request) → (Answer request → List Message) → Command

-- What the tool uses of poolcore and p2putils: the coin library, whose entry of an unknown coin
-- has no name, the tests of addresses and amounts for an entry, and the parser of numbers.
pub record Tool : Type 1 where
  pub CoinInfo : Type 0
  pub get : String → CoinInfo
  pub name : CoinInfo → String
  pub check_address : CoinInfo → String → Bool
  pub parse_money_value : CoinInfo → String → Option ℤ
  pub xatoi : String → ℕ
