-- ===== src/NodeRpc/Answered.antt =====
-- noderpc.cpp: whatever the node answers, a command logs a message.
use poolfrontend.Prelude.{Option, none, some, List, [], ◌∷◌, String}
use poolfrontend.Prelude.Int.{ℤ}
use poolfrontend.NodeRpc.Types.{
  Message, OperationStatus, ok, insufficient_funds, verify_rejected, invalid_address_or_key, other,
  Transaction, BlockExtraInfo, Output,
}
use poolfrontend.NodeRpc.Commands.{
  on_get_balance, on_build_transaction, on_send_transaction, on_get_tx_confirmations,
  on_get_block_confirmations, on_get_block_extra_info, on_list_unspent, on_zsend_many,
  on_zget_balance,
}

abbrev pub IsNonEmpty : List Message → Type 0
IsNonEmpty [] = ⊥
IsNonEmpty (_ ∷ _) = Unit

pub answered_get_balance : (a : Option (ℤ × ℤ)) → IsNonEmpty (on_get_balance a)
unfolding on_get_balance
answered_get_balance (some (x, y)) = tt
answered_get_balance none = tt

pub answered_build_transaction :
    (value : ℤ) (destination : String) (a : OperationStatus × Transaction)
    → IsNonEmpty (on_build_transaction value destination a)
unfolding on_build_transaction
answered_build_transaction v d (ok, x) = tt
answered_build_transaction v d (insufficient_funds, x) = tt
answered_build_transaction v d (verify_rejected, x) = tt
answered_build_transaction v d (invalid_address_or_key, x) = tt
answered_build_transaction v d (other n, x) = tt

pub answered_send_transaction :
    (data_ : String) (a : OperationStatus × String) → IsNonEmpty (on_send_transaction data_ a)
unfolding on_send_transaction
answered_send_transaction d (ok, x) = tt
answered_send_transaction d (insufficient_funds, x) = tt
answered_send_transaction d (verify_rejected, x) = tt
answered_send_transaction d (invalid_address_or_key, x) = tt
answered_send_transaction d (other n, x) = tt

pub answered_get_tx_confirmations :
    (id : String) (a : OperationStatus × ℤ × ℤ × String) → IsNonEmpty (on_get_tx_confirmations id a)
unfolding on_get_tx_confirmations
answered_get_tx_confirmations d (ok, x, y, z) = tt
answered_get_tx_confirmations d (insufficient_funds, x, y, z) = tt
answered_get_tx_confirmations d (verify_rejected, x, y, z) = tt
answered_get_tx_confirmations d (invalid_address_or_key, x, y, z) = tt
answered_get_tx_confirmations d (other n, x, y, z) = tt

pub answered_get_block_confirmations :
    (hash : String) (a : Option ℤ) → IsNonEmpty (on_get_block_confirmations hash a)
unfolding on_get_block_confirmations
answered_get_block_confirmations h (some n) = tt
answered_get_block_confirmations h none = tt

pub answered_get_block_extra_info :
    (hash : String) (a : Option BlockExtraInfo) → IsNonEmpty (on_get_block_extra_info hash a)
unfolding on_get_block_extra_info
answered_get_block_extra_info h (some n) = tt
answered_get_block_extra_info h none = tt

pub answered_list_unspent : (a : OperationStatus × List Output) → IsNonEmpty (on_list_unspent a)
unfolding on_list_unspent
answered_list_unspent (ok, x) = tt
answered_list_unspent (insufficient_funds, x) = tt
answered_list_unspent (verify_rejected, x) = tt
answered_list_unspent (invalid_address_or_key, x) = tt
answered_list_unspent (other n, x) = tt

pub answered_zsend_many : (a : OperationStatus × String × String) → IsNonEmpty (on_zsend_many a)
unfolding on_zsend_many
answered_zsend_many (ok, x, y) = tt
answered_zsend_many (insufficient_funds, x, y) = tt
answered_zsend_many (verify_rejected, x, y) = tt
answered_zsend_many (invalid_address_or_key, x, y) = tt
answered_zsend_many (other n, x, y) = tt

pub answered_zget_balance : (a : OperationStatus × ℤ) → IsNonEmpty (on_zget_balance a)
unfolding on_zget_balance
answered_zget_balance (ok, x) = tt
answered_zget_balance (insufficient_funds, x) = tt
answered_zget_balance (verify_rejected, x) = tt
answered_zget_balance (invalid_address_or_key, x) = tt
answered_zget_balance (other n, x) = tt
