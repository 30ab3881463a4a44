-- ===== src/NodeRpc/Sends.antt =====
-- noderpc.cpp: what a command asks of the node, and that it says something in the end.
use poolfrontend.Prelude.{
  Bool, true, false, ◌≡◌, refl, Option, none, some, List, [], ◌∷◌, String, if◌then◌else◌,
  Bool-cases, inl, inr,
}
use poolfrontend.Prelude.Int.{ℤ}
use poolfrontend.NodeRpc.Types.{
  Request, get_balance, build_transaction, send_transaction, get_tx_confirmations,
  get_block_confirmations, get_block_extra_info, list_unspent, zsend_many, zget_balance, Answer,
  Message, Command, say, ask, Tool,
}
use poolfrontend.NodeRpc.Commands.{
  get_balance_coro, build_transaction_coro, build_payment, send_transaction_coro,
  get_tx_confirmations_coro, get_block_confirmation_coro, get_block_extra_info_coro,
  list_unspent_coro, zsend_many_coro, zsend, zget_balance_coro,
}
use poolfrontend.NodeRpc.Run.{find_command}
use poolfrontend.NodeRpc.Answered.{
  IsNonEmpty, answered_get_balance, answered_build_transaction, answered_send_transaction,
  answered_get_tx_confirmations, answered_get_block_confirmations, answered_get_block_extra_info,
  answered_list_unspent, answered_zsend_many, answered_zget_balance,
}

module _ (tool : Tool) (coin_info : tool.CoinInfo) where
  -- The requests that the arguments allow: as many as the request takes, the address of a payment
  -- accepted by the coin, amounts that parse.
  pub data Allowed (args : List String) : Request → Type 0 where
    balance : Allowed args get_balance
    payment :
        {destination change amount : String} {value : ℤ}
        → args ≡ destination ∷ change ∷ amount ∷ []
        → tool.check_address coin_info destination ≡ true
        → tool.parse_money_value coin_info amount ≡ some value
        → Allowed args (build_transaction destination change value)
    sending :
        {data_ id : String} → args ≡ data_ ∷ id ∷ [] → Allowed args (send_transaction data_ id)
    tx : {id : String} → args ≡ id ∷ [] → Allowed args (get_tx_confirmations id)
    block :
        {hash height : String}
        → args ≡ hash ∷ height ∷ []
        → Allowed args (get_block_confirmations hash (tool.xatoi height))
    block_extra :
        {hash height : String}
        → args ≡ hash ∷ height ∷ []
        → Allowed args (get_block_extra_info hash (tool.xatoi height))
    unspent : args ≡ [] → Allowed args list_unspent
    shielded :
        {source destination amount memo min_conf fee : String} {value fee_value : ℤ}
        → args ≡ source ∷ destination ∷ amount ∷ memo ∷ min_conf ∷ fee ∷ []
        → tool.parse_money_value coin_info amount ≡ some value
        → tool.parse_money_value coin_info fee ≡ some fee_value
        → Allowed args (zsend_many source destination value memo (tool.xatoi min_conf) fee_value)
    shielded_balance :
        {address : String} → args ≡ address ∷ [] → Allowed args (zget_balance address)

  -- A command that sends an allowed request at most, and logs a message in any case.
  pub data Proper (args : List String) : Option Command → Type 0 where
    no_command : Proper args none
    says : {m : Message} {ms : List Message} → Proper args (some (say (m ∷ ms)))
    asks :
        {request : Request} {answered : Answer request → List Message}
        → Allowed args request
        → ((answer : Answer request) → IsNonEmpty (answered answer))
        → Proper args (some (ask request answered))

  Proper-if :
      (args : List String) (b : Bool) (x y : Option Command)
      → Proper args x
      → Proper args y
      → Proper args (if b then x else y)
  Proper-if args true x y p q = p
  Proper-if args false x y p q = q

  Proper-get_balance_coro : (args : List String) → Proper args (some get_balance_coro)
  unfolding get_balance_coro
  Proper-get_balance_coro args = asks balance answered_get_balance

  Proper-send_transaction_coro :
      (args : List String) → Proper args (some (send_transaction_coro args))
  unfolding send_transaction_coro
  Proper-send_transaction_coro (a ∷ b ∷ []) = asks (sending refl) (answered_send_transaction a)
  Proper-send_transaction_coro [] = says
  Proper-send_transaction_coro (a ∷ []) = says
  Proper-send_transaction_coro (a ∷ b ∷ c ∷ rest) = says

  Proper-get_tx_confirmations_coro :
      (args : List String) → Proper args (some (get_tx_confirmations_coro args))
  unfolding get_tx_confirmations_coro
  Proper-get_tx_confirmations_coro (a ∷ []) = asks (tx refl) (answered_get_tx_confirmations a)
  Proper-get_tx_confirmations_coro [] = says
  Proper-get_tx_confirmations_coro (a ∷ b ∷ rest) = says

  Proper-get_block_confirmation_coro :
      (args : List String) → Proper args (some (get_block_confirmation_coro tool args))
  unfolding get_block_confirmation_coro
  Proper-get_block_confirmation_coro (a ∷ b ∷ []) =
      asks (block refl) (answered_get_block_confirmations a)
  Proper-get_block_confirmation_coro [] = says
  Proper-get_block_confirmation_coro (a ∷ []) = says
  Proper-get_block_confirmation_coro (a ∷ b ∷ c ∷ rest) = says

  Proper-get_block_extra_info_coro :
      (args : List String) → Proper args (some (get_block_extra_info_coro tool args))
  unfolding get_block_extra_info_coro
  Proper-get_block_extra_info_coro (a ∷ b ∷ []) =
      asks (block_extra refl) (answered_get_block_extra_info a)
  Proper-get_block_extra_info_coro [] = says
  Proper-get_block_extra_info_coro (a ∷ []) = says
  Proper-get_block_extra_info_coro (a ∷ b ∷ c ∷ rest) = says

  Proper-list_unspent_coro : (args : List String) → Proper args (some (list_unspent_coro args))
  unfolding list_unspent_coro
  Proper-list_unspent_coro [] = asks (unspent refl) answered_list_unspent
  Proper-list_unspent_coro (a ∷ rest) = says

  Proper-zget_balance_coro : (args : List String) → Proper args (some (zget_balance_coro args))
  unfolding zget_balance_coro
  Proper-zget_balance_coro (a ∷ []) = asks (shielded_balance refl) answered_zget_balance
  Proper-zget_balance_coro [] = says
  Proper-zget_balance_coro (a ∷ b ∷ rest) = says

  Proper-build_payment :
      (destination change amount : String) (o : Option ℤ)
      → tool.check_address coin_info destination ≡ true
      → tool.parse_money_value coin_info amount ≡ o
      → Proper
          (destination ∷ change ∷ amount ∷ [])
          (some (build_payment tool coin_info destination change amount o))
  unfolding build_payment
  Proper-build_payment destination change amount none h e = says
  Proper-build_payment destination change amount (some value) h e =
      asks (payment refl h e) (answered_build_transaction value destination)

  Proper-build_transaction_coro :
      (args : List String) → Proper args (some (build_transaction_coro tool coin_info args))
  unfolding build_transaction_coro
  Proper-build_transaction_coro (a ∷ b ∷ c ∷ []) =
      elim (Bool-cases (tool.check_address coin_info a)) [
        | inl is ↦
            rw (is, build_transaction_coro)
              (Proper-build_payment a b c (tool.parse_money_value coin_info c) is refl)
        | inr is_not ↦ rw (is_not, build_transaction_coro) says
      ]
  Proper-build_transaction_coro [] = says
  Proper-build_transaction_coro (a ∷ []) = says
  Proper-build_transaction_coro (a ∷ b ∷ []) = says
  Proper-build_transaction_coro (a ∷ b ∷ c ∷ d ∷ rest) = says

  Proper-zsend :
      (source destination amount memo min_conf fee : String) (o p : Option ℤ)
      → tool.parse_money_value coin_info amount ≡ o
      → tool.parse_money_value coin_info fee ≡ p
      → Proper
          (source ∷ destination ∷ amount ∷ memo ∷ min_conf ∷ fee ∷ [])
          (some (zsend tool source destination amount memo min_conf fee o p))
  unfolding zsend
  Proper-zsend source destination amount memo min_conf fee none p e d = says
  Proper-zsend source destination amount memo min_conf fee (some value) none e d = says
  Proper-zsend source destination amount memo min_conf fee (some value) (some fee_value) e d =
      asks (shielded refl e d) answered_zsend_many

  Proper-zsend_many_coro :
      (args : List String) → Proper args (some (zsend_many_coro tool coin_info args))
  unfolding zsend_many_coro
  Proper-zsend_many_coro (a ∷ b ∷ c ∷ d ∷ e ∷ f ∷ []) =
      Proper-zsend a b c d e f (tool.parse_money_value coin_info c)
        (tool.parse_money_value coin_info f) refl refl
  Proper-zsend_many_coro [] = says
  Proper-zsend_many_coro (a ∷ []) = says
  Proper-zsend_many_coro (a ∷ b ∷ []) = says
  Proper-zsend_many_coro (a ∷ b ∷ c ∷ []) = says
  Proper-zsend_many_coro (a ∷ b ∷ c ∷ d ∷ []) = says
  Proper-zsend_many_coro (a ∷ b ∷ c ∷ d ∷ e ∷ []) = says
  Proper-zsend_many_coro (a ∷ b ∷ c ∷ d ∷ e ∷ f ∷ g ∷ rest) = says

  -- Every command that a method names sends at most one request, which its arguments allow, and
  -- logs a message whatever the node answers.
  pub find_command-Proper :
      (args : List String) (method : String) → Proper args (find_command tool coin_info args method)
  unfolding find_command
  find_command-Proper args method =
      search
        (
          Proper-if, no_command, Proper-get_balance_coro, Proper-send_transaction_coro,
          Proper-get_tx_confirmations_coro, Proper-get_block_confirmation_coro,
          Proper-get_block_extra_info_coro, Proper-list_unspent_coro, Proper-zget_balance_coro,
          Proper-build_transaction_coro, Proper-zsend_many_coro,
        )
        depth 20
