-- ===== src/NodeRpc/Checked.antt =====
-- noderpc.cpp: what main has checked when it runs a command.
use poolfrontend.Prelude.{
  ℕ, Bool, true, false, not, ◌&&◌, ◌||◌, ◌≡◌, ◌≢◌, ◌⊎◌, inl, inr, refl, Option, none, some, List,
  [], ◌∷◌, String, str_eq, eq_iff, length, ◌==◌, ==_iff, arith, if◌then◌else◌,
}
use poolfrontend.Start.Types.{MiningAddress}
use poolfrontend.NodeRpc.Types.{Tool, Command}
use poolfrontend.NodeRpc.Options.{
  CmdLineOption, Options, no_options, Parsed, parsed, exit, parse_options,
}
use poolfrontend.NodeRpc.Run.{
  Client, bitcoin_rpc, ethereum_rpc, Outcome, ends, not_specified, keys_differ, unknown_coin,
  no_single_address, unknown_client, unknown_method, runs, is_empty, mining_addresses, find_command,
  run_command, create_client, check_given, check_options, main,
}

-- Each mining address with its key, when there are as many keys; with none otherwise.
pub data Paired : List String → List String → List MiningAddress → Type 0 where
  no_addresses : Paired [] [] []
  no_key :
      {address : String} {addresses : List String} {kept : List MiningAddress}
      → Paired addresses [] kept
      → Paired
          (address ∷ addresses)
          []
          (record { address = address; private_key = ""; weight = 1 } ∷ kept)
  with_key :
      {address key : String} {addresses keys : List String} {kept : List MiningAddress}
      → Paired addresses keys kept
      → Paired
          (address ∷ addresses)
          (key ∷ keys)
          (record { address = address; private_key = key; weight = 1 } ∷ kept)

keyless : (addresses : List String) → Paired addresses [] (mining_addresses addresses [])
unfolding mining_addresses
keyless [] = no_addresses
keyless (address ∷ addresses) = no_key (keyless addresses)

keyed :
    (addresses keys : List String)
    → length keys ≡ length addresses
    → Paired addresses keys (mining_addresses addresses keys)
unfolding mining_addresses
keyed [] [] e = no_addresses
keyed [] (key ∷ keys) e = absurd (omega arith)
keyed (address ∷ addresses) [] e = absurd (omega arith)
keyed (address ∷ addresses) (key ∷ keys) e = with_key (keyed addresses keys (omega arith))

differ : (s t : String) → str_eq s t ≡ false → s ≢ t
differ s t h e = let same = (eq_iff s t).1 e in ground arith

single_by :
    (p q one : Bool) → ((p || q) && not one) ≡ false → (one ≡ true) ⊎ ((p ≡ false) × (q ≡ false))
single_by true q true h = inl refl
single_by true q false h = ground arith
single_by false true true h = inl refl
single_by false true false h = ground arith
single_by false false one h = inr (refl, refl)

single :
    (method : String) (n : ℕ)
    → ((str_eq method "getBalance" || str_eq method "buildTransaction") && not (n == 1)) ≡ false
    → (n ≡ 1) ⊎ ((method ≢ "getBalance") × (method ≢ "buildTransaction"))
single method n h =
    elim (single_by (str_eq method "getBalance") (str_eq method "buildTransaction") (n == 1) h) [
      | inl is ↦ inl ((==_iff n 1).0 is)
      | inr (a, b) ↦ inr (differ _ _ a, differ _ _ b)
    ]

known : (s : String) → str_eq s "" ≡ false → s ≢ ""
known s h = differ s "" h

-- The keys are as many as the addresses, or there are none.
pair :
    (addresses keys : List String)
    → (not (is_empty keys) && not (length keys == length addresses)) ≡ false
    → Paired addresses keys (mining_addresses addresses keys)
pair addresses [] h = keyless addresses
pair addresses (key ∷ keys) h =
    keyed addresses (key ∷ keys) (as_many (length (key ∷ keys) == length addresses) h refl)
  where
    as_many :
        (b : Bool)
        → not b ≡ false
        → (length (key ∷ keys) == length addresses) ≡ b
        → length (key ∷ keys) ≡ length addresses
    as_many true h e = (==_iff _ _).0 e
    as_many false h e = ground arith

module _ (tool : Tool) where
  open tool use {CoinInfo}

  -- The client that the options describe.
  pub data IsClient (o : Options) : Client → Type 0 where
    bitcoin :
        {address : String}
        → o.address ≡ some address
        → o.type ≡ "bitcoinrpc"
        → IsClient o (bitcoin_rpc address o.user o.password o.wallet)
    ethereum :
        {address : String} {kept : List MiningAddress}
        → o.address ≡ some address
        → o.type ≡ "ethereumrpc"
        → Paired o.mining_addresses o.private_keys kept
        → ((length o.mining_addresses ≡ 1)
            ⊎ ((o.method ≢ "getBalance") × (o.method ≢ "buildTransaction")))
        → IsClient o (ethereum_rpc address kept)

  -- main stops, or runs the command of the method on a known coin through that client.
  pub data Checked (o : Options) (args : List String) : Outcome CoinInfo → Type 0 where
    runs_one :
        {client : Client} {command : Command}
        → tool.name (tool.get o.coin) ≢ ""
        → IsClient o client
        → find_command tool (tool.get o.coin) args o.method ≡ some command
        → Checked o args (runs (tool.get o.coin) client command)
    no_required : Checked o args not_specified
    no_keys : Checked o args keys_differ
    no_coin : Checked o args (unknown_coin o.coin)
    no_address : Checked o args no_single_address
    no_client : Checked o args (unknown_client o.type)
    no_method :
        find_command tool (tool.get o.coin) args o.method ≡ none
        → Checked o args (unknown_method o.method)

  Checked-if :
      (o : Options) (args : List String) (b : Bool) (x y : Outcome CoinInfo)
      → (b ≡ true → Checked o args x)
      → (b ≡ false → Checked o args y)
      → Checked o args (if b then x else y)
  Checked-if o args true x y f g = f refl
  Checked-if o args false x y f g = g refl

  run-Checked :
      (o : Options) (args : List String) (client : Client) (found : Option Command)
      → tool.name (tool.get o.coin) ≢ ""
      → IsClient o client
      → find_command tool (tool.get o.coin) args o.method ≡ found
      → Checked o args (run_command tool (tool.get o.coin) client o.method found)
  unfolding run_command
  run-Checked o args client none k c e = no_method e
  run-Checked o args client (some command) k c e = runs_one k c e

  create_client-Checked :
      (o : Options) (args : List String) (address : String)
      → o.address ≡ some address
      → tool.name (tool.get o.coin) ≢ ""
      → Paired o.mining_addresses o.private_keys
          (mining_addresses o.mining_addresses o.private_keys)
      → Checked o args (create_client tool (tool.get o.coin) address o args)
  unfolding create_client
  create_client-Checked o args address ea k paired =
      Checked-if o args (str_eq o.type "bitcoinrpc") _ _
        (λ is. run-Checked o args _ _ k (bitcoin ea ((eq_iff _ _).0 is)) refl)
        (λ is_not.
          Checked-if o args (str_eq o.type "ethereumrpc") _ _
            (λ is.
              Checked-if o args
                ((str_eq o.method "getBalance" || str_eq o.method "buildTransaction")
                  && not (length o.mining_addresses == 1))
                _ _ (λ bad. no_address)
                (λ fine.
                  run-Checked o args _ _ k
                    (ethereum ea ((eq_iff _ _).0 is) paired (single _ _ fine)) refl))
            (λ is_neither. no_client))

  check_given-Checked :
      (o : Options) (args : List String) (given : Option String)
      → o.address ≡ given
      → Checked o args (check_given tool o args given)
  unfolding check_given
  check_given-Checked o args none e = no_required
  check_given-Checked o args (some address) e =
      Checked-if o args (str_eq o.type "" || str_eq o.coin "" || str_eq o.method "") _ _
        (λ bad. no_required)
        (λ given.
          Checked-if o args
            (not (is_empty o.private_keys)
              && not (length o.private_keys == length o.mining_addresses))
            _ _ (λ bad. no_keys)
            (λ keys.
              Checked-if o args (str_eq (tool.name (tool.get o.coin)) "") _ _ (λ bad. no_coin)
                (λ k.
                  create_client-Checked o args address e (known _ k)
                    (pair o.mining_addresses o.private_keys keys))))

  check_options-Checked :
      (o : Options) (args : List String) → Checked o args (check_options tool o args)
  unfolding check_options
  check_options-Checked o args = check_given-Checked o args o.address refl

  -- What main does with the options that the loop has read, or the status that it ends with.
  pub data Mains (args : List String) : Parsed → Outcome CoinInfo → Type 0 where
    checked :
        {o : Options} {outcome : Outcome CoinInfo}
        → Checked o args outcome
        → Mains args (parsed o) outcome
    ended : {status : ℕ} → Mains args (exit status) (ends status)

  mains :
      (args : List String) (p : Parsed)
      → Mains args p (elim p [ parsed o ↦ check_options tool o args | exit status ↦ ends status ])
  mains args (parsed o) = checked (check_options-Checked o args)
  mains args (exit status) = ended

  -- main runs a command just through a client that the options describe, on a coin that the library
  -- knows, or stops.
  pub main-Mains :
      (options : List CmdLineOption) (args : List String)
      → Mains args (parse_options no_options options) (main tool options args)
  unfolding main
  main-Mains options args = mains args (parse_options no_options options)
