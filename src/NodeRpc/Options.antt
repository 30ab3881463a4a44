-- ===== src/NodeRpc/Options.antt =====
-- noderpc.cpp: the command line. getopt_long is not part of the program's own code; an option is
-- what one call of it answers.
use poolfrontend.Prelude.{ℕ, zero, suc, Option, none, some, List, [], ◌∷◌, ◌++◌, String}
use Prim.Native.String as S
use poolfrontend.Start.Text.{split_at, comma}

-- CmdLineOptsTy, with `optarg` where the option has an argument, and getopt's own answers
pub data CmdLineOption : Type 0 where
  help missing_argument unknown_option other : CmdLineOption
  node coin address user password wallet method mining_addresses private_keys :
      String → CmdLineOption

-- The number of characters.
unfoldable pub size : String → ℕ
size S.[] = zero
size (S.◌∷◌ c s) = suc (size s)

-- The loop over the pieces between commas. The fuel is one more than the size of the text.
unfoldable pub split_loop : ℕ → String → List String
split_loop zero p = []
split_loop (suc fuel) p = elim (split_at comma p) [
  | some (before, after) ↦ before ∷ split_loop fuel after
  | none ↦ p ∷ []
]

unfoldable pub split_commas : String → List String
unfolding split_loop size
split_commas p = split_loop (suc (size p)) p

-- The variables that the loop over the options sets.
pub record Options : Type 0 where
  pub type : String
  pub coin : String
  pub address : Option String
  pub user : String
  pub password : String
  pub wallet : String
  pub method : String
  pub mining_addresses : List String
  pub private_keys : List String

unfoldable pub no_options : Options
no_options = record {
  type = "";
  coin = "";
  address = none;
  user = "";
  password = "";
  wallet = "";
  method = "";
  mining_addresses = [];
  private_keys = [];
}

-- Whether the loop goes on, or the process ends with a status.
pub data Parsed : Type 0 where
  parsed : Options → Parsed
  exit : ℕ → Parsed

-- One turn of the loop.
unfoldable pub parse_option : Options → CmdLineOption → Parsed
unfolding split_commas
parse_option o help = exit 0
parse_option o (node s) = parsed (record o { type = s })
parse_option o (coin s) = parsed (record o { coin = s })
parse_option o (address s) = parsed (record o { address = some s })
parse_option o (user s) = parsed (record o { user = s })
parse_option o (password s) = parsed (record o { password = s })
parse_option o (wallet s) = parsed (record o { wallet = s })
parse_option o (method s) = parsed (record o { method = s })
parse_option o (mining_addresses s) =
    parsed (record o { mining_addresses = o.mining_addresses ++ split_commas s })
parse_option o (private_keys s) =
    parsed (record o { private_keys = o.private_keys ++ split_commas s })
parse_option o missing_argument = parsed o
parse_option o unknown_option = exit 1
parse_option o other = parsed o

-- The loop, until getopt_long answers -1.
unfoldable pub parse_options : Options → List CmdLineOption → Parsed
unfolding parse_option
parse_options o [] = parsed o
parse_options o (option ∷ options) = elim (parse_option o option) [
  | parsed o' ↦ parse_options o' options
  | exit status ↦ exit status
]
