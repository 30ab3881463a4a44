-- ===== src/Config/Loader.antt =====
-- How config.cpp loads an object: under an error accumulator and an error description, which every
-- reader is given by address, and with early returns that leave the object as far as it is filled.
use Prim.Native.String.{◌++◌}
use poolfrontend.Prelude.{List, [], ◌∷◌, String}

-- EErrorType
pub data ErrorType : Type 0 where
  ok not_exists type_mismatch : ErrorType

pub record Status : Type 0 where
  pub error : ErrorType
  pub description : String

-- setErrorDescription
unfoldable pub set_error_description : ErrorType → String → String → String → Status → Status
set_error_description ok place name required_type st = record st { error = ok }
set_error_description not_exists place name required_type st = record {
  error = not_exists;
  description = "Required parameter '" ++ name ++ "' does not exists at " ++ place;
}
set_error_description type_mismatch place name required_type st = record {
  error = type_mismatch;
  description =
      "Type mismatch: parameter '" ++ place ++ " -> " ++ name ++ "' must be a " ++ required_type;
}

-- A step of a function that fills a `C`: it goes on with a value, or returns and leaves the object.
pub data Outcome (C A : Type 0) : Type 0 where
  next : A → Status → Outcome C A
  returned : C → Status → Outcome C A

abbrev pub Loader : Type 0 → Type 0 → Type 0
Loader C A = Status → Outcome C A

infixl 5 ◌>>=◌ ◌>>◌
unfoldable pub ◌>>=◌ : {C A B : Type 0} → Loader C A → (A → Loader C B) → Loader C B
◌>>=◌ m f st = elim (m st) [ next a st' ↦ f a st' | returned c st' ↦ returned c st' ]

abbrev pub ◌>>◌ : {C A B : Type 0} → Loader C A → Loader C B → Loader C B
◌>>◌ m k = m >>= λ _. k

module _ {C : Type 0} where
  unfoldable pub pure : {A : Type 0} → A → Loader C A
  pure a st = next a st

  -- `setErrorDescription(…); return;`, with the object as it stands.
  unfoldable pub leave : {A : Type 0} → ErrorType → String → String → String → C → Loader C A
  unfolding set_error_description
  leave error place name required_type c st =
      returned c (set_error_description error place name required_type st)

  -- The call of another object's load: its returns end only that call.
  unfoldable pub call : {B : Type 0} → Loader B B → Loader C B
  call m st = elim (m st) [ next b st' ↦ next b st' | returned b st' ↦ next b st' ]

  -- `resize(array.Size())` and the loop that loads each element.
  unfoldable pub load_all : {V B : Type 0} → (V → Loader B B) → List V → Loader C (List B)
  unfolding ◌>>=◌ call pure
  load_all load [] = pure []
  load_all load (v ∷ vs) = do b ← call (load v); bs ← load_all load vs; pure (b ∷ bs)
