-- ===== src/Prelude/Ascii.antt =====
-- The bytes of a literal of seven-bit characters.
use Prim.Native.Nat.{ℕ}
use Prim.Native.Char.{code}
use Prim.Native.String.{String, [], ◌∷◌}
use mathlib.Core.List.{List}

unfoldable pub ascii : String → List ℕ
ascii [] = List.[]
ascii (c ∷ s) = List.◌∷◌ (code c) (ascii s)
