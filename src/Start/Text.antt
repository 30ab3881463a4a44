-- ===== src/Start/Text.antt =====
-- The text and path routines of the C and C++ libraries that main.cpp and noderpc.cpp use.
use Prim.Native.Char.{code}
use Prim.Native.String.{String, [], ◌∷◌, ◌++◌}
use poolfrontend.Prelude.{
  ℕ, suc, ◌+◌, ◌-◌, ◌*◌, ◌/◌, ◌%◌, ◌^◌, Bool, true, false, ◌&&◌, ◌||◌, Option, none, some, leb,
  ◌==◌, if◌then◌else◌,
}

-- strchr: what stands before and behind the first character of the code.
unfoldable pub split_at : ℕ → String → Option (String × String)
split_at k [] = none
split_at k (c ∷ s) =
    if code c == k
    then some ("", s)
    else elim (split_at k s) [ some (before, after) ↦ some (c ∷ before, after) | none ↦ none ]

abbrev pub comma : ℕ
comma = b','

abbrev pub colon : ℕ
colon = b':'

-- The decimal digits at the front.
unfoldable pub digits : ℕ → String → ℕ
digits n [] = n
digits n (c ∷ s) =
    let rest = digits (n * 10 + (code c - b'0')) s in
    if leb b'0' (code c) && leb (code c) b'9' then rest else n

abbrev is_space : ℕ → Bool
is_space c = c == 32 || (leb 9 c && leb c 13)

-- atoi brought to 16 bits, with the wrap-around of a negative number.
unfoldable pub atoi16 : String → ℕ
unfolding digits
atoi16 [] = 0
atoi16 (c ∷ s) =
    let skipped = atoi16 s in
    if is_space (code c)
    then skipped
    else (if code c == b'-'
        then (2 ^ 16 - digits 0 s % 2 ^ 16) % 2 ^ 16
        else (if code c == b'+' then digits 0 s % 2 ^ 16 else digits 0 (c ∷ s) % 2 ^ 16))

-- htons on a little-endian machine
unfoldable pub htons : ℕ → ℕ
htons n = n % 256 * 256 + n / 256

unfoldable pub is_absolute : String → Bool
is_absolute [] = false
is_absolute (c ∷ s) = code c == b'/'

-- Whether the last character is a slash.
unfoldable pub ends_with_slash : String → Bool
ends_with_slash [] = false
ends_with_slash (c ∷ []) = code c == b'/'
ends_with_slash (c ∷ d ∷ s) = ends_with_slash (d ∷ s)

abbrev is_empty : String → Bool
is_empty [] = true
is_empty (c ∷ s) = false

-- operator/ of std::filesystem::path on POSIX
infixl 60 ◌/path◌
unfoldable pub ◌/path◌ : String → String → String
unfolding is_absolute ends_with_slash
a /path b =
    if is_absolute b then b else (if is_empty a || ends_with_slash a then a ++ b else a ++ "/" ++ b)

-- starts_with("~/") or starts_with("~\\"), and what stands behind
unfoldable pub strip_home : String → Option String
strip_home (c ∷ d ∷ s) = if code c == b'~' && (code d == b'/' || code d == 92) then some s else none
strip_home _ = none

-- The first n characters.
unfoldable pub truncate : ℕ → String → String
truncate ℕ.zero s = ""
truncate (suc n) [] = ""
truncate (suc n) (c ∷ s) = c ∷ truncate n s
