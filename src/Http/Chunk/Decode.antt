-- ===== src/Http/Chunk/Decode.antt =====
-- The chunked transfer coding as a client reads it, and what it makes of a response.
use mathlib.Core.List.{append_assoc, append-nil}
use poolfrontend.Prelude.{
  ℕ, zero, suc, ◌+◌, ◌-◌, ◌*◌, ◌/◌, ◌%◌, ◌^◌, ◌<◌, ◌≡◌, refl, ap, ◌∙◌, Option, none, some, false,
  ◌&&◌, leb, List, [], ◌∷◌, ◌++◌, length, take, drop, length-append, drop-append, take-append, ◌==◌,
  if◌then◌else◌, arith,
}
use poolfrontend.Prelude.Ascii.{ascii}
use poolfrontend.Http.Chunk.{hex_digit, hex_digits, start_chunk, finish_chunk, finish_data, send}

-- The value of a hexadecimal digit.
abbrev hex_value : ℕ → Option ℕ
hex_value c =
    if leb 48 c && leb c 57
    then some (c - 48)
    else if leb 65 c && leb c 70
    then some (c - 55)
    else if leb 97 c && leb c 102
    then some (c - 87)
    else none

-- A line's end, which must come next.
unfoldable pub end_of_line : List ℕ → Option (List ℕ)
end_of_line (c ∷ d ∷ rest) = if (c == 13) && (d == 10) then some rest else none
end_of_line _ = none

-- The size at the start of a chunk, up to the end of its line.
abbrev next_digit : ℕ → Option ℕ → (ℕ → Option (ℕ × List ℕ)) → Option (ℕ × List ℕ)
next_digit acc none k = none
next_digit acc (some v) k = k (acc * 16 + v)

abbrev sized : ℕ → Option (List ℕ) → Option (ℕ × List ℕ)
sized acc none = none
sized acc (some rest) = some (acc, rest)

unfoldable pub read_size : ℕ → List ℕ → Option (ℕ × List ℕ)
unfolding end_of_line
read_size acc [] = none
read_size acc (c ∷ cs) =
    let more = next_digit acc (hex_value c) (λ n. read_size n cs) in
    if c == 13 then sized acc (end_of_line (c ∷ cs)) else more

hex_value-hex_digit : (v : ℕ) → v < 16 → hex_value (hex_digit v) ≡ some v
hex_value-hex_digit v h = ground arith

-- Chunks up to the one of size zero, and what follows them.
abbrev last_chunk : Option (List ℕ) → Option (List ℕ × List ℕ)
last_chunk none = none
last_chunk (some rest) = some ([], rest)

abbrev then_more :
    List ℕ → (List ℕ → Option (List ℕ × List ℕ)) → Option (List ℕ) → Option (List ℕ × List ℕ)
then_more data_read more none = none
then_more data_read more (some rest) = elim (more rest) [
  | none ↦ none
  | some (body, after) ↦ some (data_read ++ body, after)
]

abbrev read_chunk :
    (List ℕ → Option (List ℕ × List ℕ)) → Option (ℕ × List ℕ) → Option (List ℕ × List ℕ)
read_chunk more none = none
read_chunk more (some (size, rest)) =
    if size == 0
    then last_chunk (end_of_line rest)
    else then_more (take size rest) more (end_of_line (drop size rest))

-- The fuel bounds the number of chunks.
unfoldable pub read_chunks : ℕ → List ℕ → Option (List ℕ × List ℕ)
unfolding read_size end_of_line
read_chunks zero bytes = none
read_chunks (suc fuel) bytes = read_chunk (read_chunks fuel) (read_size 0 bytes)

not_return : (v : ℕ) → v < 16 → (hex_digit v == 13) ≡ false
not_return v h = ground arith

read_size-digit :
    (acc v : ℕ) (rest : List ℕ)
    → v < 16
    → read_size acc (hex_digit v ∷ rest) ≡ read_size (acc * 16 + v) rest
unfolding read_size
read_size-digit acc v rest h = rw (not_return v h, hex_value-hex_digit v h) refl

read_size-hex_digits :
    (k n : ℕ) (rest : List ℕ) → n < 16 ^ k → read_size 0 (hex_digits k n ++ rest) ≡ read_size n rest
unfolding hex_digits
read_size-hex_digits zero n rest h = ap (λ m. read_size m rest) (omega arith)
read_size-hex_digits (suc k) n rest h =
    ap (read_size 0) (append_assoc (hex_digits k (n / 16)) (hex_digit (n % 16) ∷ []) rest)
    ∙ read_size-hex_digits k (n / 16) (hex_digit (n % 16) ∷ rest) (omega arith)
    ∙ read_size-digit (n / 16) (n % 16) rest (omega arith)
    ∙ ap (λ m. read_size m rest) (omega arith)

read_size-end : (n : ℕ) (rest : List ℕ) → read_size n (13 ∷ 10 ∷ rest) ≡ some (n, rest)
unfolding read_size end_of_line
read_size-end n rest = refl

drop-append_more : (k : ℕ) (xs ys : List ℕ) → drop (length xs + k) (xs ++ ys) ≡ drop k ys
drop-append_more k [] ys = ap (λ m. drop m ys) {y = k} (omega arith)
drop-append_more k (x ∷ xs) ys =
    ap (λ m. drop m (x ∷ (xs ++ ys))) {y = suc (length xs + k)} (omega arith)
    ∙ drop-append_more k xs ys

module _ (header body : List ℕ) (small : length body < 2 ^ 32) where
  abbrev place : List ℕ
  place = 48 ∷ 48 ∷ 48 ∷ 48 ∷ 48 ∷ 48 ∷ 48 ∷ 48 ∷ 13 ∷ 10 ∷ []

  abbrev filled : List ℕ → List ℕ
  filled stream =
      take (length header) stream
      ++ (hex_digits 8 ((length stream + 2 ^ 64 - length header - 10) % 2 ^ 32)
          ++ (drop (length header + 8) stream ++ finish_data))

  size_is :
      (length (header ++ (place ++ body)) + 2 ^ 64 - length header - 10) % 2 ^ 32 ≡ length body
  size_is = rw (length-append header (place ++ body)) (omega arith)

  send-shape :
      send header body ≡ header ++ (hex_digits 8 (length body) ++ (13 ∷ 10 ∷ (body ++ finish_data)))
  unfolding send start_chunk finish_chunk ascii
  send-shape =
      ap filled (append_assoc header place body)
      ∙ rw (take-append header (place ++ body), size_is, drop-append_more 8 header (place ++ body))
          refl

  data_read :
      0 < length body
      → read_chunks 2 (hex_digits 8 (length body) ++ (13 ∷ 10 ∷ (body ++ finish_data)))
        ≡ some (body, 0 ∷ [])
  unfolding read_chunks finish_data ascii
  data_read some_data =
      ap (read_chunk (read_chunks 1)) (
        read_size-hex_digits 8 (length body) _ (omega arith)
        ∙ read_size-end (length body) (body ++ finish_data))
      ∙ rw (not_empty, take-append body finish_data, drop-append body finish_data, append-nil body)
          refl
    where
      not_empty : (length body == 0) ≡ false
      not_empty = ground arith

-- A client that reads a response of up to 2^32 - 1 bytes of body, after its header, gets the body; one
-- zero byte is left over behind the last chunk.
pub send-read_chunks :
    (header body : List ℕ)
    → 0 < length body
    → length body < 2 ^ 32
    → read_chunks 2 (drop (length header) (send header body)) ≡ some (body, 0 ∷ [])
send-read_chunks header body some_data small =
    ap (λ x. read_chunks 2 (drop (length header) x)) (send-shape header body small)
    ∙ ap (read_chunks 2) (drop-append header _)
    ∙ data_read header body small some_data
