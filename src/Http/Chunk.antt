-- ===== src/Http/Chunk.antt =====
-- The chunk in which every response is sent: reply200, reply404, startChunk and finishChunk of
-- http.cpp. A stream is the list of its bytes, and is only written at its end.
pub mod Decode
use poolfrontend.Prelude.{
  ℕ, zero, suc, ◌+◌, ◌-◌, ◌/◌, ◌%◌, ◌^◌, List, [], ◌∷◌, ◌++◌, length, take, drop, ltb,
  if◌then◌else◌,
}
use poolfrontend.Prelude.Ascii.{ascii}

-- The bytes `0` to `9` and `a` to `f`.
abbrev pub hex_digit : ℕ → ℕ
hex_digit v = if ltb v 10 then 48 + v else 87 + v

-- The last `k` hexadecimal digits of a number.
unfoldable pub hex_digits : ℕ → ℕ → List ℕ
hex_digits zero n = []
hex_digits (suc k) n = hex_digits k (n / 16) ++ (hex_digit (n % 16) ∷ [])

unfoldable pub reply_200 : List ℕ
unfolding ascii
reply_200 = ascii "HTTP/1.1 200 OK\r\nServer: bcnode\r\nTransfer-Encoding: chunked\r\n\r\n"

-- The offset of the chunk, and the stream with the place for its size.
unfoldable pub start_chunk : List ℕ → ℕ × List ℕ
unfolding ascii
start_chunk stream = (length stream, stream ++ ascii "00000000\r\n")

-- `sizeof(finishData)` counts the zero that ends the literal.
unfoldable pub finish_data : List ℕ
unfolding ascii
finish_data = ascii "\r\n0\r\n\r\n" ++ (0 ∷ [])

-- The size of the chunk, which wraps around as a size_t does, as an unsigned of 32 bits in eight digits, is copied over the place left for
-- it.
unfoldable pub finish_chunk : List ℕ → ℕ → List ℕ
unfolding hex_digits finish_data
finish_chunk stream offset =
    take offset stream
    ++ (hex_digits 8 ((length stream + 2 ^ 64 - offset - 10) % 2 ^ 32)
        ++ (drop (offset + 8) stream ++ finish_data))

-- What the handlers send: the header, and one chunk with the body.
unfoldable pub send : List ℕ → List ℕ → List ℕ
unfolding start_chunk finish_chunk
send header body = let (offset, stream) = start_chunk header in finish_chunk (stream ++ body) offset

unfoldable pub reply_404 : List ℕ
unfolding ascii send
reply_404 =
    send (ascii "HTTP/1.1 404 Not Found\r\nServer: bcnode\r\nTransfer-Encoding: chunked\r\n\r\n") (
      ascii "<html><head><title>Not Found</title></head><body><h1>404 Not Found</h1></body></html>")
