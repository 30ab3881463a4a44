-- ===== src/Http/Connection/Buffer.antt =====
-- What is read into the buffer of a connection, and what the parser is given.
use poolfrontend.Prelude.{true, ℕ, ◌+◌, ◌-◌, ◌≤◌, ◌<◌, ◌≡◌, refl, subst, arith}
use poolfrontend.Http.Connection.{
  Connection, Reading, reading, idle, ok, need_more_data, run, on_parsed, on_write, buffer_size,
  parsed_size,
}

-- The connections before a reply is written: each read brings at most the bytes that were asked for,
-- and the parser leaves at most the bytes that it was given.
pub data Receiving : Connection → Type 0 where
  started : Receiving run
  more :
      {c : Connection} (offset capacity bytes_read rest : ℕ)
      → Receiving c
      → c.last_read ≡ reading offset capacity
      → bytes_read ≤ capacity
      → rest ≤ parsed_size bytes_read c
      → Receiving (on_parsed (need_more_data rest) c)
  finished :
      {c : Connection} (offset capacity bytes_read : ℕ)
      → Receiving c
      → c.last_read ≡ reading offset capacity
      → bytes_read ≤ capacity
      → Receiving (on_parsed ok c)

-- The read that is under way goes on behind the bytes that were left, and fills the buffer at most.
abbrev Fits : ℕ → Reading → Type 0
Fits old idle = Unit
Fits old (reading offset capacity) = (offset ≡ old) × (offset + capacity ≡ buffer_size)

Fits-reading :
    {r : Reading} (old offset capacity : ℕ)
    → r ≡ reading offset capacity
    → Fits old r
    → old + capacity ≡ buffer_size
Fits-reading {r} old offset capacity e f = let (a, b) = subst (Fits old) e f in omega arith

Receiving-Fits : {c : Connection} → Receiving c → Fits c.old_data_size c.last_read
unfolding run on_parsed
Receiving-Fits started = (refl, refl)
Receiving-Fits (more {c} offset capacity bytes_read rest h e le rest_le) =
    let fits = Fits-reading c.old_data_size offset capacity e (Receiving-Fits h) in
    (refl, omega arith)
Receiving-Fits (finished offset capacity bytes_read h e le) = tt

-- Until a reply is written, what the parser is given lies within the buffer.
pub Receiving-parsed_size :
    {c : Connection} (offset capacity bytes_read : ℕ)
    → Receiving c
    → c.last_read ≡ reading offset capacity
    → bytes_read ≤ capacity
    → (offset ≡ c.old_data_size) × (parsed_size bytes_read c ≤ buffer_size)
Receiving-parsed_size {c} offset capacity bytes_read h e le =
    let (a, b) = subst (Fits c.old_data_size) e (Receiving-Fits h) in (a, omega arith)

-- Afterwards it need not: a request whose first part of `rest` bytes was kept and that was then completed
-- leaves `rest` in oldDataSize, and when the read that onWrite starts on the socket that it has shut
-- down still fills the buffer, the parser is given `rest` bytes too many.
pub on_write-parsed_size :
    (rest : ℕ)
    → rest < buffer_size
    → (c : Connection) × Receiving c
      × ((on_write c).shut_down ≡ true)
      × ((on_write c).last_read ≡ reading 0 buffer_size)
      × (parsed_size buffer_size (on_write c) ≡ buffer_size + rest)
unfolding run on_parsed on_write
on_write-parsed_size rest le = (
  on_parsed ok (on_parsed (need_more_data rest) run),
  finished rest (buffer_size - rest) 1
      (more 0 buffer_size rest rest started refl (omega arith) (omega arith)) refl (omega arith),
  refl,
  refl,
  refl,
)
