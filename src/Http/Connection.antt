-- ===== src/Http/Connection.antt =====
-- The life of a PoolHttpConnection: run, onRead, onWrite and close of http.cpp. The parser and the
-- socket are not the repository's; a step carries what they answered.
pub mod Buffer
pub mod Close
use poolfrontend.Prelude.{true, false, ℕ, zero, suc, ◌+◌, ◌-◌, ◌%◌, ◌^◌, Bool, if◌then◌else◌, ◌==◌}

-- httpRequestParse's result; `need_more_data` with the number of bytes that it has not used.
pub data ParserResult : Type 0 where
  ok : ParserResult
  need_more_data : ℕ → ParserResult
  error : ParserResult
  cancelled : ParserResult

-- The place in the buffer and the number of bytes of an aioRead that has been started.
pub data Reading : Type 0 where
  idle : Reading
  reading : ℕ → ℕ → Reading

-- The members that these functions use: oldDataSize, Deleted_ (an atomic unsigned), the last read that
-- was started, how often deleteAioObject was called, and whether the socket was shut down.
pub record Connection : Type 0 where
  pub old_data_size : ℕ
  pub deleted : ℕ
  pub last_read : Reading
  pub deletions : ℕ
  pub shut_down : Bool

abbrev pub buffer_size : ℕ
buffer_size = 65536

-- A new connection, after run.
unfoldable pub run : Connection
run = record {
  old_data_size = 0;
  deleted = 0;
  last_read = reading 0 buffer_size;
  deletions = 0;
  shut_down = false;
}

unfoldable pub close : Connection → Connection
close c = record c {
  deleted = (c.deleted + 1) % 2 ^ 32;
  deletions = if c.deleted == 0 then c.deletions + 1 else c.deletions;
}

-- socketShutdown of both directions, then a read of the whole buffer.
unfoldable pub on_write : Connection → Connection
on_write c = record c { last_read = reading 0 buffer_size; shut_down = true }

-- After a read that succeeded and was parsed.
unfoldable pub on_parsed : ParserResult → Connection → Connection
unfolding close
on_parsed ok c = record c { last_read = idle }
on_parsed (need_more_data rest) c = record c {
  old_data_size = rest;
  last_read = reading rest (buffer_size - rest);
}
on_parsed error c = close (record c { last_read = idle })
on_parsed cancelled c = close (record c { last_read = idle })

unfoldable pub on_read : Bool → ParserResult → Connection → Connection
unfolding on_parsed close
on_read success result c =
    if success then on_parsed result c else close (record c { last_read = idle })

-- The number of bytes of the buffer that onRead hands to the parser.
abbrev pub parsed_size : ℕ → Connection → ℕ
parsed_size bytes_read c = bytes_read + c.old_data_size
