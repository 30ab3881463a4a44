-- ===== src/Http/Calls.antt =====
-- What stands behind an asynchronous call that a handler of http.cpp starts: the checks that its
-- arguments have passed, and the fields that they come from.
pub mod Settings
pub mod Steps
pub mod Intervals
use poolfrontend.Prelude.{String}
use poolfrontend.Prelude.Int.{ℤ}
use poolfrontend.Json.{Json}

-- A field of the document, as a text.
abbrev pub field : (j : Json) → j.Value → String → String
field j document name = j.get_string (j.member document name)

abbrev pub int64_field : (j : Json) → j.Value → String → ℤ
int64_field j document name = j.get_int64 (j.member document name)
