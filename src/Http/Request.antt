-- ===== src/Http/Request.antt =====
-- A request from its last byte to its reply: the events of the handler, and those of the callbacks
-- of the calls that it starts.
pub mod Served
pub mod Parse
pub mod Routing
pub mod Selects
pub mod Names
pub mod Updates
use poolfrontend.Prelude.{ℕ, zero, suc, true, Option, List, [], ◌∷◌, ◌++◌, if◌then◌else◌}
use poolfrontend.Json.{Json}
use poolfrontend.Http.Services.{Services}
use poolfrontend.Http.Handler.{
  Trace, Event, write, start, increment_reference, decrement_reference, set_profit_switch_coeff,
  ServiceCall,
}
use poolfrontend.Http.Dispatch.{Component, Context, Parsed, on_parse}
use poolfrontend.Http.Lookup.{Server}
use poolfrontend.Http.Callback.{Answer, callback}

module _ (j : Json) (s : Services j) (server : Server j s)
    (answer : (c : ServiceCall j s) → Answer c) where
  -- Every call that was started is answered, at its place, and its callback runs; the fuel bounds
  -- how many calls may follow from one another.
  unfoldable pub run_calls : ℕ → Trace j s → Trace j s
  run_calls zero t = t
  run_calls (suc n) [] = []
  run_calls (suc n) (start c ∷ t) =
      start c ∷ (run_calls n (callback j s server c (answer c)) ++ run_calls (suc n) t)
  run_calls (suc n) (e ∷ t) = e ∷ run_calls (suc n) t

module _ (j : Json) (s : Services j) (server : Server j s) (post : ℕ)
    (parse : List ℕ → Option j.Value) where
  -- The parser hands its components to onParse one by one, until one is refused.
  unfoldable pub feed : Context → List Component → Parsed j s
  feed context [] = record { context = context; trace = []; continues = true }
  feed context (c ∷ cs) =
      let r = on_parse j s server post parse context c in
      let rest = feed r.context cs in
      if r.continues then record rest { trace = r.trace ++ rest.trace } else r

module _ {j : Json} {s : Services j} where
  -- How often a reply is written, and the references taken and given back.
  abbrev pub writes : Trace j s → ℕ
  writes [] = 0
  writes (write r ∷ t) = suc (writes t)
  writes (e ∷ t) = writes t

  abbrev pub increments : Trace j s → ℕ
  increments [] = 0
  increments (increment_reference ∷ t) = suc (increments t)
  increments (e ∷ t) = increments t

  abbrev pub decrements : Trace j s → ℕ
  decrements [] = 0
  decrements (decrement_reference ∷ t) = suc (decrements t)
  decrements (e ∷ t) = decrements t
