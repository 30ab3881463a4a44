-- ===== src/Http/Responds.antt =====
-- What one request makes the HTTP front end do, for every handler of http.cpp.
pub mod Loops
pub mod Users
pub mod Backends
use poolfrontend.Prelude.{[], ◌∷◌, String}
use poolfrontend.Json.{Json}
use poolfrontend.Http.Services.{Services}
use poolfrontend.Http.Handler.{
  Trace, write, start, increment_reference, set_profit_switch_coeff, ServiceCall, Reply, not_found,
}

-- One reply is written, perhaps after the profit switch coefficient is set; or one reference to
-- the socket is taken and one asynchronous call started, in this order.
pub data Responds {j : Json} {s : Services j} : Trace j s → Type 0 where
  answered : (r : Reply j.Double) → Responds (write r ∷ [])
  configured :
      (b : s.Backend) (d : j.Double) (r : Reply j.Double)
      → Responds (set_profit_switch_coeff b d ∷ write r ∷ [])
  pending : (c : ServiceCall j s) → Responds (increment_reference ∷ start c ∷ [])
