-- ===== src/Http/Server/Examples.antt =====
-- A server whose socket cannot be bound.
use poolfrontend.Prelude.{◌≡◌, false, true, ◌&&◌, some, none, if◌then◌else◌}
use poolfrontend.Start.Settings.{http_threads_num}
use poolfrontend.Http.Server.{start, stop, new_server, indices}
use poolfrontend.Http.Server.Life.{start-stop}

start-stop_example :
    stop (start false true (new_server 18880 (http_threads_num 2))).1
    ≡ (if false && true then some (indices 0 (http_threads_num 2)) else none)
start-stop_example = start-stop 18880 2 false true
