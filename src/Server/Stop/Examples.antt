-- ===== src/Server/Stop/Examples.antt =====
-- A server with two loops, whose HTTP server closes without an error.
use limnet.Base.{ℕ, ◌≡◌, refl, Bool, false, none, some, List, [], ◌∷◌, ◌++◌, if◌then◌else◌}
use limnet.RingBuffer.Examples.{plain}
use limnet.Options.{new_option}
use limnet.Server.Http.{HttpHost, server_closed, new_ws_server, ws_start}
use limnet.Server.Stop.{StopHost, StopLog, stop, stop-Stops}

abbrev quiet_http : HttpHost (List ℕ)
quiet_http = record {
  listen_and_serve = λ s w. (server_closed, w);
  listen_and_serve_tls = λ s certificate key w. (server_closed, w);
  shutdown = λ s w. (false, w);
}

-- The world is the loops stopped.
abbrev stopping : StopHost (List ℕ)
stopping = record {
  http = quiet_http;
  delete_fd = λ fd w. w;
  close_fd = λ fd w. (false, w);
  close_stopped = λ w. w;
  wait_stopped = λ w. w;
  stop_timing_wheel = λ w. w;
  trigger_stop = λ w. w;
  stop_listener_loop = λ w. (false, w);
  stop_loop = λ l w. (false, w ++ (l ∷ []));
}

abbrev stop_log : StopLog stopping
stop_log = record {
  stopped = λ w. w;
  shutdown_lem = λ s w. refl;
  wait_lem = λ w. refl;
  timing_wheel_lem = λ w. refl;
  trigger_lem = λ w. refl;
  listener_lem = λ w. refl;
  stop_loop_lem = λ l w. refl;
}

stop-Stops_example :
    (stop stopping new_ws_server (4 ∷ 5 ∷ []) [] ≡ none)
    × (r : Bool × List ℕ) × (stop stopping
          (ws_start (new_option {lib = plain}) new_ws_server)
          (4 ∷ 5 ∷ [])
          []
        ≡ some r)
    × (r.1 ≡ [] ++ (if r.0 then [] else (4 ∷ 5 ∷ [])))
stop-Stops_example = stop-Stops stopping stop_log (new_option {lib = plain}) (4 ∷ 5 ∷ []) []
