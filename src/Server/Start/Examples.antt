-- ===== src/Server/Start/Examples.antt =====
-- A server that is made with two options, on a machine with two CPUs, and gets connections.
use limnet.Base.{ℕ, ◌≡◌, refl, true, false, some, none, List, [], ◌∷◌, arith, Option}
use limnet.Base.Int.{pos, pos_part}
use limnet.RingBuffer.Examples.{plain}
use limnet.Options.{Options, OptFunc, new_option, apply_all, with_ssl_on, with_conn_idle_time}
use limnet.Server.{
  accept_failed, ServerHost, ServerEvent, tcp_event, tcp_goes_on, ws_request, ws_goes_on, Serving,
  begun, serve_all,
}
use limnet.Server.Turns.{IsServed}
use limnet.Server.Examples.{Visits, visited, visit_log, nobody_yet}
use limnet.Server.Listen.{ListenHost}
use limnet.Server.Start.{StartHost, LimNet, new, Built, new-serves}

abbrev port_free : ListenHost Visits
port_free = record {
  socket = λ w. (some 3, w);
  bind = λ fd a w. (false, w);
  listen = λ fd n w. (false, w);
  set_nonblock = λ fd w. (false, w);
  bind_handler = λ fd w. (false, w);
}

abbrev starting_host : StartHost plain ℕ
starting_host = record {
  server = visited;
  listen = λ l. port_free;
  new_timing_wheel = λ tick size w. some w;
}

abbrev two_options : List (Option (OptFunc plain))
two_options = some (with_ssl_on true) ∷ none ∷ some (with_conn_idle_time (pos 0)) ∷ []

abbrev made_server : LimNet plain ℕ
made_server = record {
  opts = record (new_option {lib = plain}) {
    ssl_on = true;
    conn_idle_time = pos 0;
    conn_event_loop_num = pos 2;
  };
  listener_loop = 0;
  server = record { connect_loops = 1 ∷ 2 ∷ []; next_loop_index = 0; id_gen = 0 };
  tcp = record {
    accept_fd = 3;
    addr = limnet.Options.default_addr;
    real_addr = limnet.Options.default_addr;
  };
  ws = limnet.Server.Http.new_ws_server;
}

abbrev made_world : Visits
made_world = record nobody_yet { loops = 3 }

two_options_made : new starting_host 2 two_options nobody_yet ≡ some (made_server, made_world)
unfolding new limnet.Server.Start.build limnet.Server.init_connect_event_loop
    limnet.Server.new_loops apply_all with_ssl_on with_conn_idle_time new_option
    limnet.Server.Listen.init_and_add_to_loop_listen limnet.Server.Listen.after_socket
    limnet.Server.Addr.parse_addr limnet.Server.Addr.with_scheme limnet.Server.Addr.cut
    limnet.Server.Addr.after limnet.Server.Addr.head_part limnet.Server.Addr.parse_int
    limnet.Server.Addr.parse_uint limnet.Server.Addr.parse_digits limnet.Server.Addr.int_of
two_options_made = refl

abbrev visits : List ServerEvent
visits =
    tcp_event 3 1
    ∷ ws_request
    ∷ ws_goes_on 0
    ∷ tcp_goes_on
    ∷ ws_request
    ∷ tcp_event 3 1
    ∷ tcp_goes_on
    ∷ []

new-serves_example :
    (opts : Options plain) × (apply_all two_options new_option ≡ some opts)
    × Built starting_host 2 opts made_server
    × (t : Serving visited) × (serve_all visited
          (pos_part opts.conn_idle_time)
          visits
          (begun visited made_server.server made_world)
        ≡ some t)
    × IsServed visited visit_log made_server.server.connect_loops t
new-serves_example =
    new-serves starting_host 2 visit_log two_options nobody_yet made_world made_server visits
      two_options_made (omega arith) refl refl (omega arith) (λ fd v e. cc)
