-- ===== src/Server/Examples.antt =====
-- A server that notes who connects, over a system with a free port.
use limnet.Base.{
  ℕ, suc, ◌≤◌, ◌≡◌, refl, Option, none, false, some, List, [], ◌∷◌, ◌++◌, length, take,
}
use limnet.Base.Int.{ℤ, pos}
use limnet.RingBuffer.Defs.{unallocated}
use limnet.RingBuffer.Fresh.{unallocated-IsValid}
use limnet.RingBuffer.Examples.{plain}
use limnet.Conn.Examples.{nothing_yet}
use limnet.Conn.Host.{Host, WriteOutcome, wrote, write_again, read_again}
use limnet.Server.{
  accepted, accept_failed, ServerHost, Server, ServerEvent, tcp_event, ws_request, Serving,
  init_connect_event_loop, serve_all,
}
use limnet.Server.SockAddr.{inet4}
use limnet.Server.Turns.{Logs}

pub record Visits : Type 0 where
  pub interest : Option ℕ
  pub loops : ℕ
  pub ids : List ℤ
  pub bound_to : List ℕ

abbrev nothing_sent : Visits → List ℕ
nothing_sent w = []

abbrev no_room : List ℕ → Visits → WriteOutcome × Visits
no_room p w = (write_again, w)

pub never_wrote :
    (p : List ℕ) (w : Visits) (n : ℕ) (v : Visits)
    → no_room p w ≡ (wrote n, v)
    → (n ≤ length p) × (nothing_sent v ≡ nothing_sent w ++ take n p) × (v.interest ≡ w.interest)
never_wrote p w n v e = absurd (cc)

pub still_waits :
    (p : List ℕ) (w v : Visits)
    → no_room p w ≡ (write_again, v)
    → (nothing_sent v ≡ nothing_sent w) × (v.interest ≡ w.interest)
still_waits p w v e = (refl, cc)

abbrev idle_host : Host
idle_host = record {
  World = Visits;
  sent = nothing_sent;
  watched = λ w. w.interest;
  unix_read = λ w. (read_again, w);
  unix_write = no_room;
  unix_close = λ w. w;
  epoll_mod = λ e w. (false, record w { interest = some e });
  epoll_del = λ w. w;
  forget_handler = λ w. w;
  on_close = λ w. w;
  on_packet = λ p w. ([], w);
  put_ring = λ b w. w;
  get_ring = λ w. (unallocated, w);
  after_func = λ d w. w;
  now = λ w. 0;
  get_ring_lem = λ w. (unallocated-IsValid, nothing_yet, refl);
  sent-after_func = λ d w. refl;
  wrote_lem = never_wrote;
  again_lem = still_waits;
  failed_lem = λ p w v e. refl;
  read_lem = λ w. (refl, refl);
  on_packet_lem = λ p w. (refl, refl);
  sent-epoll_mod = λ e w. refl;
  watched-epoll_mod = λ e x w h. (refl, refl);
  sent-epoll_del = λ w. refl;
  sent-forget_handler = λ w. refl;
  sent-on_close = λ w. refl;
  sent-unix_close = λ w. refl;
  sent-put_ring = λ b w. refl;
}

abbrev pub visited : ServerHost plain ℕ
visited = record {
  conn = idle_host;
  accept = λ fd w. (accepted 9 (inet4 10 0 0 1 5000), w);
  set_nonblock = λ fd w. (false, w);
  close_fd = λ fd w. w;
  on_connect = λ c w. (c, record w { ids = w.ids ++ (c.id ∷ []) });
  bind_handler = λ l fd c w. (false, record w { bound_to = w.bound_to ++ (l ∷ []) });
  new_loop = λ w. (some w.loops, record w { loops = suc w.loops });
  upgrade = λ w. (false, w);
  not_found = λ w. w;
  new_ws_conn = λ id w. w;
  on_connect_ws = λ id w. record w { ids = w.ids ++ (id ∷ []) };
}

abbrev pub visit_log : Logs visited
visit_log = record {
  connected = λ w. w.ids;
  bound = λ w. w.bound_to;
  get_ring_lem = λ w. (refl, refl);
  after_func_lem = λ d w. (refl, refl);
  accept_lem = λ fd w. (refl, refl);
  set_nonblock_lem = λ fd w. (refl, refl);
  close_fd_lem = λ fd w. (refl, refl);
  on_connect_lem = λ c w. (refl, refl);
  bind_handler_lem = λ l fd c w. (refl, refl);
  new_loop_lem = λ w. (refl, refl);
  upgrade_lem = λ w. (refl, refl);
  not_found_lem = λ w. (refl, refl);
  new_ws_conn_lem = λ id w. (refl, refl);
  on_connect_ws_lem = λ id w. (refl, refl);
}

abbrev pub nobody_yet : Visits
nobody_yet = record { interest = none; loops = 0; ids = []; bound_to = [] }

abbrev serving : Server ℕ × Visits
serving = (
  record { connect_loops = 0 ∷ 1 ∷ []; next_loop_index = 0; id_gen = 0 },
  record { interest = none; loops = 2; ids = []; bound_to = [] },
)

started : init_connect_event_loop visited (pos 2) 8 nobody_yet ≡ some serving
unfolding init_connect_event_loop limnet.Server.new_loops
started = refl
