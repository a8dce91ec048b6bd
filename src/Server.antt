-- ===== src/Server.antt =====
-- server.go, and the requests and connections of server_ws.go: how `LIMNet` accepts connections,
-- numbers them and spreads them over its event loops. The loops are of any type. What other goroutines
-- do, an HTTP server's included, is in the order of the events.
pub mod Turns
pub mod Addr
pub mod SockAddr
pub mod Listen
pub mod Run
pub mod Http
pub mod Stop
pub mod Start
mod Examples
use Prim.Native.Nat.{bit_and}
use limnet.Base.{
  ℕ, ◌+◌, ◌%◌, Bool, true, false, not, Option, none, some, List, [], ◌∷◌, ◌==◌, if◌then◌else◌,
  ◌>>=◌, length, zero, suc,
}
use limnet.Base.Int.{ℤ, pos_part, wrap_int}
use limnet.RingBuffer.Export.{ByteBuffers}
use limnet.Server.SockAddr.{Sockaddr, sock_addr_to_string}
use limnet.Conn.Host.{Host}
use limnet.Conn.Events.{event_read}
use limnet.Conn.Tcp.{TcpConn, new_tcp_conn}

-- the results of an accept(2): a descriptor with the peer's address, EAGAIN, or another error
pub data Accepted : Type 0 where
  accepted : ℕ → Sockaddr → Accepted
  accept_again : Accepted
  accept_failed : Accepted

-- What the server calls; a result of `true` is an error. `new_loop` is eventloop.New,
-- `upgrade` the Upgrade of gorilla/websocket for a request, `not_found` the answer http.NotFound, and
-- `new_ws_conn` NewWSConn, for the connection with this identifier.
pub record ServerHost (lib : ByteBuffers) (L : Type 0) : Type 1 where
  pub conn : Host
  pub accept : ℕ → conn.World → Accepted × conn.World
  pub set_nonblock : ℕ → conn.World → Bool × conn.World
  pub close_fd : ℕ → conn.World → conn.World
  pub on_connect : TcpConn lib → conn.World → TcpConn lib × conn.World
  pub bind_handler : L → ℕ → TcpConn lib → conn.World → Bool × conn.World
  pub new_loop : conn.World → Option L × conn.World
  pub upgrade : conn.World → Bool × conn.World
  pub not_found : conn.World → conn.World
  pub new_ws_conn : ℤ → conn.World → conn.World
  pub on_connect_ws : ℤ → conn.World → conn.World

-- `id_gen` is an int64 that has not been negative.
pub record Server (L : Type 0) : Type 0 where
  pub connect_loops : List L
  pub next_loop_index : ℕ
  pub id_gen : ℕ

unfoldable pub loop_at : {L : Type 0} → List L → ℕ → Option L
loop_at [] n = none
loop_at (x ∷ xs) zero = some x
loop_at (x ∷ xs) (suc n) = loop_at xs n

-- `nextLoop`, which panics where the index is out of range
unfoldable pub next_loop : {L : Type 0} → Server L → Option (L × Server L)
next_loop s = do
  loop ← loop_at s.connect_loops s.next_loop_index
  some (loop, record s { next_loop_index = (s.next_loop_index + 1) % length s.connect_loops })

-- A TCP connection between AddInt64 and OnConnect
pub record Numbered (L : Type 0) : Type 0 where
  pub loop : L
  pub client_id : ℤ
  pub connfd : ℕ
  pub sa : Sockaddr

-- An event of the listening descriptor, or a request to the HTTP server; and that the goroutine of the
-- listening loop, or of one of the requests, goes on after its AddInt64
pub data ServerEvent : Type 0 where
  tcp_event : ℕ → ℕ → ServerEvent
  tcp_goes_on : ServerEvent
  ws_request : ServerEvent
  ws_goes_on : ℕ → ServerEvent

-- the request at this index, and the others
unfoldable pub take_out : List ℤ → ℕ → Option (ℤ × List ℤ)
take_out [] n = none
take_out (x ∷ xs) zero = some (x, xs)
take_out (x ∷ xs) (suc n) = do r ← take_out xs n; some (r.0, x ∷ r.1)

module _ {lib : ByteBuffers} {L : Type 0} (host : ServerHost lib L) where
  -- What the goroutines share, and where they stand: `accepting` is the connection of the listening
  -- loop's goroutine between AddInt64 and OnConnect, if it is there, and `requests` are the identifiers
  -- of the requests whose goroutines are there.
  pub record Serving : Type 0 where
    pub server : Server L
    pub accepting : Option (Numbered L)
    pub requests : List ℤ
    pub world : host.conn.World

  -- the server when `New` has made it
  abbrev pub begun : Server L → host.conn.World → Serving
  begun s w = record { server = s; accepting = none; requests = []; world = w }

  -- A loop that cannot be made, or one before the rest
  abbrev pub with_loop :
      Option L
      → host.conn.World
      → Option (List L) × host.conn.World
      → Option (List L) × host.conn.World
  with_loop none w rest = (none, w)
  with_loop (some l) w rest = (do ls ← rest.0; some (l ∷ ls), rest.1)

  -- the loop of `initConnectEventLoop`
  unfoldable pub new_loops : ℕ → host.conn.World → Option (List L) × host.conn.World
  new_loops zero w = (some [], w)
  new_loops (suc n) w = let r = host.new_loop w in with_loop r.0 r.1 (new_loops n r.1)

  -- `initConnectEventLoop` in `New`, where a loop that cannot be made panics
  unfoldable pub init_connect_event_loop :
      ℤ → ℕ → host.conn.World → Option (Server L × host.conn.World)
  init_connect_event_loop conn_event_loop_num num_cpu w =
      let n = pos_part conn_event_loop_num in
      let r = new_loops (if n == 0 then num_cpu else n) w in
      do ls ← r.0; some (record { connect_loops = ls; next_loop_index = 0; id_gen = 0 }, r.1)

  -- `handleNewConnection` of `WSServer` up to its AddInt64
  unfoldable pub number_ws : Serving → Serving
  number_ws s =
      let client_id = s.server.id_gen + 1 in
      record s {
        server = record s.server { id_gen = client_id };
        requests = wrap_int client_id ∷ s.requests;
      }

  -- the rest of it
  unfoldable pub connect_ws : ℤ → host.conn.World → host.conn.World
  connect_ws client_id w = host.on_connect_ws client_id (host.new_ws_conn client_id w)

  abbrev pub connect_request : Option (ℤ × List ℤ) → Serving → Serving
  connect_request none s = s
  connect_request (some r) s = record s { requests = r.1; world = connect_ws r.0 s.world }

  -- `server` of `WSServer`, the handler of a request, up to its AddInt64. This is one step: the AddInt64
  -- does not touch the world, and requests are alike, so that it is no matter which of two that have
  -- been upgraded comes first.
  unfoldable pub ws_server : Serving → Serving
  ws_server s =
      let r = host.upgrade s.world in
      if r.0 then record s { world = host.not_found r.1 } else number_ws (record s { world = r.1 })

  module _ (conn_idle_time : ℕ) where
    -- `handleNewConnection` of `LIMNet` up to its AddInt64
    unfoldable pub number_tcp : ℕ → Sockaddr → Serving → Option Serving
    number_tcp connfd sa s = do
      r ← next_loop s.server
      let client_id = r.1.id_gen + 1
      some (record s {
        server = record r.1 { id_gen = client_id };
        accepting =
            some (record { loop = r.0; client_id = wrap_int client_id; connfd = connfd; sa = sa });
      })

    -- the rest of it; an error of BindHandler is only logged.
    unfoldable pub connect_tcp : Numbered L → host.conn.World → host.conn.World
    connect_tcp x w =
        let (c, w) =
          new_tcp_conn host.conn x.client_id (sock_addr_to_string x.sa) conn_idle_time w in
        let (c, w) = host.on_connect c w in (host.bind_handler x.loop x.connfd c w).1

    unfoldable pub nonblocking : ℕ → Sockaddr → Bool × host.conn.World → Serving → Option Serving
    nonblocking connfd sa (true, w) s = some (record s { world = host.close_fd connfd w })
    nonblocking connfd sa (false, w) s = number_tcp connfd sa (record s { world = w })

    unfoldable pub after_accept : Accepted × host.conn.World → Serving → Option Serving
    after_accept (accept_again, w) s = some (record s { world = w })
    after_accept (accept_failed, w) s = none
    after_accept (accepted connfd sa, w) s = nonblocking connfd sa (host.set_nonblock connfd w) s

    -- `Handle`, which panics where accept(2) fails, up to the AddInt64 of `handleNewConnection`
    unfoldable pub handle : ℕ → ℕ → Serving → Option Serving
    handle fd event s =
        if bit_and event event_read == 0 then some s else after_accept (host.accept fd s.world) s

    -- The listening loop has the next event only after the one before.
    abbrev pub listen_event : Option (Numbered L) → ℕ → ℕ → Serving → Option Serving
    listen_event none fd event s = handle fd event s
    listen_event (some x) fd event s = some s

    abbrev pub connect_accepted : Option (Numbered L) → Serving → Serving
    connect_accepted none s = s
    connect_accepted (some x) s = record s { accepting = none; world = connect_tcp x s.world }

    unfoldable pub serve : ServerEvent → Serving → Option Serving
    serve (tcp_event fd event) s = listen_event s.accepting fd event s
    serve tcp_goes_on s = some (connect_accepted s.accepting s)
    serve ws_request s = some (ws_server s)
    serve (ws_goes_on n) s = some (connect_request (take_out s.requests n) s)

    unfoldable pub serve_all : List ServerEvent → Serving → Option Serving
    serve_all [] s = some s
    serve_all (e ∷ es) s = do s ← serve e s; serve_all es s
