-- ===== src/Server/Start.antt =====
-- server.go: `New`; server_tcp.go: `NewTCPServer`. What the timing
-- wheel does is left out, but for the panic of NewTimingWheel.
mod Examples
use limnet.Base.{
  ℕ, ◌+◌, ◌^◌, ◌<◌, ◌≡◌, ◌≢◌, refl, sym, ap, ◌∙◌, subst, Option, none, some, List, [], length,
  arith, Option-cases, inl, inr, bind_lem, ◌>>=◌, ◌==◌, if◌then◌else◌,
}
use limnet.Base.Int.{ℤ, pos, negsuc, pos_part}
use limnet.RingBuffer.Export.{ByteBuffers}
use limnet.Options.{Options, OptFunc, new_option, apply_all}
use limnet.Server.{
  accept_failed, ServerHost, Server, ServerEvent, Serving, begun, new_loops,
  init_connect_event_loop, serve_all,
}
use limnet.Server.Turns.{
  Logs, IsServed, wanted, wanted-positive, new_loops-length, new-IsServed, serve_all-IsServed,
}
use limnet.Server.Http.{WsServer, new_ws_server}
use limnet.Server.Listen.{ListenHost, init_and_add_to_loop_listen}

-- `listen` has the calls of TCPServer, with `BindHandler` of this loop as that of the listener.
-- `new_timing_wheel` panics on a tick that is too short.
pub record StartHost (lib : ByteBuffers) (L : Type 0) : Type 1 where
  pub server : ServerHost lib L
  pub listen : L → ListenHost server.conn.World
  pub new_timing_wheel : ℤ → ℤ → server.conn.World → Option server.conn.World

pub record TcpServer : Type 0 where
  pub accept_fd : ℕ
  pub addr : List ℕ
  pub real_addr : List ℕ

abbrev pub get_real_addr : TcpServer → List ℕ
get_real_addr s = s.addr

-- `server` has the loops of the connections, `nextLoopIndex` and `idGen`.
pub record LimNet (lib : ByteBuffers) (L : Type 0) : Type 0 where
  pub opts : Options lib
  pub listener_loop : L
  pub server : Server L
  pub tcp : TcpServer
  pub ws : WsServer

-- an `err` that is not nil panics
abbrev pub made : {L World : Type 0} → Option L × World → Option (L × World)
made (none, w) = none
made (some l, w) = some (l, w)

abbrev pub new_tcp_server :
    {World : Type 0} → ListenHost World → List ℕ → World → Option (TcpServer × World)
new_tcp_server host addr w = do
  r ← init_and_add_to_loop_listen host addr w
  some (record { accept_fd = r.0; addr = addr; real_addr = addr }, r.1)

tcp-addr :
    {World : Type 0} (host : ListenHost World) (addr : List ℕ) (w : World) (r : TcpServer × World)
    → new_tcp_server host addr w ≡ some r
    → r.0.addr ≡ addr
tcp-addr host addr w r e =
    let (fd, q, e1) = bind_lem (init_and_add_to_loop_listen host addr w) _ r e in
    let f : (record { accept_fd = fd.0; addr = addr; real_addr = addr }, fd.1) ≡ r = cc in
    sym (ap (λ s. s.0.addr) f)

module _ {lib : ByteBuffers} {L : Type 0} (host : StartHost lib L) (num_cpu : ℕ) where
  abbrev pub World : Type 0
  World = host.server.conn.World

  abbrev assembled : Options lib → L → Server L → TcpServer → LimNet lib L
  assembled opts listener_loop s tcp =
      let num = pos_part opts.conn_event_loop_num in
      record {
        opts = record opts {
          conn_event_loop_num = if num == 0 then pos num_cpu else opts.conn_event_loop_num;
        };
        listener_loop = listener_loop;
        server = s;
        tcp = tcp;
        ws = new_ws_server;
      }

  -- `New` after its options
  unfoldable pub build : Options lib → World → Option (LimNet lib L × World)
  build opts w = do
    w ← host.new_timing_wheel opts.timing_wheel_tick opts.timing_wheel_size w
    l ← made (host.server.new_loop w)
    s ← init_connect_event_loop host.server opts.conn_event_loop_num num_cpu l.1
    t ← new_tcp_server (host.listen l.0) opts.addr s.1
    some (assembled opts l.0 s.0 t.0, t.1)

  unfoldable pub new : List (Option (OptFunc lib)) → World → Option (LimNet lib L × World)
  new opt_funcs w = do opts ← apply_all opt_funcs new_option; build opts w

  -- what `New` makes of these options
  pub record Built (opts : Options lib) (l : LimNet lib L) : Type 0 where
    pub num_set : l.opts.conn_event_loop_num ≡ pos (wanted opts.conn_event_loop_num num_cpu)
    pub num_made : length l.server.connect_loops ≡ wanted opts.conn_event_loop_num num_cpu
    pub fresh :
        l.server
        ≡ record { connect_loops = l.server.connect_loops; next_loop_index = 0; id_gen = 0 }
    pub idle_kept : l.opts.conn_idle_time ≡ opts.conn_idle_time
    pub listens : l.tcp.addr ≡ opts.addr
    pub not_run : l.ws ≡ new_ws_server

  wanted-num :
      (num : ℤ) → (if pos_part num == 0 then pos num_cpu else num) ≡ pos (wanted num num_cpu)
  wanted-num (pos n) = ground arith
  wanted-num (negsuc n) = refl

  module _ (logs : Logs host.server) where
    open logs use {connected, bound}

    init-length :
        (num : ℤ) (w : World) (s : Server L × World)
        → init_connect_event_loop host.server num num_cpu w ≡ some s
        → (length s.0.connect_loops ≡ wanted num num_cpu)
          × (s.0 ≡ record { connect_loops = s.0.connect_loops; next_loop_index = 0; id_gen = 0 })
    unfolding init_connect_event_loop
    init-length num w s e = elim (Option-cases (new_loops host.server (wanted num num_cpu) w).0) [
      | inl q ↦ absurd (let z = simp q at e in cc)
      | inr (ls, q) ↦
          let z = simp q at e in
          let first : Server L × World = (
            record { connect_loops = ls; next_loop_index = 0; id_gen = 0 },
            (new_loops host.server (wanted num num_cpu) w).1,
          ) in
          let f : first ≡ s = cc in
          subst
            (λ (t : Server L × World).
              (length t.0.connect_loops ≡ wanted num num_cpu)
              × (t.0
                  ≡ record { connect_loops = t.0.connect_loops; next_loop_index = 0; id_gen = 0 }))
            f ((new_loops-length host.server logs (wanted num num_cpu) w ls q).0, refl)
    ]

    build-Built :
        (opts : Options lib) (w : World) (l : LimNet lib L) (v : World)
        → build opts w ≡ some (l, v)
        → Built opts l
    unfolding build
    build-Built opts w l v e =
        let (a, q, e1) =
          bind_lem (host.new_timing_wheel opts.timing_wheel_tick opts.timing_wheel_size w) _ (l, v)
            e in
        let (loop, q2, e2) = bind_lem (made (host.server.new_loop a)) _ (l, v) e1 in
        let (s, q3, e3) =
          bind_lem (init_connect_event_loop host.server opts.conn_event_loop_num num_cpu loop.1) _
            (l, v) e2 in
        let (t, q4, e4) =
          bind_lem (new_tcp_server (host.listen loop.0) opts.addr s.1) _ (l, v) e3 in
        let out : LimNet lib L × World = (assembled opts loop.0 s.0 t.0, t.1) in
        let whole : out ≡ (l, v) = cc in
        let (num_made, fresh) = init-length opts.conn_event_loop_num loop.1 s q3 in
        let addr = tcp-addr (host.listen loop.0) opts.addr s.1 t q4 in
        subst (Built opts) (ap (λ r. r.0) whole) (record {
          num_set = wanted-num opts.conn_event_loop_num;
          num_made = num_made;
          fresh = fresh;
          idle_kept = refl;
          listens = addr;
          not_run = refl;
        })

    -- A server that `New` has made with any options has as many loops for connections as the options
    -- want, or one for each CPU where that is not positive, and says so in its options; its TCP server
    -- has the address of the options, and its HTTP server has not been started. Where accept(2) never fails but for want of a connection, no
    -- connection has been given to OnConnect or to BindHandler yet, and there are fewer than 2^63
    -- events, whatever the events are, where each goroutine may be held up between its AddInt64 and
    -- OnConnect: no call panics; the identifiers that OnConnect has got, TCP connections and WebSockets
    -- together, and those that the goroutines so held up have, are 1, 2, 3, … up to the last one given
    -- out, each once, in whatever order; and BindHandler is called on the loops in turn.
    pub new-serves :
        (opt_funcs : List (Option (OptFunc lib))) (w v : World) (l : LimNet lib L)
        (es : List ServerEvent)
        → new opt_funcs w ≡ some (l, v)
        → 0 < num_cpu
        → connected v ≡ []
        → bound v ≡ []
        → length es < 2 ^ 63
        → ((fd : ℕ) (u : World) → (host.server.accept fd u).0 ≢ accept_failed)
        → (opts : Options lib) × (apply_all opt_funcs new_option ≡ some opts)
          × Built opts l
          × (t : Serving host.server) × (serve_all host.server
                (pos_part opts.conn_idle_time)
                es
                (begun host.server l.server v)
              ≡ some t)
          × IsServed host.server logs l.server.connect_loops t
    unfolding new
    new-serves opt_funcs w v l es e cpus none_yet unbound small fine =
        let (opts, applied, e1) = bind_lem (apply_all opt_funcs new_option) _ (l, v) e in
        let b = build-Built opts w l v e1 in
        let loops = l.server.connect_loops in
        let pos_loops : 0 < length loops =
          let p = wanted-positive opts.conn_event_loop_num num_cpu cpus in
          let n = b.num_made in omega (arith, p, n) in
        let start =
          subst (λ s. IsServed host.server logs loops (begun host.server s v)) (sym b.fresh)
            (new-IsServed host.server logs loops v none_yet unbound) in
        let none_given : l.server.id_gen ≡ 0 = ap (λ s. s.id_gen) b.fresh in
        let (t, ok, y) =
          serve_all-IsServed host.server logs loops pos_loops (pos_part opts.conn_idle_time) es
            (begun host.server l.server v) start (omega (arith, none_given, small)) fine in
        (opts, applied, b, t, ok, y)
