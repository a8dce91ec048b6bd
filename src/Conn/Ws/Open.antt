-- ===== src/Conn/Ws/Open.antt =====
-- conn_ws.go: `NewWSConn`, the timer, and the public `Write` and `Close`, which act on the caller's
-- goroutine. A result of `err_closed` is ErrConnectionClosed.
use limnet.Base.{ℕ, ◌≡◌, refl, true, false, not, Option, none, some, List, []}
use limnet.Base.{ltb, if◌then◌else◌, ◌>>=◌}
use limnet.Base.Int.{ℤ, pos}
use limnet.RingBuffer.Defs.{RingBuffer}
use limnet.RingBuffer.Export.{ByteBuffers}
use limnet.Conn.Inbound.Laws.{Holds}
use limnet.Conn.Events.Idle.{TimerStep, ignore, close_idle, fire_after, close_timeout_conn}
use limnet.Conn.Ws.{WsHost, WsConn, ws_write, ws_handle_close, ws_release}

pub data WsResult : Type 0 where
  done : WsResult
  failed : WsResult
  err_closed : WsResult

module _ {lib : ByteBuffers} where
  unfoldable pub ws_get_id : WsConn lib → ℤ
  ws_get_id c = c.id

  unfoldable pub ws_get_addr : WsConn lib → List ℕ
  ws_get_addr c = c.addr

  unfoldable pub ws_context : WsConn lib → Option ℕ
  ws_context c = c.ctx

  unfoldable pub ws_set_context : Option ℕ → WsConn lib → WsConn lib
  ws_set_context ctx c = record c { ctx = ctx }

  unfoldable pub ws_status : WsConn lib → ℤ
  ws_status c = c.status

  unfoldable pub ws_set_status : ℤ → WsConn lib → WsConn lib
  ws_set_status status c = record c { status = status }

  unfoldable pub ws_version : WsConn lib → ℕ
  ws_version c = c.version

  unfoldable pub ws_set_version : ℕ → WsConn lib → WsConn lib
  ws_set_version version c = record c { version = version }

  -- a connection that has been closed
  abbrev pub closed_conn : WsConn lib → WsConn lib
  closed_conn c = record c {
    inp = record { connected = false; inbound_buffer = none; buffer = []; byte_buffer = none };
    ctx = none;
  }

module _ {lib : ByteBuffers} (host : WsHost) where
  open host use {World, now, get_ring, after_func}

  -- `NewWSConn`, for a positive `ConnIdleTime` or none, up to the start of the goroutine
  unfoldable pub new_ws_conn : ℤ → List ℕ → ℕ → World → WsConn lib × World
  new_ws_conn id addr conn_idle_time w =
      let (inbound_buffer, w) = get_ring w in
      (
        record {
          inp = record {
            connected = true;
            inbound_buffer = some inbound_buffer;
            buffer = [];
            byte_buffer = none;
          };
          active_time = if ltb 0 conn_idle_time then now w else 0;
          id = id;
          addr = addr;
          ctx = none;
          status = pos 0;
          version = 0;
        },
        if ltb 0 conn_idle_time then after_func conn_idle_time w else w,
      )

  unfoldable pub ws_public_write : List ℕ → WsConn lib → World → WsResult × World
  ws_public_write buf c w =
      if not c.inp.connected
      then (err_closed, w)
      else let r = ws_write host buf c w in (if r.0 then failed else done, r.1)

  unfoldable pub ws_public_close : WsConn lib × World → Option (WsResult × WsConn lib × World)
  ws_public_close (c, w) =
      if not c.inp.connected
      then some (err_closed, c, w)
      else do r ← ws_handle_close host (c, w); some (done, r.0, r.1)

  abbrev pub after_timer : TimerStep → WsConn lib × World → Option (WsConn lib × World)
  after_timer ignore s = some s
  after_timer close_idle s = do r ← ws_public_close s; some (r.1, r.2)
  after_timer (fire_after d) (c, w) = some (c, after_func d w)

  -- `closeTimeoutConn`, which runs on the timing wheel's goroutine, with the time in nanoseconds
  unfoldable pub ws_close_timeout_conn : ℕ → ℕ → WsConn lib × World → Option (WsConn lib × World)
  ws_close_timeout_conn conn_idle_time time (c, w) =
      after_timer (close_timeout_conn conn_idle_time c.active_time time c.inp.connected) (c, w)

  pub ws_public_close-closed :
      (c : WsConn lib) (w : World) (i : RingBuffer)
      → c.inp.connected ≡ true
      → Holds c.inp i
      → ws_public_close (c, w)
        ≡ some (done, closed_conn c, host.put_ring i (host.close (host.on_close w)))
  unfolding ws_public_close ws_handle_close ws_release
  ws_public_close-closed c w i up h = simp (up, h.held)

  -- `Close` on a connected connection that has its ring buffer does not panic; it calls OnClose, closes
  -- the websocket and puts the ring buffer back, in this order, and leaves a connection without
  -- buffers. A `Write` or a `Close` that follows is ErrConnectionClosed and does nothing.
  pub ws_public_close_lem :
      (c : WsConn lib) (w : World) (i : RingBuffer) (buf : List ℕ)
      → c.inp.connected ≡ true
      → Holds c.inp i
      → (t : WsConn lib) × (v : World) × (ws_public_close (c, w) ≡ some (done, t, v))
        × (v ≡ host.put_ring i (host.close (host.on_close w)))
        × (t.inp.inbound_buffer ≡ none)
        × (t.inp.buffer ≡ [])
        × (ws_public_write buf t v ≡ (err_closed, v))
        × (ws_public_close (t, v) ≡ some (err_closed, t, v))
  unfolding ws_public_close ws_public_write
  ws_public_close_lem c w i buf up h = (
    closed_conn c,
    host.put_ring i (host.close (host.on_close w)),
    ws_public_close-closed c w i up h,
    refl,
    refl,
    refl,
    refl,
    refl,
  )
