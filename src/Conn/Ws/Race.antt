-- ===== src/Conn/Ws/Race.antt =====
-- conn_ws.go: a `Close` on another goroutine, or the timer's, while `msgLoop` has a message in hand.
use limnet.Base.{ℕ, suc, ◌≡◌, refl, true, none, some, List, ltb, if◌then◌else◌}
use limnet.RingBuffer.Defs.{RingBuffer}
use limnet.RingBuffer.Export.{ByteBuffers}
use limnet.Conn.Inbound.{Inbound, read_all}
use limnet.Conn.Inbound.Laws.{Holds}
use limnet.Conn.Events.{UnPacket, default_un_packet}
use limnet.Conn.Ws.{WsHost, WsConn, ws_packets, after_message}
use limnet.Conn.Ws.Open.{done, ws_public_close, ws_public_close-closed, closed_conn}

module _ {lib : ByteBuffers} (host : WsHost) where
  -- Where another goroutine closes the connection after `msgLoop` has got a message and before it has
  -- called `unPacket`: `msgLoop` panics if `unPacket` panics on a connection that has released its
  -- ring buffer, as one does that calls `ReadN` first, and nothing recovers it; with the default
  -- `unPacket` it drops the message and goes on.
  pub close-after_message :
      (un_packet : UnPacket lib) (idle fuel : ℕ) (c : WsConn lib) (w : host.World) (i : RingBuffer)
      (message : List ℕ)
      → ((b : Inbound lib) → b.inbound_buffer ≡ none → un_packet b ≡ none)
      → c.inp.connected ≡ true
      → Holds c.inp i
      → (t : WsConn lib) × (v : host.World) × (ws_public_close host (c, w) ≡ some (done, t, v))
        × (after_message host un_packet idle (suc fuel) t (some message, v) ≡ none)
        × (u : WsConn lib) × (after_message host
              (default_un_packet lib)
              idle
              (suc fuel)
              t
              (some message, v)
            ≡ some (true, u, v))
  unfolding after_message ws_packets default_un_packet read_all
  close-after_message un_packet idle fuel c w i message panics up h =
      let v = host.put_ring i (host.close (host.on_close w)) in
      let active = if ltb 0 idle then host.now v else c.active_time in
      (
        closed_conn c,
        v,
        ws_public_close-closed host c w i up h,
        simp (panics (record (closed_conn c).inp { buffer = message }) refl),
        record (closed_conn c) {
          inp = record (closed_conn c).inp { buffer = message };
          active_time = active;
        },
        refl,
      )
