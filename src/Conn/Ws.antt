-- ===== src/Conn/Ws.antt =====
-- conn_ws.go: `WSConn`. Its reading methods have the text of `TCPConn`'s; it writes each reply as
-- one message, and it has no buffer to send from. A context of the user is a reference, so a number.
use limnet.Base.{ℕ, zero, suc, Bool, true, false, not, Option, none, some, List, []}
use limnet.Base.{ltb, ◌==◌, if◌then◌else◌, ◌>>=◌, length}
use limnet.Base.Int.{ℤ}
use limnet.RingBuffer.Defs.{RingBuffer}
use limnet.RingBuffer.Export.{ByteBuffers}
use limnet.Conn.Inbound.{Inbound}
use limnet.Conn.Inbound
use limnet.Conn.Events.{UnPacket}
pub mod Messages
pub mod Open
pub mod Race
pub mod Examples

-- gorilla/websocket's connection, the user's handler and the ring buffers' pool, as functions on a
-- world. An error of WriteMessage is `true`; ReadMessage gives `none` for an error.
pub record WsHost : Type 1 where
  pub World : Type 0
  pub read_message : World → Option (List ℕ) × World
  pub write_message : List ℕ → World → Bool × World
  pub close : World → World
  pub on_close : World → World
  pub on_packet : List ℕ → World → List ℕ × World
  pub put_ring : RingBuffer → World → World
  pub get_ring : World → RingBuffer × World
  pub after_func : ℕ → World → World
  pub now : World → ℕ

pub record WsConn (lib : ByteBuffers) : Type 0 where
  pub inp : Inbound lib
  pub active_time : ℕ
  pub id : ℤ
  pub addr : List ℕ
  pub ctx : Option ℕ
  pub status : ℤ
  pub version : ℕ

module _ (lib : ByteBuffers) where
  unfoldable pub ws_read : WsConn lib → Option (List ℕ × WsConn lib)
  ws_read c = do r ← Inbound.read_all lib c.inp; some (r.0, record c { inp = r.1 })

  unfoldable pub ws_reset_buffer : WsConn lib → Option (WsConn lib)
  ws_reset_buffer c = do i ← Inbound.reset_buffer lib c.inp; some (record c { inp = i })

  unfoldable pub ws_read_n : ℤ → WsConn lib → Option (ℕ × List ℕ × WsConn lib)
  ws_read_n n c = do r ← Inbound.read_n lib n c.inp; some (r.0, r.1, record c { inp = r.2 })

  unfoldable pub ws_shift_n : ℤ → WsConn lib → Option (ℕ × WsConn lib)
  ws_shift_n n c = do r ← Inbound.shift_n lib n c.inp; some (r.0, record c { inp = r.1 })

module _ {lib : ByteBuffers} (host : WsHost) where
  open host use {World, read_message, write_message, on_close, on_packet, put_ring, now}

  -- whether there is an error, and the world after
  unfoldable pub ws_write : List ℕ → WsConn lib → World → Bool × World
  ws_write buf c w = if not c.inp.connected then (false, w) else write_message buf w

  unfoldable pub ws_release : WsConn lib × World → Option (WsConn lib × World)
  ws_release (c, w) = do
    i ← c.inp.inbound_buffer
    some (
      record c {
        inp = record c.inp { buffer = []; inbound_buffer = none; byte_buffer = none };
        ctx = none;
      },
      put_ring i w,
    )

  unfoldable pub ws_handle_close : WsConn lib × World → Option (WsConn lib × World)
  ws_handle_close (c, w) =
      if c.inp.connected
      then ws_release
          (record c { inp = record c.inp { connected = false } }, host.close (on_close w))
      else some (c, w)

  -- the inner loop of `msgLoop`
  unfoldable pub ws_packets : UnPacket lib → ℕ → WsConn lib × World → Option (WsConn lib × World)
  ws_packets un_packet zero s = none
  ws_packets un_packet (suc fuel) (c, w) = do
    r ← un_packet c.inp
    let c = record c { inp = r.1 }
    elim r.0 [
      | none ↦ some (c, w)
      | some packet ↦
          let out = on_packet packet w in
          ws_packets un_packet fuel
            (c, if length out.0 == 0 then out.1 else (ws_write out.0 c out.1).1)
    ]

  -- a round of `msgLoop` after its ReadMessage
  unfoldable pub after_message :
      UnPacket lib
      → ℕ
      → ℕ
      → WsConn lib
      → Option (List ℕ) × World
      → Option (Bool × WsConn lib × World)
  after_message un_packet conn_idle_time fuel c (none, w) = do
    s ← ws_handle_close (c, w)
    some (false, s.0, s.1)
  after_message un_packet conn_idle_time fuel c (some message, w) = do
    let active = if ltb 0 conn_idle_time then now w else c.active_time
    let c = record c { active_time = active; inp = record c.inp { buffer = message } }
    s ← ws_packets un_packet fuel (c, w)
    some (true, s.0, s.1)

  -- one round of `msgLoop`, and whether the loop goes on
  unfoldable pub msg_round :
      UnPacket lib → ℕ → ℕ → WsConn lib × World → Option (Bool × WsConn lib × World)
  msg_round un_packet conn_idle_time fuel (c, w) =
      after_message un_packet conn_idle_time fuel c (read_message w)
