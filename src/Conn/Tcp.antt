-- ===== src/Conn/Tcp.antt =====
-- conn.go: `TCPConn` on its event loop. A context of the user is a reference, so a number. Its
-- descriptor and its event loop are those of the world. Logging is left out.
pub mod Delivery
pub mod Calls
pub mod Sending
pub mod Draining
use limnet.Base.{ℕ, ◌-◌, Bool, true, false, not, ◌&&◌, Option, none, some, List, []}
use limnet.Base.{ltb, ◌==◌, if◌then◌else◌, ◌>>=◌, length, slice}
use limnet.Base.Int.{ℤ, pos}
use limnet.RingBuffer.Defs.{RingBuffer, ring_length}
use limnet.RingBuffer.Reading.{lazy_read_all, shift}
use limnet.RingBuffer.Writing
use limnet.RingBuffer.Export.{ByteBuffers}
use limnet.Conn.Inbound.{Inbound}
use limnet.Conn.Host.{
  Host, WriteOutcome, wrote, write_again, write_failed, ReadOutcome, got, read_again, read_failed,
  enable_read, enable_read_write, delete_fd_in_loop,
}

pub record TcpConn (lib : ByteBuffers) : Type 0 where
  pub inp : Inbound lib
  pub outbound_buffer : Option RingBuffer
  pub active_time : ℕ
  pub id : ℤ
  pub addr : List ℕ
  pub ctx : Option ℕ
  pub status : ℤ
  pub version : ℕ

module _ {lib : ByteBuffers} where
  abbrev pub set_outbound : RingBuffer → TcpConn lib → TcpConn lib
  set_outbound b c = record c { outbound_buffer = some b }

  -- `c.connected.Set(false)`
  abbrev pub disconnect : TcpConn lib → TcpConn lib
  disconnect c = record c { inp = record c.inp { connected = false } }

  abbrev pub let_go : TcpConn lib → TcpConn lib
  let_go c = record c {
    inp = record c.inp { inbound_buffer = none; buffer = []; byte_buffer = none };
    outbound_buffer = none;
    ctx = none;
  }

  unfoldable pub connected : TcpConn lib → Bool
  connected c = c.inp.connected

  unfoldable pub set_context : Option ℕ → TcpConn lib → TcpConn lib
  set_context ctx c = record c { ctx = ctx }

  unfoldable pub set_status : ℤ → TcpConn lib → TcpConn lib
  set_status status c = record c { status = status }

  unfoldable pub set_version : ℕ → TcpConn lib → TcpConn lib
  set_version version c = record c { version = version }

  unfoldable pub get_id : TcpConn lib → ℤ
  get_id c = c.id

  unfoldable pub get_addr : TcpConn lib → List ℕ
  get_addr c = c.addr

  unfoldable pub context : TcpConn lib → Option ℕ
  context c = c.ctx

  unfoldable pub status : TcpConn lib → ℤ
  status c = c.status

  unfoldable pub version : TcpConn lib → ℕ
  version c = c.version

-- `Write` of a ring buffer, whose count and error are dropped
abbrev pub append_to : List ℕ → RingBuffer → Option RingBuffer
append_to p b = do r ← Writing.write p b; some r.2

abbrev pub State : ByteBuffers → Host → Type 0
State lib host = TcpConn lib × host.World

module _ {lib : ByteBuffers} (host : Host) where
  open host use {World, unix_write, unix_close, on_close, put_ring, get_ring, after_func, now}

  -- `NewTCPConn`, for a positive `ConnIdleTime` or none
  unfoldable pub new_tcp_conn : ℤ → List ℕ → ℕ → World → State lib host
  new_tcp_conn id addr conn_idle_time w =
      let (inbound_buffer, w) = get_ring w in
      let (outbound_buffer, w) = get_ring w in
      (
        record {
          inp = record {
            connected = true;
            inbound_buffer = some inbound_buffer;
            buffer = [];
            byte_buffer = none;
          };
          outbound_buffer = some outbound_buffer;
          active_time = if ltb 0 conn_idle_time then now w else 0;
          id = id;
          addr = addr;
          ctx = none;
          status = pos 0;
          version = 0;
        },
        if ltb 0 conn_idle_time then after_func conn_idle_time w else w,
      )

  -- Putting a ring buffer back that is nil panics.
  unfoldable pub release : State lib host → Option (State lib host)
  release (c, w) = do
    i ← c.inp.inbound_buffer
    o ← c.outbound_buffer
    some (let_go c, put_ring o (put_ring i w))

  unfoldable pub handle_close : State lib host → Option (State lib host)
  handle_close (c, w) =
      if c.inp.connected
      then release (disconnect c, unix_close (on_close (delete_fd_in_loop host w)))
      else some (c, w)

  -- the end of `write`; an error of `EnableReadWrite` or `EnableRead` is only logged
  abbrev pub watch : TcpConn lib → RingBuffer → World → State lib host
  watch c o w =
      (set_outbound o c, if ltb 0 (ring_length o) then (enable_read_write host w).1 else w)

  -- `write` after its write(2)
  unfoldable pub after_write :
      List ℕ → RingBuffer → TcpConn lib → WriteOutcome × World → Option (State lib host)
  after_write p o c (write_again, w) = do
    o ← append_to p o
    some (set_outbound o c, (enable_read_write host w).1)
  after_write p o c (write_failed, w) = handle_close (c, w)
  after_write p o c (wrote n, w) =
      if n == 0
      then (do o ← append_to p o; some (watch c o w))
      else if ltb n (length p)
      then (do rest ← slice n (length p) p; o ← append_to rest o; some (watch c o w))
      else some (watch c o w)

  unfoldable pub write : List ℕ → State lib host → Option (State lib host)
  write p (c, w) = if not c.inp.connected then some (c, w) else do
    o ← c.outbound_buffer
    if not o.is_empty
        then (do o ← append_to p o; some (set_outbound o c, w))
        else after_write p o c (unix_write p w)

  -- the end of `handleWrite`
  abbrev pub unwatch : TcpConn lib → RingBuffer → World → State lib host
  unwatch c o w = (set_outbound o c, if o.is_empty then (enable_read host w).1 else w)

  -- `handleWrite` after its second write(2)
  unfoldable pub after_tail :
      RingBuffer → TcpConn lib → WriteOutcome × World → Option (State lib host)
  after_tail o c (write_again, w) = some (set_outbound o c, w)
  after_tail o c (write_failed, w) = handle_close (set_outbound o c, w)
  after_tail o c (wrote n, w) = some (unwatch c (shift (pos n) o) w)

  -- `handleWrite` after its first write(2)
  unfoldable pub after_head :
      List ℕ × List ℕ → RingBuffer → TcpConn lib → WriteOutcome × World → Option (State lib host)
  after_head ht o c (write_again, w) = some (c, w)
  after_head ht o c (write_failed, w) = handle_close (c, w)
  after_head ht o c (wrote n, w) =
      let o = shift (pos n) o in
      if length ht.0 == n && not (length ht.1 == 0)
      then after_tail o c (unix_write ht.1 w)
      else some (unwatch c o w)

  unfoldable pub handle_write : State lib host → Option (State lib host)
  handle_write (c, w) = do
    o ← c.outbound_buffer
    ht ← lazy_read_all o
    after_head ht o c (unix_write ht.0 w)
