-- ===== src/Conn/Events.antt =====
-- conn.go: `handleRead` and `Handle`, what an event of the poller makes a `TCPConn` do, and the
-- default `unPacket` of options.go. The loop over packets has fuel: running out of it is `none`.
-- An `unPacket` reads the connection only through its bytes.
use Prim.Native.Nat.{bit_and}
use limnet.Base.{ℕ, suc, zero, Bool, not, Option, none, some, List, []}
use limnet.Base.{ltb, ◌==◌, if◌then◌else◌, ◌>>=◌, length}
use limnet.RingBuffer.Defs.{RingBuffer}
use limnet.RingBuffer.Export.{ByteBuffers}
use limnet.Conn.Inbound.{Inbound, read_all, reset_buffer}
use limnet.Conn.Host.{Host, ReadOutcome, got, read_again, read_failed}
use limnet.Conn.Tcp.{TcpConn, State, append_to, handle_close, write, handle_write}
pub mod Respond
pub mod Default
pub mod Serve
pub mod Rounds
pub mod Arrival
pub mod Idle
pub mod Broken
mod Examples
pub mod Bits

-- limpoller.EventRead, EventWrite, EventErr
abbrev pub event_read : ℕ
event_read = 1

abbrev pub event_write : ℕ
event_write = 2

abbrev pub event_err : ℕ
event_err = 128

-- Is a bit of `events` set?
abbrev pub has : ℕ → ℕ → Bool
has events bits = not (bit_and events bits == 0)

-- What `UnPacket` returns, where no packet is nil, and the connection's bytes that it leaves.
abbrev pub UnPacket : ByteBuffers → Type 0
UnPacket lib = Inbound lib → Option (Option (List ℕ) × Inbound lib)

-- the `unPacket` that `NewOption` sets
unfoldable pub default_un_packet : (lib : ByteBuffers) → UnPacket lib
default_un_packet lib c = do
  buf ← read_all lib c
  if length buf.0 == 0
      then some (none, buf.1)
      else (do c ← reset_buffer lib buf.1; some (some buf.0, c))

module _ {lib : ByteBuffers} (host : Host) (un_packet : UnPacket lib) where
  open host use {World, unix_read, on_packet, now}

  -- `out := OnPacket(c, packet); if len(out) > 0 { c.write(out) }`
  unfoldable pub respond : List ℕ → State lib host → Option (State lib host)
  respond packet (c, w) =
      let out = on_packet packet w in
      if length out.0 == 0 then some (c, out.1) else write host out.0 (c, out.1)

  unfoldable pub packets : ℕ → State lib host → Option (State lib host)
  packets zero s = none
  packets (suc fuel) (c, w) = do
    r ← un_packet c.inp
    elim r.0 [
      | none ↦ some (record c { inp = r.1 }, w)
      | some packet ↦ do s ← respond packet (record c { inp = r.1 }, w); packets fuel s
    ]

  -- `c.inboundBuffer.Write(c.buffer)`, which looks at the ring buffer only if there are bytes
  unfoldable pub keep_rest : State lib host → Option (State lib host)
  keep_rest (c, w) = if length c.inp.buffer == 0 then some (c, w) else do
    i ← c.inp.inbound_buffer
    i ← append_to c.inp.buffer i
    some (record c { inp = record c.inp { inbound_buffer = some i } }, w)

  -- `handleRead` after its read(2)
  unfoldable pub after_read : ℕ → TcpConn lib → ReadOutcome × World → Option (State lib host)
  after_read fuel c (read_again, w) = some (c, w)
  after_read fuel c (read_failed, w) = handle_close host (c, w)
  after_read fuel c (got buf, w) =
      if length buf == 0
      then handle_close host (c, w)
      else do s ← packets fuel (record c { inp = record c.inp { buffer = buf } }, w); keep_rest s

  unfoldable pub handle_read : ℕ → State lib host → Option (State lib host)
  handle_read fuel (c, w) = after_read fuel c (unix_read w)

  -- `Handle`, for a positive `ConnIdleTime` or none
  unfoldable pub handle : ℕ → ℕ → ℕ → State lib host → Option (State lib host)
  handle conn_idle_time fuel events (c, w) =
      let c = if ltb 0 conn_idle_time then record c { active_time = now w } else c in
      if has events event_err then handle_close host (c, w) else do
        o ← c.outbound_buffer
        if not o.is_empty
            then (if has events event_write then handle_write host (c, w) else some (c, w))
            else if has events event_read
            then handle_read fuel (c, w)
            else some (c, w)
