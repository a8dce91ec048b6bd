-- ===== src/Kqueue/Eof.antt =====
-- pkg/limpoller/kqueue.go and conn.go: what an event of kevent(2) makes a connection do.
use limnet.Base.{ℕ, ◌≡◌, not, ◌||◌, some, ltb, if◌then◌else◌}
use limnet.RingBuffer.Defs.{RingBuffer}
use limnet.RingBuffer.Export.{ByteBuffers}
use limnet.Conn.Host.{Host}
use limnet.Conn.Tcp.{State, handle_close, handle_write}
use limnet.Conn.Events.{UnPacket, handle, handle_read}
use limnet.Conn.Events.{has}
use limnet.Kqueue.Waiting.{KqueueEvent, ev_error, ev_eof, is_write, is_read, r_events}
use limnet.Conn.Events.Bits.{handle-three}

module _ {lib : ByteBuffers} (host : Host) (un_packet : UnPacket lib) where
  -- What an event of kevent(2) makes a connection with a ring buffer to send from do, after it has
  -- noted the time where it has an idle time: it closes exactly if the event is an error or the end of
  -- the stream, whatever is left to read; otherwise, where bytes wait, it writes exactly if the event
  -- is one for writing, and, where none wait, it reads exactly if it is one for reading.
  pub handle-kevent :
      (conn_idle_time fuel : ℕ) (e : KqueueEvent) (s : State lib host) (o : RingBuffer)
      → s.0.outbound_buffer ≡ some o
      → let active =
          if ltb 0 conn_idle_time then record s.0 { active_time = host.now s.1 } else s.0 in
        handle host un_packet conn_idle_time fuel (r_events e) s ≡ (
          if has e.flags ev_error || has e.flags ev_eof
          then handle_close host (active, s.1)
          else if not o.is_empty
          then (if is_write e.filter then handle_write host (active, s.1) else some (active, s.1))
          else if is_read e.filter
          then handle_read host un_packet fuel (active, s.1)
          else some (active, s.1))
  unfolding r_events
  handle-kevent conn_idle_time fuel e s o h =
      handle-three host un_packet conn_idle_time fuel (has e.flags ev_error || has e.flags ev_eof)
        (is_write e.filter) (is_read e.filter) s o h
