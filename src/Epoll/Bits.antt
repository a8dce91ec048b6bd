-- ===== src/Epoll/Bits.antt =====
-- pkg/limpoller/epoll.go and conn.go: what the bits that epoll_wait(2) reports make a connection do.
use Prim.Native.Nat.{bit_or}
use limnet.Base.{ℕ, ◌≡◌, not, ◌&&◌, ◌||◌, some, ltb, if◌then◌else◌}
use limnet.RingBuffer.Defs.{RingBuffer}
use limnet.RingBuffer.Export.{ByteBuffers}
use limnet.Conn.Host.{Host}
use limnet.Conn.Tcp.{State, handle_close, handle_write}
use limnet.Conn.Events.{UnPacket, handle, handle_read}
use limnet.Conn.Events.Bits.{handle-three}
use limnet.Epoll.{has, r_events, epoll_in, epoll_pri, epoll_out, epoll_err, epoll_hup, epoll_rdhup}

module _ {lib : ByteBuffers} (host : Host) (un_packet : UnPacket lib) where
  -- What the bits of epoll make a connection with a ring buffer to send from do, after it has noted
  -- the time where it has an idle time: it closes exactly if they say hung up and nothing to read;
  -- otherwise, where bytes wait, it writes exactly if they say error or room, and, where none wait,
  -- it reads exactly if they say data, urgent data or that the peer will not write.
  pub handle-r_events :
      (conn_idle_time fuel events : ℕ) (s : State lib host) (o : RingBuffer)
      → s.0.outbound_buffer ≡ some o
      → let active =
          if ltb 0 conn_idle_time then record s.0 { active_time = host.now s.1 } else s.0 in
        handle host un_packet conn_idle_time fuel (r_events events) s ≡ (
          if has events epoll_hup && not (has events epoll_in)
          then handle_close host (active, s.1)
          else if not o.is_empty
          then (if has events epoll_err || has events epoll_out
              then handle_write host (active, s.1)
              else some (active, s.1))
          else if has events (bit_or (bit_or epoll_in epoll_pri) epoll_rdhup)
          then handle_read host un_packet fuel (active, s.1)
          else some (active, s.1))
  unfolding r_events
  handle-r_events conn_idle_time fuel events s o e =
      handle-three host un_packet conn_idle_time fuel
        (has events epoll_hup && not (has events epoll_in))
        (has events epoll_err || has events epoll_out)
        (has events (bit_or (bit_or epoll_in epoll_pri) epoll_rdhup)) s o e
