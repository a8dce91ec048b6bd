-- ===== src/Conn/Events/Broken.antt =====
-- conn.go: the loop over packets of `handleRead` after a reply that could not be written.
use limnet.Base.{ℕ, suc, ◌<◌, ◌≡◌, none, some, List, length, arith, ne→not-==}
use limnet.RingBuffer.Export.{ByteBuffers}
use limnet.Conn.Inbound.{Inbound}
use limnet.Conn.Host.{Host, got}
use limnet.Conn.Tcp.{TcpConn, State}
use limnet.Conn.Events.{UnPacket, respond, packets, after_read, handle_read}

module _ {lib : ByteBuffers} (host : Host) (un_packet : UnPacket lib) where
  -- Where `unPacket` panics on a connection that has released its ring buffer, as one does that calls
  -- `ReadN` first, and the reply to the first packet has closed the connection, as a write(2) that
  -- fails does: `handleRead` calls `unPacket` once more, and panics.
  pub handle_read-panics :
      (fuel : ℕ) (c : TcpConn lib) (w v : host.World) (buf packet : List ℕ) (out : Inbound lib)
      (s : State lib host)
      → ((i : Inbound lib) → i.inbound_buffer ≡ none → un_packet i ≡ none)
      → host.unix_read w ≡ (got buf, v)
      → 0 < length buf
      → un_packet (record c.inp { buffer = buf }) ≡ some (some packet, out)
      → respond host un_packet packet (record c { inp = out }, v) ≡ some s
      → s.0.inp.inbound_buffer ≡ none
      → handle_read host un_packet (suc (suc fuel)) (c, w) ≡ none
  unfolding handle_read after_read packets
  handle_read-panics fuel c w v buf packet out s panics e some_bytes taken answered released =
      let again = panics s.0.inp released in
      simp (e, ne→not-== (length buf) 0 (λ z. omega arith), taken, answered, again)
