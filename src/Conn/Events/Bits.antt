-- ===== src/Conn/Events/Bits.antt =====
-- conn.go: what the three bits of an event make `Handle` do.
use Prim.Native.Nat.{bit_or}
use limnet.Base.{ℕ, ◌≡◌, refl, ◌∙◌, Bool, true, false, not, some, ltb, if◌then◌else◌}
use limnet.RingBuffer.Defs.{RingBuffer}
use limnet.RingBuffer.Export.{ByteBuffers}
use limnet.Conn.Host.{Host}
use limnet.Conn.Tcp.{TcpConn, State, handle_close, handle_write}
use limnet.Conn.Events.{UnPacket, handle, handle_read, event_read, event_write, event_err, has}

abbrev pub three : Bool → Bool → Bool → ℕ
three a b c =
    bit_or (bit_or (if a then event_err else 0) (if b then event_write else 0))
      (if c then event_read else 0)

three_bits :
    (a b c : Bool)
    → (has (three a b c) event_err ≡ a)
      × (has (three a b c) event_write ≡ b)
      × (has (three a b c) event_read ≡ c)
three_bits true true true = (refl, refl, refl)
three_bits true true false = (refl, refl, refl)
three_bits true false true = (refl, refl, refl)
three_bits true false false = (refl, refl, refl)
three_bits false true true = (refl, refl, refl)
three_bits false true false = (refl, refl, refl)
three_bits false false true = (refl, refl, refl)
three_bits false false false = (refl, refl, refl)

active_lem :
    {lib : ByteBuffers} (b : Bool) (c : TcpConn lib) (now : ℕ)
    → (if b then record c { active_time = now } else c).outbound_buffer ≡ c.outbound_buffer
active_lem true c now = refl
active_lem false c now = refl

module _ {lib : ByteBuffers} (host : Host) (un_packet : UnPacket lib) where
  pub handle-three :
      (conn_idle_time fuel : ℕ) (err write read : Bool) (s : State lib host) (o : RingBuffer)
      → s.0.outbound_buffer ≡ some o
      → let active =
          if ltb 0 conn_idle_time then record s.0 { active_time = host.now s.1 } else s.0 in
        handle host un_packet conn_idle_time fuel (three err write read) s ≡ (
          if err
          then handle_close host (active, s.1)
          else if not o.is_empty
          then (if write then handle_write host (active, s.1) else some (active, s.1))
          else if read
          then handle_read host un_packet fuel (active, s.1)
          else some (active, s.1))
  unfolding handle
  handle-three conn_idle_time fuel err write read (c, w) o e =
      let (x, y, z) = three_bits err write read in
      simp (x, y, z) (rw (active_lem (ltb 0 conn_idle_time) c (host.now w) ∙ e) refl)
