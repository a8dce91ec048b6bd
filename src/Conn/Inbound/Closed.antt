-- ===== src/Conn/Inbound/Closed.antt =====
-- conn.go: reading from a connection that has released its ring buffer.
use limnet.Base.{◌≡◌, false, none, some, []}
use limnet.Base.Int.{ℤ}
use limnet.RingBuffer.Export.{ByteBuffers}
use limnet.Conn.Inbound.{Inbound, read_all, read_n, shift_n, reset_buffer, buffer_length}

-- On a closed connection that has released its ring buffer `Read` gives nothing and changes nothing,
-- and each of `ReadN`, `ShiftN`, `ResetBuffer` and `BufferLength` panics.
pub closed-panics :
    (lib : ByteBuffers) (c : Inbound lib) (n : ℤ)
    → c.connected ≡ false
    → c.inbound_buffer ≡ none
    → (read_all lib c ≡ some ([], c))
      × (read_n lib n c ≡ none)
      × (shift_n lib n c ≡ none)
      × (reset_buffer lib c ≡ none)
      × (buffer_length lib c ≡ none)
unfolding read_all read_n shift_n reset_buffer buffer_length
closed-panics lib c n e z = (simp e, simp z, simp z, simp z, simp z)
