-- ===== src/Conn/Inbound.antt =====
-- conn.go: `Read`, `ReadN`, `ShiftN`, `ResetBuffer` and `BufferLength` of `TCPConn`; `WSConn` in
-- conn_ws.go has the same text. The ring buffer is `none` once the connection has released it, and
-- a method call on it then panics. Slices that share memory are values.
pub mod Laws
pub mod Closed
use limnet.Base.{ℕ, ◌+◌, ◌-◌, Bool, ◌||◌, Option, none, some, List, []}
use limnet.Base.{ltb, leb, ◌==◌, if◌then◌else◌, ◌>>=◌, length, slice}
use limnet.Base.Int.{ℤ, pos, pos_part}
use limnet.RingBuffer.Defs.{RingBuffer, ring_length, reset}
use limnet.RingBuffer.Reading.{lazy_read, shift}
use limnet.RingBuffer.Export.{ByteBuffers, with_byte_buffer}

pub record Inbound (lib : ByteBuffers) : Type 0 where
  pub connected : Bool
  pub inbound_buffer : Option RingBuffer
  pub buffer : List ℕ
  pub byte_buffer : Option (lib.ByteBuffer)

-- `totalLen < n || n <= 0`
abbrev pub is_all : ℕ → ℤ → Bool
is_all total n = ltb total (pos_part n) || pos_part n == 0

-- What is read where `n` bytes are asked for.
abbrev pub amount : ℕ → ℤ → ℕ
amount total n = if is_all total n then total else pos_part n

module _ (lib : ByteBuffers) where
  open lib use {get, append, bytes}

  unfoldable pub buffer_length : Inbound lib → Option ℕ
  buffer_length c = do b ← c.inbound_buffer; some (ring_length b + length c.buffer)

  unfoldable pub read_all : Inbound lib → Option (List ℕ × Inbound lib)
  read_all c =
      if c.connected
      then (do
        b ← c.inbound_buffer
        if b.is_empty then some (c.buffer, c) else (do
          bb ← with_byte_buffer lib c.buffer b
          some (bytes bb, record c { byte_buffer = some bb })))
      else some ([], c)

  unfoldable pub reset_buffer : Inbound lib → Option (Inbound lib)
  reset_buffer c = do
    b ← c.inbound_buffer
    some (record c { buffer = []; inbound_buffer = some (reset b); byte_buffer = none })

  -- `ReadN` once the length is known
  unfoldable pub read_upto : ℕ → RingBuffer → Inbound lib → Option (ℕ × List ℕ × Inbound lib)
  read_upto n b c = if b.is_empty then (do buf ← slice 0 n c.buffer; some (n, buf, c)) else (do
    ht ← lazy_read (pos n) b
    let bb = append (append get ht.0) ht.1
    if leb n (ring_length b) then some (n, bytes bb, record c { byte_buffer = some bb }) else (do
      rest ← slice 0 (n - ring_length b) c.buffer
      let bb = append bb rest
      some (n, bytes bb, record c { byte_buffer = some bb })))

  unfoldable pub read_n : ℤ → Inbound lib → Option (ℕ × List ℕ × Inbound lib)
  read_n n c = do b ← c.inbound_buffer; read_upto (amount (ring_length b + length c.buffer) n) b c

  -- `ShiftN` where something stays
  unfoldable pub shift_upto : ℕ → RingBuffer → Inbound lib → Option (ℕ × Inbound lib)
  shift_upto n b c =
      if b.is_empty
      then (do buffer ← slice n (length c.buffer) c.buffer; some (n, record c { buffer = buffer }))
      else if leb n (ring_length b)
      then some (n, record c { inbound_buffer = some (shift (pos n) b); byte_buffer = none })
      else (do
        buffer ← slice (n - ring_length b) (length c.buffer) c.buffer
        some (n, record c { inbound_buffer = some (reset b); buffer = buffer; byte_buffer = none }))

  unfoldable pub shift_n : ℤ → Inbound lib → Option (ℕ × Inbound lib)
  shift_n n c = do
    b ← c.inbound_buffer
    let total = ring_length b + length c.buffer
    if is_all total n then (do c ← reset_buffer c; some (total, c)) else shift_upto (pos_part n) b c
