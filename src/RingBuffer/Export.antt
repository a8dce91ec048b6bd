-- ===== src/RingBuffer/Export.antt =====
-- pkg/ringbuffer/ringbuffer.go: `ByteBuffer` and `WithByteBuffer`, over pkg/bytebuffer, which passes
-- on github.com/valyala/bytebufferpool.
pub mod Laws
use limnet.Base.{ℕ, ◌≡◌, not, Option, none, some, List, [], ◌++◌, ltb, ◌==◌, if◌then◌else◌}
use limnet.Base.{◌>>=◌, length, slice}
use limnet.RingBuffer.Defs.{RingBuffer}

-- What the code relies on of a pooled byte buffer: `Get` gives an empty one, `Write` appends and
-- does not fail, `Bytes` is what was written; `of_bytes` is `&ByteBuffer{B: b}`.
pub record ByteBuffers : Type 1 where
  pub ByteBuffer : Type 0
  pub get : ByteBuffer
  pub append : ByteBuffer → List ℕ → ByteBuffer
  pub of_bytes : List ℕ → ByteBuffer
  pub bytes : ByteBuffer → List ℕ
  pub bytes-get : bytes get ≡ []
  pub bytes-append : (bb : ByteBuffer) (p : List ℕ) → bytes (append bb p) ≡ bytes bb ++ p
  pub bytes-of_bytes : (p : List ℕ) → bytes (of_bytes p) ≡ p

module _ (lib : ByteBuffers) where
  open lib use {ByteBuffer, get, append, of_bytes}

  -- A nil buffer is the inner `none`.
  unfoldable pub byte_buffer : RingBuffer → Option (Option ByteBuffer)
  byte_buffer b =
      if b.is_empty
      then some none
      else if b.w == b.r
      then (do
        head ← slice b.r (length b.buf) b.buf
        tail ← slice 0 b.w b.buf
        some (some (append (append get head) tail)))
      else if ltb b.r b.w
      then (do head ← slice b.r b.w b.buf; some (some (append get head)))
      else (do
        head ← slice b.r (length b.buf) b.buf
        if not (b.w == 0)
            then (do tail ← slice 0 b.w b.buf; some (some (append (append get head) tail)))
            else some (some (append get head)))

  unfoldable pub with_byte_buffer : List ℕ → RingBuffer → Option ByteBuffer
  with_byte_buffer p b =
      if b.is_empty
      then some (of_bytes p)
      else if b.w == b.r
      then (do
        head ← slice b.r (length b.buf) b.buf
        tail ← slice 0 b.w b.buf
        some (append (append (append get head) tail) p))
      else if ltb b.r b.w
      then (do head ← slice b.r b.w b.buf; some (append (append get head) p))
      else (do
        head ← slice b.r (length b.buf) b.buf
        if not (b.w == 0)
            then (do tail ← slice 0 b.w b.buf; some (append (append (append get head) tail) p))
            else some (append (append get head) p))
