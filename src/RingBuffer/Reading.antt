-- ===== src/RingBuffer/Reading.antt =====
-- pkg/ringbuffer/ringbuffer.go: `LazyRead`, `LazyReadAll`, `Shift`, `Read`, `ReadByte`. A byte slice
-- that Go leaves nil is the empty list.
use Prim.Native.Nat.{bit_and}
use limnet.Base.{ℕ, ◌+◌, ◌-◌, true, not, Option, none, some, List, []}
use limnet.Base.{ltb, leb, ◌==◌, if◌then◌else◌, ◌>>=◌, length, copy}
use limnet.Base.{slice, copy_at, get_elem?}
use limnet.Base.Int.{ℤ, pos_part}
use limnet.RingBuffer.Defs.{RingBuffer, RingError, err_is_empty, ring_length, reset}

-- `if n > len { n = len }`
abbrev pub at_most : ℕ → ℕ → ℕ
at_most len n = if ltb len n then len else n

-- the two slices from the read pointer to the end of `n` bytes, as `LazyRead` cuts them
-- where the bytes may go round the end of the buffer
unfoldable pub wrapped : RingBuffer → ℕ → Option (List ℕ × List ℕ)
wrapped b n =
    if leb (b.r + n) b.size then (do head ← slice b.r (b.r + n) b.buf; some (head, [])) else (do
      let c1 = b.size - b.r
      head ← slice b.r (length b.buf) b.buf
      let c2 = n - c1
      tail ← slice 0 c2 b.buf
      some (head, tail))

unfoldable pub lazy_read : ℤ → RingBuffer → Option (List ℕ × List ℕ)
lazy_read len b =
    if b.is_empty
    then some ([], [])
    else if pos_part len == 0
    then some ([], [])
    else if ltb b.r b.w
    then (do
      let n = at_most (pos_part len) (b.w - b.r)
      head ← slice b.r (b.r + n) b.buf
      some (head, []))
    else wrapped b (at_most (pos_part len) (b.size - b.r + b.w))

unfoldable pub lazy_read_all : RingBuffer → Option (List ℕ × List ℕ)
lazy_read_all b =
    if b.is_empty
    then some ([], [])
    else if ltb b.r b.w
    then (do head ← slice b.r b.w b.buf; some (head, []))
    else (do
      head ← slice b.r (length b.buf) b.buf
      if not (b.w == 0) then (do tail ← slice 0 b.w b.buf; some (head, tail)) else some (head, []))

-- `if r.r == r.w { r.isEmpty = true }`
abbrev pub drained : RingBuffer → RingBuffer
drained b = if b.r == b.w then record b { is_empty = true } else b

unfoldable pub shift : ℤ → RingBuffer → RingBuffer
shift n b =
    if pos_part n == 0
    then b
    else if ltb (pos_part n) (ring_length b)
    then drained (record b { r = bit_and (b.r + pos_part n) b.mask })
    else reset b

-- What `Read(p)` leaves in `p`, and returns.
pub record ReadResult : Type 0 where
  pub p : List ℕ
  pub n : ℕ
  pub err : Option RingError
  pub rest : RingBuffer

-- the two copies of `Read` where the bytes may go round the end of the buffer
unfoldable pub read_wrapped : List ℕ → RingBuffer → ℕ → Option (List ℕ)
read_wrapped p b n =
    if leb (b.r + n) b.size then (do from ← slice b.r (b.r + n) b.buf; some (copy p from)) else (do
      let c1 = b.size - b.r
      from ← slice b.r (length b.buf) b.buf
      let c2 = n - c1
      more ← slice 0 c2 b.buf
      copy_at c1 (copy p from) more)

unfoldable pub read : List ℕ → RingBuffer → Option ReadResult
read p b =
    if length p == 0
    then some (record { p = p; n = 0; err = none; rest = b })
    else if b.is_empty
    then some (record { p = p; n = 0; err = some err_is_empty; rest = b })
    else if ltb b.r b.w
    then (do
      let n = at_most (length p) (b.w - b.r)
      from ← slice b.r (b.r + n) b.buf
      some (record {
        p = copy p from;
        n = n;
        err = none;
        rest = drained (record b { r = b.r + n });
      }))
    else (do
      let n = at_most (length p) (b.size - b.r + b.w)
      p ← read_wrapped p b n
      some (record {
        p = p;
        n = n;
        err = none;
        rest = drained (record b { r = bit_and (b.r + n) b.mask });
      }))

unfoldable pub read_byte : RingBuffer → Option (ℕ × Option RingError × RingBuffer)
read_byte b = if b.is_empty then some (0, some err_is_empty, b) else do
  c ← get_elem? b.buf b.r 0
  let next = if b.r + 1 == b.size then 0 else b.r + 1
  some (c, none, drained (record b { r = next }))
