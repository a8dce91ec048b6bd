-- ===== src/RingBuffer/Defs.antt =====
-- pkg/ringbuffer/ringbuffer.go: the record, its constructor, its sizes, `Reset`.
use limnet.Base.{ℕ, ◌+◌, ◌-◌, Bool, true, false, not, ◌&&◌, Option, some, List, []}
use limnet.Base.{ltb, ◌==◌, if◌then◌else◌, ◌>>=◌, length, replicate}
use limnet.Base.Int.{ℤ, pos, negsuc}
use limnet.RingBuffer.Ceil.{ceil_to_power_of_two}

abbrev pub init_size : ℕ
init_size = 4096

-- `ErrIsEmpty`, the one error of the package
pub data RingError : Type 0 where
  err_is_empty : RingError

pub record RingBuffer : Type 0 where
  pub buf : List ℕ
  pub size : ℕ
  pub mask : ℕ
  pub r : ℕ
  pub w : ℕ
  pub is_empty : Bool

-- `&RingBuffer{isEmpty: true}`
abbrev pub unallocated : RingBuffer
unallocated = record { buf = []; size = 0; mask = 0; r = 0; w = 0; is_empty = true }

abbrev pub allocated : ℕ → RingBuffer
allocated size = record {
  buf = replicate size 0;
  size = size;
  mask = size - 1;
  r = 0;
  w = 0;
  is_empty = true;
}

abbrev pub is_zero : ℤ → Bool
is_zero (pos n) = n == 0
is_zero (negsuc n) = false

unfoldable pub new : ℤ → Option RingBuffer
new size =
    if is_zero size
    then some unallocated
    else do size ← ceil_to_power_of_two size; some (allocated size)

-- `Length`
unfoldable pub ring_length : RingBuffer → ℕ
ring_length b =
    if b.r == b.w
    then if b.is_empty then 0 else b.size
    else if ltb b.r b.w
    then b.w - b.r
    else b.size - b.r + b.w

-- `Len`
unfoldable pub len : RingBuffer → ℕ
len b = length b.buf

-- `Cap`
unfoldable pub cap : RingBuffer → ℕ
cap b = b.size

unfoldable pub free : RingBuffer → ℕ
free b =
    if b.r == b.w
    then if b.is_empty then b.size else 0
    else if ltb b.w b.r
    then b.r - b.w
    else b.size - b.w + b.r

unfoldable pub is_full : RingBuffer → Bool
is_full b = b.r == b.w && not b.is_empty

unfoldable pub reset : RingBuffer → RingBuffer
reset b = record b { r = 0; w = 0; is_empty = true }
