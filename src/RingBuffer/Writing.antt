-- ===== src/RingBuffer/Writing.antt =====
-- pkg/ringbuffer/ringbuffer.go: `malloc`, `Write`, `WriteByte`, `WriteString`.
use limnet.Base.{ℕ, ◌+◌, ◌-◌, false, ◌&&◌, Option, none, some, List}
use limnet.Base.{ltb, leb, ◌==◌, if◌then◌else◌, ◌>>=◌, length, take, drop, replicate, copy}
use limnet.Base.{copy_at, set_elem?}
use limnet.Base.Int.{wrap_int}
use limnet.RingBuffer.Ceil.{ceil_to_power_of_two}
use limnet.RingBuffer.Defs.{RingBuffer, RingError, init_size, ring_length, free}
use limnet.RingBuffer.Reading.{read}

unfoldable pub new_cap : ℕ → RingBuffer → Option ℕ
new_cap cap b =
    if b.size == 0 && leb cap init_size
    then some init_size
    else ceil_to_power_of_two (wrap_int (b.size + cap))

unfoldable pub malloc : ℕ → RingBuffer → Option RingBuffer
malloc cap b = do
  new_cap ← new_cap cap b
  let old_len = ring_length b
  res ← read (replicate new_cap 0) b
  some (record res.rest { buf = res.p; size = new_cap; mask = new_cap - 1; r = 0; w = old_len })

-- the copies of `Write`, once there is room
unfoldable pub place : List ℕ → RingBuffer → Option RingBuffer
place p b =
    let n = length p in
    if leb b.r b.w
    then (let c1 = b.size - b.w in
        if leb n c1
        then (do buf ← copy_at b.w b.buf p; some (record b { buf = buf; w = b.w + n }))
        else (do
          buf ← copy_at b.w b.buf (take c1 p)
          let c2 = n - c1
          some (record b { buf = copy buf (drop c1 p); w = c2 })))
    else (do buf ← copy_at b.w b.buf p; some (record b { buf = buf; w = b.w + n }))

-- `if r.w == r.size { r.w = 0 }; r.isEmpty = false`
abbrev pub written : RingBuffer → RingBuffer
written b = record b { w = if b.w == b.size then 0 else b.w; is_empty = false }

-- `if need > r.Free() { r.malloc(need - r.Free()) }`
unfoldable pub make_room : ℕ → RingBuffer → Option RingBuffer
make_room need b = if ltb (free b) need then malloc (need - free b) b else some b

unfoldable pub write : List ℕ → RingBuffer → Option (ℕ × Option RingError × RingBuffer)
write p b =
    if length p == 0
    then some (0, none, b)
    else do b ← make_room (length p) b; b ← place p b; some (length p, none, written b)

unfoldable pub write_byte : ℕ → RingBuffer → Option (Option RingError × RingBuffer)
write_byte c b = do
  b ← if ltb (free b) 1 then malloc 1 b else some b
  buf ← set_elem? b.buf b.w c
  some (none, written (record b { buf = buf; w = b.w + 1 }))

-- The string's bytes, seen as a slice without a copy.
unfoldable pub write_string : List ℕ → RingBuffer → Option (ℕ × Option RingError × RingBuffer)
write_string s b = write s b
