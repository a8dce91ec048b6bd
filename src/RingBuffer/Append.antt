-- ===== src/RingBuffer/Append.antt =====
-- `Write`, `WriteByte` and `WriteString`: what they put behind the contents.
use native.Mathlib.Decide.{dec_lt, dec_le}
use limnet.Base.{
  ℕ, ◌+◌, ◌-◌, ◌^◌, ◌≤◌, ◌<◌, ◌≡◌, refl, sym, ap, ◌∙◌, List, [], ◌++◌, ◌∷◌, append-nil, length,
  take, copy, inr, ◌⊎◌, arith, none, some, replicate, set, length-replicate, take-copy,
  if◌then◌else◌, le→leb, lt→not-leb, lt→ltb, le→not-ltb, eq→==, ne→not-==, ltb, set_elem?_lem,
  length-copy, copy_at, copy_at_lem, copy_at-set,
}
use limnet.RingBuffer.Ceil.{max_int_head_bit}
use limnet.RingBuffer.Defs.{RingBuffer, ring_length, free}
use limnet.RingBuffer.Writing.{malloc, place, written, make_room, write, write_byte, write_string}
use limnet.RingBuffer.Inv.{
  IsValid, window, contents, length-contents, window_straight, ring_length-le-size,
}
use limnet.RingBuffer.Grow.{free-add-ring_length, NewCap, new_cap-NewCap, grown, malloc_lem}
use limnet.RingBuffer.Place.{HasRoom, filled, place-Placed, window-Holds}

grown-HasRoom :
    (p : List ℕ) (b : RingBuffer) (c : ℕ)
    → IsValid b
    → 0 < length p
    → NewCap b (length p - free b) c
    → free b < length p
    → HasRoom p (ring_length b) (grown b c)
grown-HasRoom p b c v some_bytes n short = record {
  storage = length-copy (replicate c 0) (contents b) ∙ length-replicate c 0;
  r_in = omega (arith, n.room);
  w_lem = ground (arith, n.room, ring_length-le-size b v);
  something = some_bytes;
  fits = omega (arith, n.room, free-add-ring_length b v);
}

window-grown :
    (b : RingBuffer) (c : ℕ)
    → IsValid b
    → b.size ≤ c
    → window (grown b c).buf 0 (ring_length b) ≡ contents b
window-grown b c v h =
    window_straight (grown b c).buf 0 (ring_length b) (
      omega (
        arith,
        length-copy (replicate c 0) (contents b),
        length-replicate {0} {A = ℕ} c 0,
        ring_length-le-size b v,
      ))
    ∙ ap (λ t. take t (copy (replicate c 0) (contents b))) (sym (length-contents b v))
    ∙ take-copy (replicate c 0) (contents b) (
        omega
          (arith, length-contents b v, length-replicate {0} {A = ℕ} c 0, ring_length-le-size b v))

valid-HasRoom :
    (p : List ℕ) (b : RingBuffer)
    → IsValid b
    → 0 < length p
    → length p ≤ free b
    → HasRoom p (ring_length b) b
unfolding ring_length free
valid-HasRoom p b v some_bytes h = record {
  storage = v.storage;
  r_in = ground arith;
  w_lem = ground arith;
  something = some_bytes;
  fits = ground arith;
}

-- What `Write` has once there is room for `p`: the contents of `b`, and space behind them.
record Ready (p : List ℕ) (b b1 : RingBuffer) : Type 0 where
  room : HasRoom p (ring_length b) b1
  kept : window b1.buf b1.r (ring_length b) ≡ contents b
  power : (b1.size ≡ 0) ⊎ ((k : ℕ) × (b1.size ≡ 2 ^ k))
  mask_lem : b1.mask ≡ b1.size - 1
  small : b1.size ≤ max_int_head_bit
  least : (j : ℕ) → 12 ≤ j → b.size ≤ 2 ^ j → ring_length b + length p ≤ 2 ^ j → b1.size ≤ 2 ^ j

make_room-Ready :
    (p : List ℕ) (b : RingBuffer)
    → IsValid b
    → 0 < length p
    → b.size + length p ≤ max_int_head_bit
    → (b1 : RingBuffer) × (make_room (length p) b ≡ some b1) × Ready p b b1
unfolding make_room
make_room-Ready p b v some_bytes h = elim (dec_lt (free b) (length p)) [
  | yes short ↦
      let need = length p - free b in
      let (c, ok, n) = new_cap-NewCap need b (omega arith) in
      (
        grown b c,
        rw (lt→ltb (free b) (length p) short) (malloc_lem need b c v (omega arith) ok n),
        record {
          room = grown-HasRoom p b c v some_bytes n short;
          kept = window-grown b c v (omega (arith, n.room));
          power = inr n.power;
          mask_lem = refl;
          small = n.small;
          least = λ j k q t. n.least j k (omega (arith, free-add-ring_length b v));
        },
      )
  | no fits ↦ (
    b,
    rw (le→not-ltb (free b) (length p) (omega arith)) refl,
    record {
      room = valid-HasRoom p b v some_bytes (omega arith);
      kept = refl;
      power = v.power;
      mask_lem = v.mask_lem;
      small = v.small;
      least = λ j k q t. q;
    },
  )
]

module _ (p : List ℕ) (b b1 : RingBuffer) (y : Ready p b b1) (buf : List ℕ)
    (e : length buf ≡ b1.size) where
  abbrev out : RingBuffer
  out = filled p (ring_length b) b1 y.room buf

  out-IsValid : IsValid out
  out-IsValid = record {
    storage = e;
    power = y.power;
    mask_lem = y.mask_lem;
    small = y.small;
    r_in = omega (arith, y.room.r_in);
    w_in = ground (arith, y.room.r_in, y.room.w_lem, y.room.fits);
    at_rest = λ t. absurd (cc);
    none_stored = λ t. absurd (omega (arith, y.room.r_in));
  }

  ring_length-out : ring_length out ≡ ring_length b + length p
  unfolding ring_length
  ring_length-out = ground (arith, y.room.r_in, y.room.w_lem, y.room.fits, y.room.something)

-- What `Write(p)` returns, and leaves: all of `p` stands behind the contents, and the
-- capacity stays within any power of two, from 4096 on, that holds what was there and the bytes.
pub record Appends (p : List ℕ) (b out : RingBuffer) : Type 0 where
  pub valid : IsValid out
  pub bytes : contents out ≡ contents b ++ p
  pub capacity :
      (j : ℕ) → 12 ≤ j → b.size ≤ 2 ^ j → length (contents b) + length p ≤ 2 ^ j → out.size ≤ 2 ^ j

Ready-Appends :
    (p : List ℕ) (b b1 : RingBuffer)
    → IsValid b
    → Ready p b b1
    → (b2 : RingBuffer) × (place p b1 ≡ some b2) × Appends p b (written b2)
Ready-Appends p b b1 v y =
    let (buf, b2, q) = place-Placed p (ring_length b) b1 y.room in
    (
      b2,
      q.done,
      record {
        valid = rw q.state (out-IsValid p b b1 y buf q.size_kept);
        bytes =
            ap contents q.state
            ∙ ap (window buf b1.r) (ring_length-out p b b1 y buf q.size_kept)
            ∙ window-Holds p (ring_length b) b1 y.room buf q.size_kept q.holds
            ∙ ap (λ t. t ++ p) y.kept;
        capacity = λ j k h t. rw q.state (y.least j k h (omega (arith, length-contents b v)));
      },
    )

write-some :
    (p : List ℕ) (b b1 b2 : RingBuffer)
    → 0 < length p
    → make_room (length p) b ≡ some b1
    → place p b1 ≡ some b2
    → write p b ≡ some (length p, none, written b2)
unfolding write
write-some p b b1 b2 pos e f = rw (ne→not-== (length p) 0 (omega arith)) (rw e (rw f refl))

write_nothing : (p : List ℕ) (b : RingBuffer) → length p ≡ 0 → write p b ≡ some (0, none, b)
unfolding write
write_nothing p b e = rw (eq→== (length p) 0 e) refl

-- `Write(p)` does not panic where the capacities stay within `1 << 62`: it returns the length of `p`
-- and no error, keeps the invariant, and puts `p` behind the contents, however it has to grow.
pub write-Appends :
    (p : List ℕ) (b : RingBuffer)
    → IsValid b
    → b.size + length p ≤ max_int_head_bit
    → (out : RingBuffer) × (write p b ≡ some (length p, none, out)) × Appends p b out
write-Appends p b v h = elim (dec_lt 0 (length p)) [
  | yes some_bytes ↦
      let (b1, room, y) = make_room-Ready p b v some_bytes h in
      let (b2, done, a) = Ready-Appends p b b1 v y in
      (written b2, write-some p b b1 b2 some_bytes room done, a)
  | no no_bytes ↦
      let e : length p ≡ 0 = omega arith in
      (
        b,
        write_nothing p b e ∙ ap (λ t. some (t, none, b)) (sym e),
        record {
          valid = v;
          bytes = sym (ap (λ t. contents b ++ t) (nil p e) ∙ append-nil _);
          capacity = λ j k q t. q;
        },
      )
]
  where
    nil : (xs : List ℕ) → length xs ≡ 0 → xs ≡ []
    nil [] e = refl
    nil (x ∷ xs) e = absurd (omega arith)

make_room-one : (b : RingBuffer) → (if ltb (free b) 1 then malloc 1 b else some b) ≡ make_room 1 b
unfolding make_room
make_room-one b = elim (dec_lt (free b) 1) [
  | yes p ↦ rw (lt→ltb (free b) 1 p) (ap (λ t. malloc t b) {y = 1 - free b} (omega arith))
  | no p ↦ rw (le→not-ltb (free b) 1 (omega arith)) refl
]

place-one :
    (c n : ℕ) (b : RingBuffer)
    → HasRoom (c ∷ []) n b
    → place (c ∷ []) b ≡ some (record b { buf = set b.buf b.w c; w = b.w + 1 })
unfolding place
place-one c n b h = elim (dec_le b.r b.w) [
  | yes order ↦ rw (le→leb b.r b.w order, le→leb 1 (b.size - b.w) (ground arith)) (rw copied refl)
  | no order ↦ rw (lt→not-leb b.r b.w (omega arith)) (rw copied refl)
]
  where
    copied : copy_at b.w b.buf (c ∷ []) ≡ some (set b.buf b.w c)
    copied =
        copy_at_lem b.w b.buf (c ∷ []) (ground arith)
        ∙ ap some (copy_at-set b.w b.buf c (ground arith))

write_byte-some :
    (c : ℕ) (b b1 : RingBuffer)
    → make_room 1 b ≡ some b1
    → b1.w < length b1.buf
    → write_byte c b ≡ some (none, written (record b1 { buf = set b1.buf b1.w c; w = b1.w + 1 }))
unfolding write_byte
write_byte-some c b b1 e h = rw (make_room-one b) (rw e (rw (set_elem?_lem b1.buf b1.w c h) refl))

-- `WriteByte(c)` leaves what `Write` of that one byte leaves, with no error and no panic: the byte
-- stands behind the contents.
pub write_byte-write :
    (c : ℕ) (b : RingBuffer)
    → IsValid b
    → b.size + 1 ≤ max_int_head_bit
    → (out : RingBuffer) × (write_byte c b ≡ some (none, out))
      × (write (c ∷ []) b ≡ some (1, none, out))
      × Appends (c ∷ []) b out
write_byte-write c b v h =
    let (b1, room, y) = make_room-Ready (c ∷ []) b v (omega arith) h in
    let (b2, done, a) = Ready-Appends (c ∷ []) b b1 v y in
    let next = record b1 { buf = set b1.buf b1.w c; w = b1.w + 1 } in
    let one : place (c ∷ []) b1 ≡ some next = place-one c (ring_length b) b1 y.room in
    let same : b2 ≡ next = cc in
    (
      written b2,
      write_byte-some c b b1 room
            (ground (arith, y.room.w_lem, y.room.r_in, y.room.fits, y.room.storage))
          ∙ ap (λ t. some (none, written t)) (sym same),
      write-some (c ∷ []) b b1 b2 (omega arith) room done,
      a,
    )

-- `WriteString` is `Write` of the string's bytes.
pub write_string-Appends :
    (s : List ℕ) (b : RingBuffer)
    → IsValid b
    → b.size + length s ≤ max_int_head_bit
    → (out : RingBuffer) × (write_string s b ≡ some (length s, none, out)) × Appends s b out
unfolding write_string
write_string-Appends s b v h = write-Appends s b v h
