-- ===== src/RingBuffer/Peek.antt =====
-- `LazyRead` and `LazyReadAll`: the two slices that they return.
use native.Mathlib.Decide.{dec_lt, dec_le}
use limnet.Base.{
  ℕ, ◌+◌, ◌-◌, ◌≤◌, ◌<◌, ◌≡◌, refl, sym, ap, ◌∙◌, false, Option, some, List, [], ◌++◌, append-nil,
  length, take, drop, inl, inr, arith, Bool-cases, lt→ltb, le→leb, lt→not-leb, le→not-ltb, eq→==,
  ne→not-==, slice, slice_lem, take_of_length-le, length-drop,
}
use limnet.Base.Int.{ℤ, pos_part}
use limnet.RingBuffer.Defs.{RingBuffer, ring_length}
use limnet.RingBuffer.Reading.{at_most, wrapped, lazy_read, lazy_read_all}
use limnet.RingBuffer.Inv.{
  length-contents, IsValid, window, contents, window_straight, window_round, take-window,
  ring_length-empty, ring_length-straight, ring_length-round,
}

-- Two slices that together are `bytes`.
abbrev pub Slices : Option (List ℕ × List ℕ) → List ℕ → Type 0
Slices o bytes = (ht : List ℕ × List ℕ) × (o ≡ some ht) × (ht.0 ++ ht.1 ≡ bytes)

pub one_slice :
    (b : RingBuffer) (n : ℕ)
    → IsValid b
    → b.r + n ≤ b.size
    → slice b.r (b.r + n) b.buf ≡ some (window b.buf b.r n)
one_slice b n v h =
    slice_lem b.r (b.r + n) b.buf (omega arith) (omega arith)
    ∙ ap (λ t. some (take t (drop b.r b.buf))) (omega arith)
    ∙ ap some (sym (window_straight b.buf b.r n (omega arith)))

-- `r.buf[r.r:hi]`, the window of `n` bytes that ends at `hi`
pub slice-congr :
    (b : RingBuffer)
    → IsValid b
    → (n : ℕ) → b.r + n ≡ b.w
    → b.w ≤ b.size
    → slice b.r b.w b.buf ≡ some (window b.buf b.r n)
slice-congr b v n e h = ap (λ t. slice b.r t b.buf) (sym e) ∙ one_slice b n v (omega arith)

-- `r.buf[r.r:]`
pub end_slice :
    (b : RingBuffer) → IsValid b → slice b.r (length b.buf) b.buf ≡ some (drop b.r b.buf)
end_slice b v =
    slice_lem b.r (length b.buf) b.buf (omega arith) (omega arith)
    ∙ ap some (
        take_of_length-le (length b.buf - b.r) (drop b.r b.buf)
          (omega (arith, length-drop b.r b.buf)))

-- `r.buf[:n]`
pub start_slice :
    (b : RingBuffer) (n : ℕ) → IsValid b → n ≤ b.size → slice 0 n b.buf ≡ some (take n b.buf)
start_slice b n v h =
    slice_lem 0 n b.buf (omega arith) (omega arith) ∙ ap (λ t. some (take t b.buf)) (omega arith)

pub window_split :
    (b : RingBuffer) (n : ℕ)
    → IsValid b
    → n ≤ b.size
    → b.size ≤ b.r + n
    → drop b.r b.buf ++ take (n - (b.size - b.r)) b.buf ≡ window b.buf b.r n
window_split b n v h past =
    ap (λ t. drop b.r b.buf ++ take (n - (t - b.r)) b.buf) (sym v.storage)
    ∙ sym (window_round b.buf b.r n (omega arith) (omega arith) (omega arith))

pub wrapped-Slices :
    (b : RingBuffer) (n : ℕ) → IsValid b → n ≤ b.size → Slices (wrapped b n) (window b.buf b.r n)
unfolding wrapped
wrapped-Slices b n v h = elim (dec_le (b.r + n) b.size) [
  | yes p ↦ ((window b.buf b.r n, []), rw (le→leb _ _ p, one_slice b n v p), append-nil _)
  | no p ↦ (
    (drop b.r b.buf, take (n - (b.size - b.r)) b.buf),
    rw (
      lt→not-leb (b.r + n) b.size (omega arith),
      end_slice b v,
      start_slice b (n - (b.size - b.r)) v (omega arith),
    ),
    window_split b n v h (omega arith),
  )
]

-- The contents that go round the end, as the end and the start of the buffer.
pub contents_round :
    (b : RingBuffer)
    → IsValid b
    → b.is_empty ≡ false
    → b.w ≤ b.r
    → drop b.r b.buf ++ take b.w b.buf ≡ contents b
contents_round b v e p =
    ap (λ t. drop b.r b.buf ++ take t b.buf) (omega arith)
    ∙ window_split b (b.size - b.r + b.w) v (omega arith) (omega arith)
    ∙ ap (window b.buf b.r) (sym (ring_length-round b v e p))

-- `LazyReadAll` does not panic, and its two slices together are the contents.
pub lazy_read_all-Slices : (b : RingBuffer) → IsValid b → Slices (lazy_read_all b) (contents b)
unfolding lazy_read_all
lazy_read_all-Slices b v = elim (Bool-cases b.is_empty) [
  | inl e ↦ (([], []), rw e refl, ap (window b.buf b.r) (sym (ring_length-empty b v e)))
  | inr e ↦ elim (dec_lt b.r b.w) [
    | yes p ↦ (
      (window b.buf b.r (b.w - b.r), []),
      rw (e, lt→ltb b.r b.w p, slice-congr b v (b.w - b.r) (omega arith) (omega arith)) refl,
      append-nil _ ∙ ap (window b.buf b.r) (sym (ring_length-straight b v p)),
    )
    | no p ↦ elim (dec_lt 0 b.w) [
      | yes q ↦ (
        (drop b.r b.buf, take b.w b.buf),
        rw
            (
              e,
              le→not-ltb b.r b.w (omega arith),
              end_slice b v,
              ne→not-== b.w 0 (omega arith),
              start_slice b b.w v (omega arith),
            )
            refl,
        contents_round b v e (omega arith),
      )
      | no q ↦ (
        (drop b.r b.buf, []),
        rw (e, le→not-ltb b.r b.w (omega arith), end_slice b v, eq→== b.w 0 (omega arith)) refl,
        ap (λ t. drop b.r b.buf ++ take t b.buf) {x = 0} (omega arith)
            ∙ contents_round b v e (omega arith),
      )
    ]
  ]
]

lazy_read_round :
    (len : ℤ) (b : RingBuffer)
    → b.is_empty ≡ false
    → 0 < pos_part len
    → b.w ≤ b.r
    → lazy_read len b ≡ wrapped b (at_most (pos_part len) (b.size - b.r + b.w))
unfolding lazy_read
lazy_read_round len b e q p =
    rw (e, ne→not-== (pos_part len) 0 (omega arith), le→not-ltb b.r b.w p) refl

-- `LazyRead(len)` does not panic, and its two slices together are the first `len` bytes of the
-- contents: all of them if there are no more, and none for a negative `len`.
pub lazy_read-Slices :
    (len : ℤ) (b : RingBuffer)
    → IsValid b
    → Slices (lazy_read len b) (take (pos_part len) (contents b))
unfolding lazy_read
lazy_read-Slices len b v = elim (Bool-cases b.is_empty) [
  | inl e ↦ (
    ([], []),
    rw e refl,
    sym (
        take_of_length-le (pos_part len) (contents b)
          (omega (arith, length-contents b v, ring_length-empty b v e))
        ∙ ap (window b.buf b.r) (ring_length-empty b v e)),
  )
  | inr e ↦ elim (dec_lt 0 (pos_part len)) [
    | yes q ↦ elim (dec_lt b.r b.w) [
      | yes p ↦
          let n = at_most (pos_part len) (b.w - b.r) in
          (
            (window b.buf b.r n, []),
            rw
                (
                  e,
                  ne→not-== (pos_part len) 0 (omega arith),
                  lt→ltb b.r b.w p,
                  one_slice b n v (ground arith),
                )
                refl,
            append-nil _
                ∙ ap (window b.buf b.r) (ground (arith, ring_length-straight b v p))
                ∙ sym (take-window b.buf (pos_part len) b.r (ring_length b)),
          )
      | no p ↦
          let n = at_most (pos_part len) (b.size - b.r + b.w) in
          let (ht, ok, bytes) = wrapped-Slices b n v (ground arith) in
          (
            ht,
            lazy_read_round len b e (omega arith) (omega arith) ∙ ok,
            bytes
                ∙ ap (window b.buf b.r) (ground (arith, ring_length-round b v e))
                ∙ sym (take-window b.buf (pos_part len) b.r (ring_length b)),
          )
    ]
    | no q ↦ (
      ([], []),
      rw (e, eq→== (pos_part len) 0 (omega arith)) refl,
      ap (λ t. take t (contents b)) {x = 0} (omega arith),
    )
  ]
]
