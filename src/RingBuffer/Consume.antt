-- ===== src/RingBuffer/Consume.antt =====
-- `Shift`, `Read` and `ReadByte`: what they take off the front of the contents.
use Prim.Native.Nat.{bit_and}
use native.Mathlib.Decide.{dec_lt, dec_le}
use limnet.Base.{
  ℕ, ◌+◌, ◌-◌, ◌≤◌, ◌<◌, ◌≡◌, refl, sym, ap, ◌∙◌, true, false, List, [], ◌++◌, length, take, drop,
  copy, ◌⊎◌, inl, inr, ◌≢◌, arith, none, some, Bool-cases, lt→ltb, le→leb, le→not-ltb, lt→not-leb,
  eq→==, ne→not-==, drop_of_length-le, min, copy-append, copy-take, copy_at_lem, length-copy,
  length-drop,
}
use limnet.Base.Int.{ℤ, pos_part}
use limnet.RingBuffer.Defs.{RingBuffer, ring_length, reset}
use limnet.RingBuffer.Reading.{at_most, drained, shift, read_wrapped, ReadResult, read}
use limnet.RingBuffer.Inv.{
  IsValid, around, window, contents, length-contents, bit_and-mask_lem, ring_length-empty,
  ring_length-straight, ring_length-round, ring_length-le-size, take-window,
}
use limnet.RingBuffer.Advance.{advance, advance-IsValid, contents-advance}
use limnet.RingBuffer.Peek.{one_slice, end_slice, start_slice, window_split}

pub reset-IsValid : (b : RingBuffer) → IsValid b → IsValid (reset b)
unfolding reset
reset-IsValid b v = ground arith

pub contents-reset : (b : RingBuffer) → contents (reset b) ≡ []
unfolding reset ring_length
contents-reset b = refl

-- The mask moves the read pointer as `around` does.
masked-advance :
    (b : RingBuffer) (n : ℕ)
    → IsValid b
    → b.is_empty ≡ false
    → n ≤ ring_length b
    → drained (record b { r = bit_and (b.r + n) b.mask }) ≡ advance b n
masked-advance b n v e h =
    ap (λ t. drained (record b { r = t }))
      (bit_and-mask_lem b (b.r + n) v (omega (arith, ring_length-le-size b v, nonempty)))
  where
    nonempty : b.size ≢ 0
    nonempty z = let t : b.is_empty ≡ true = v.none_stored z in ground arith

stored : (b : RingBuffer) → IsValid b → 0 < ring_length b → b.is_empty ≡ false
stored b v h = elim (Bool-cases b.is_empty) [
  | inl e ↦ absurd (omega (arith, ring_length-empty b v e))
  | inr e ↦ e
]

-- `Shift` on its three branches.
shift_nothing : (n : ℤ) (b : RingBuffer) → pos_part n ≡ 0 → shift n b ≡ b
unfolding shift
shift_nothing n b z = rw (eq→== (pos_part n) 0 z) refl

shift_part :
    (n : ℤ) (b : RingBuffer)
    → IsValid b
    → 0 < pos_part n
    → pos_part n < ring_length b
    → shift n b ≡ advance b (pos_part n)
unfolding shift
shift_part n b v p h =
    rw (ne→not-== (pos_part n) 0 (omega arith), lt→ltb (pos_part n) (ring_length b) h)
      (masked-advance b (pos_part n) v (stored b v (omega arith)) (omega arith))

shift_all :
    (n : ℤ) (b : RingBuffer) → 0 < pos_part n → ring_length b ≤ pos_part n → shift n b ≡ reset b
unfolding shift
shift_all n b p h =
    rw (ne→not-== (pos_part n) 0 (omega arith), le→not-ltb (pos_part n) (ring_length b) h) refl

shift_split :
    (n : ℤ) (b : RingBuffer)
    → (pos_part n ≡ 0)
      ⊎ ((0 < pos_part n) × (pos_part n < ring_length b))
      ⊎ ((0 < pos_part n) × (ring_length b ≤ pos_part n))
shift_split n b = omega arith

-- `Shift` keeps the invariant.
pub shift-IsValid : (n : ℤ) (b : RingBuffer) → IsValid b → IsValid (shift n b)
shift-IsValid n b v = elim (shift_split n b) [
  | inl z ↦ rw (shift_nothing n b z) v
  | inr (inl (p, h)) ↦
      rw (shift_part n b v p h)
        (advance-IsValid b (pos_part n) v (stored b v (omega arith)) p (omega arith))
  | inr (inr (p, h)) ↦ rw (shift_all n b p h) (reset-IsValid b v)
]

pub size-shift : (n : ℤ) (b : RingBuffer) → (shift n b).size ≡ b.size
unfolding shift reset
size-shift n b = ground arith

-- `Shift(n)` drops the first `n` bytes: all if there are no more, and none for a negative `n`.
pub contents-shift :
    (n : ℤ) (b : RingBuffer) → IsValid b → contents (shift n b) ≡ drop (pos_part n) (contents b)
contents-shift n b v = elim (shift_split n b) [
  | inl z ↦ ap contents (shift_nothing n b z) ∙ ap (λ t. drop t (contents b)) {x = 0} (omega arith)
  | inr (inl (p, h)) ↦
      ap contents (shift_part n b v p h)
      ∙ contents-advance b (pos_part n) v (stored b v (omega arith)) p (omega arith)
  | inr (inr (p, h)) ↦
      ap contents (shift_all n b p h)
      ∙ contents-reset b
      ∙ sym (drop_of_length-le (pos_part n) (contents b) (omega (arith, length-contents b v)))
]

-- The copies of `Read` put the window into `p`.
read_wrapped_lem :
    (p : List ℕ) (b : RingBuffer) (n : ℕ)
    → IsValid b
    → n ≤ b.size
    → n ≤ length p
    → read_wrapped p b n ≡ some (copy p (window b.buf b.r n))
unfolding read_wrapped
read_wrapped_lem p b n v h fits = elim (dec_le (b.r + n) b.size) [
  | yes q ↦ rw (le→leb (b.r + n) b.size q, one_slice b n v q) refl
  | no q ↦
      rw
        (
          lt→not-leb (b.r + n) b.size (omega arith),
          end_slice b v,
          start_slice b (n - (b.size - b.r)) v (omega arith),
        )
        (copy_at_lem (b.size - b.r) (copy p (drop b.r b.buf)) (take (n - (b.size - b.r)) b.buf)
            (omega (arith, length-copy p (drop b.r b.buf)))
          ∙ ap some (
              two_copies (b.size - b.r) (omega (arith, length-drop b.r b.buf)) (omega arith)
                (omega arith)))
]
  where
    two_copies :
        (c : ℕ)
        → c ≡ length (drop b.r b.buf)
        → c ≤ length p
        → b.size ≤ b.r + n
        → take c (copy p (drop b.r b.buf))
            ++ copy (drop c (copy p (drop b.r b.buf))) (take (n - (b.size - b.r)) b.buf)
          ≡ copy p (window b.buf b.r n)
    two_copies c e room past = rw e (
        copy-append p (drop b.r b.buf) (take (n - (b.size - b.r)) b.buf) (omega arith)
        ∙ ap (copy p) (window_split b n v h past))

-- What `Read` leaves and returns when it takes `m` bytes and moves the read pointer to `to`.
abbrev took : List ℕ → RingBuffer → ℕ → ℕ → ReadResult
took p b m to = record {
  p = copy p (window b.buf b.r m);
  n = m;
  err = none;
  rest = drained (record b { r = to });
}

read_straight :
    (p : List ℕ) (b : RingBuffer)
    → IsValid b
    → 0 < length p
    → b.is_empty ≡ false
    → b.r < b.w
    → let m = at_most (length p) (b.w - b.r) in read p b ≡ some (took p b m (b.r + m))
unfolding read
read_straight p b v pos e q =
    rw
      (
        ne→not-== (length p) 0 (omega arith),
        e,
        lt→ltb b.r b.w q,
        one_slice b (at_most (length p) (b.w - b.r)) v (ground arith),
      )
      refl

read_round :
    (p : List ℕ) (b : RingBuffer)
    → IsValid b
    → 0 < length p
    → b.is_empty ≡ false
    → b.w ≤ b.r
    → let m = at_most (length p) (b.size - b.r + b.w) in
      read p b ≡ some (took p b m (bit_and (b.r + m) b.mask))
unfolding read
read_round p b v pos e q =
    rw
      (
        read_wrapped_lem p b (at_most (length p) (b.size - b.r + b.w)) v (ground arith)
            (ground arith),
        ne→not-== (length p) 0 (omega arith),
        e,
        le→not-ltb b.r b.w q,
      )
      refl

at_most-min : (k n : ℕ) → at_most k n ≡ min k n
at_most-min k n = ground arith

-- What `Read` leaves and returns, where there is something to read: `p` is filled from the contents,
-- as far as either goes.
pub read-some :
    (p : List ℕ) (b : RingBuffer)
    → IsValid b
    → 0 < length p
    → b.is_empty ≡ false
    → read p b
      ≡ some (record {
        p = copy p (contents b);
        n = min (length p) (ring_length b);
        err = none;
        rest = advance b (min (length p) (ring_length b));
      })
read-some p b v pos e = elim (dec_lt b.r b.w) [
  | yes q ↦
      read_straight p b v pos e q
      ∙ ap (λ t. some (took p b t (b.r + t)))
          (at_most-min (length p) (b.w - b.r)
            ∙ ap (min (length p)) (sym (ring_length-straight b v q)))
      ∙ ap (λ t. some (took p b taken t)) (ground (arith, ring_length-straight b v q))
      ∙ same_bytes
  | no q ↦
      read_round p b v pos e (omega arith)
      ∙ ap (λ t. some (took p b t (bit_and (b.r + t) b.mask)))
          (at_most-min (length p) (b.size - b.r + b.w)
            ∙ ap (min (length p)) (sym (ring_length-round b v e (omega arith))))
      ∙ ap (λ t. some (record (took p b taken (b.r + taken)) { rest = t }))
          (masked-advance b taken v e (omega arith))
      ∙ same_bytes
]
  where
    taken : ℕ
    taken = min (length p) (ring_length b)

    same_bytes :
        some (took p b taken (around b.size (b.r + taken)))
        ≡ some (record { p = copy p (contents b); n = taken; err = none; rest = advance b taken })
    same_bytes =
        ap (λ t. some (record { p = t; n = taken; err = none; rest = advance b taken }))
          (ap (copy p) (sym (take-window b.buf (length p) b.r (ring_length b)))
            ∙ copy-take p (contents b))
