-- ===== src/RingBuffer/Read.antt =====
-- `Read` and `ReadByte` as a whole, errors included.
use native.Mathlib.Decide.{dec_lt}
use limnet.Base.{
  ℕ, ◌<◌, ◌≡◌, refl, sym, ap, ◌∙◌, true, false, List, [], ◌∷◌, length, drop, copy, inl, inr, ◌⊎◌,
  arith, ◌==◌, none, some, min, if◌then◌else◌, Bool-cases, eq→==, ne→not-==, get_or, get_elem?_lem,
  copy-nil, head-drop_one, drop_of_length-le,
}
use limnet.RingBuffer.Defs.{RingBuffer, err_is_empty, ring_length}
use limnet.RingBuffer.Reading.{ReadResult, read, read_byte}
use limnet.RingBuffer.Inv.{
  IsValid, window, contents, length-contents, ring_length-empty, ring_length-pos, get_or-window,
  ring_length-le-size,
}
use limnet.RingBuffer.Advance.{size-advance, advance, advance-IsValid, contents-advance}
use limnet.RingBuffer.Consume.{read-some}

drop-min : (k : ℕ) (xs : List ℕ) (n : ℕ) → length xs ≡ n → drop (min k n) xs ≡ drop k xs
drop-min k xs n e = elim (dec_lt k n) [
  | yes p ↦ ap (λ t. drop t xs) (omega arith)
  | no p ↦ drop_of_length-le (min k n) xs (omega arith) ∙ sym (drop_of_length-le k xs (omega arith))
]

-- What `Read(p)` on `b` does, on every branch: the bytes go into `p` from its start, and off the
-- contents; `ErrIsEmpty` is returned where `p` has room and there is nothing to read.
pub record Reads (p : List ℕ) (b : RingBuffer) (res : ReadResult) : Type 0 where
  pub valid : IsValid res.rest
  pub filled : res.p ≡ copy p (contents b)
  pub count : res.n ≡ min (length p) (length (contents b))
  pub left : contents res.rest ≡ drop (length p) (contents b)
  pub size_kept : res.rest.size ≡ b.size
  pub error :
      res.err ≡ (if length p == 0 then none else if b.is_empty then some err_is_empty else none)

pub contents-empty : (b : RingBuffer) → IsValid b → b.is_empty ≡ true → contents b ≡ []
contents-empty b v e = ap (window b.buf b.r) (ring_length-empty b v e)

read_nothing :
    (p : List ℕ) (b : RingBuffer)
    → length p ≡ 0
    → read p b ≡ some (record { p = p; n = 0; err = none; rest = b })
unfolding read
read_nothing p b e = rw (eq→== (length p) 0 e) refl

read_nothing-Reads :
    (p : List ℕ) (b : RingBuffer)
    → IsValid b
    → length p ≡ 0
    → Reads p b (record { p = p; n = 0; err = none; rest = b })
read_nothing-Reads [] b v e = record {
  valid = v;
  filled = refl;
  count = omega arith;
  left = refl;
  size_kept = refl;
  error = refl;
}
read_nothing-Reads (x ∷ p) b v e = absurd (omega arith)

pub read_drained :
    (p : List ℕ) (b : RingBuffer)
    → 0 < length p
    → b.is_empty ≡ true
    → read p b ≡ some (record { p = p; n = 0; err = some err_is_empty; rest = b })
unfolding read
read_drained p b pos e = rw (ne→not-== (length p) 0 (omega arith)) (simp e)

read_drained-Reads :
    (p : List ℕ) (b : RingBuffer)
    → IsValid b
    → 0 < length p
    → b.is_empty ≡ true
    → Reads p b (record { p = p; n = 0; err = some err_is_empty; rest = b })
read_drained-Reads p b v pos e = record {
  valid = v;
  filled = sym (ap (copy p) (contents-empty b v e) ∙ copy-nil p);
  count = omega (arith, length-contents b v, ring_length-empty b v e);
  left =
      contents-empty b v e
      ∙ sym (
          drop_of_length-le (length p) (contents b)
            (omega (arith, length-contents b v, ring_length-empty b v e)));
  size_kept = refl;
  error = rw (ne→not-== (length p) 0 (omega arith)) (simp e);
}

read-some-Reads :
    (p : List ℕ) (b : RingBuffer)
    → IsValid b
    → 0 < length p
    → b.is_empty ≡ false
    → Reads p b (record {
      p = copy p (contents b);
      n = min (length p) (ring_length b);
      err = none;
      rest = advance b (min (length p) (ring_length b));
    })
read-some-Reads p b v pos e =
    let taken = min (length p) (ring_length b) in
    let more = ring_length-pos b v e in
    record {
      valid = advance-IsValid b taken v e (omega arith) (omega arith);
      filled = refl;
      count = omega (arith, length-contents b v);
      left =
          contents-advance b taken v e (omega arith) (omega arith)
          ∙ drop-min (length p) (contents b) (ring_length b) (length-contents b v);
      size_kept = size-advance b taken;
      error = rw (ne→not-== (length p) 0 (omega arith)) (simp e);
    }

-- `Read` does not panic, and does what `Reads` says.
pub read-Reads :
    (p : List ℕ) (b : RingBuffer)
    → IsValid b
    → (res : ReadResult) × (read p b ≡ some res) × Reads p b res
read-Reads p b v = elim (dec_lt 0 (length p)) [
  | yes pos ↦ elim (Bool-cases b.is_empty) [
    | inl e ↦ (_, read_drained p b pos e, read_drained-Reads p b v pos e)
    | inr e ↦ (_, read-some p b v pos e, read-some-Reads p b v pos e)
  ]
  | no none_asked ↦ (_, read_nothing p b (omega arith), read_nothing-Reads p b v (omega arith))
]

-- What `ReadByte` does where there is something to read.
read_byte-some :
    (b : RingBuffer)
    → IsValid b
    → b.is_empty ≡ false
    → read_byte b ≡ some (get_or b.buf b.r 0, none, advance b 1)
unfolding read_byte
read_byte-some b v e =
    rw (get_elem?_lem b.buf b.r 0 (omega (arith, ring_length-pos b v e, ring_length-le-size b v)))
      (ground (arith, ring_length-pos b v e, ring_length-le-size b v))

front_byte :
    (b : RingBuffer)
    → IsValid b
    → b.is_empty ≡ false
    → contents b ≡ get_or b.buf b.r 0 ∷ contents (advance b 1)
front_byte b v e =
    let pos = ring_length-pos b v e in
    head-drop_one (contents b) 0 (omega (arith, length-contents b v))
    ∙ ap (λ t. t ∷ drop 1 (contents b))
        (ground (arith, get_or-window b.buf b.r (ring_length b) 0, ring_length-le-size b v))
    ∙ ap (λ t. get_or b.buf b.r 0 ∷ t) (sym (contents-advance b 1 v e (omega arith) (omega arith)))

read_byte_none : (b : RingBuffer) → b.is_empty ≡ true → read_byte b ≡ some (0, some err_is_empty, b)
unfolding read_byte
read_byte_none b e = simp e

-- `ReadByte` does not panic. It fails with `ErrIsEmpty` and changes nothing where there is nothing to
-- read, and otherwise takes the first byte off the contents.
pub read_byte-Takes :
    (b : RingBuffer)
    → IsValid b
    → ((contents b ≡ []) × (read_byte b ≡ some (0, some err_is_empty, b)))
      ⊎ ((c : ℕ) × (rest : RingBuffer) × (read_byte b ≡ some (c, none, rest))
          × IsValid rest
          × (rest.size ≡ b.size)
          × (contents b ≡ c ∷ contents rest))
read_byte-Takes b v = elim (Bool-cases b.is_empty) [
  | inl e ↦ inl (contents-empty b v e, read_byte_none b e)
  | inr e ↦ inr (
    get_or b.buf b.r 0,
    advance b 1,
    read_byte-some b v e,
    advance-IsValid b 1 v e (omega arith) (ring_length-pos b v e),
    size-advance b 1,
    front_byte b v e,
  )
]
