-- ===== src/Conn/Inbound/Laws.antt =====
-- What `Read`, `ReadN`, `ShiftN` and `ResetBuffer` do to the bytes that a connection has received.
use native.Mathlib.Decide.{dec_le}
use limnet.Base.{
  ℕ, ◌+◌, ◌-◌, ◌≤◌, ◌≡◌, refl, sym, ap, ap₂, subst, ◌∙◌, true, some, List, [], ◌++◌, inl, inr,
  arith, Bool-cases, length, take, Option, none, ◌>>=◌, drop, slice, slice_lem, slice-to_end,
  length-append, take-append, drop-append, take_of_length-le, drop_of_length-le, le→leb, lt→not-leb,
  append-nil,
}
use limnet.Base.Int.{ℤ, pos, pos_part}
use limnet.RingBuffer.Defs.{RingBuffer, ring_length, reset}
use limnet.RingBuffer.Reading.{shift}
use limnet.RingBuffer.Inv.{IsValid, contents, length-contents}
use limnet.RingBuffer.Peek.{lazy_read-Slices}
use limnet.RingBuffer.Consume.{
  contents-shift, size-shift, shift-IsValid, contents-reset, reset-IsValid,
}
use limnet.RingBuffer.Read.{contents-empty}
use limnet.RingBuffer.Export.{ByteBuffers}
use limnet.RingBuffer.Export.Laws.{with_byte_buffer_lem}
use limnet.Conn.Inbound.{
  read_upto, shift_upto, Inbound, is_all, amount, buffer_length, read_all, reset_buffer, read_n,
  shift_n,
}

module _ {lib : ByteBuffers} where
  -- The connection still has a ring buffer, a valid one.
  pub record Holds (c : Inbound lib) (b : RingBuffer) : Type 0 where
    pub held : c.inbound_buffer ≡ some b
    pub valid : IsValid b

  -- What the connection has received and not yet given up: the ring buffer, then what was read last.
  abbrev pub stream : RingBuffer → Inbound lib → List ℕ
  stream b c = contents b ++ c.buffer

  -- Only the byte buffer may differ.
  pub record Keeps (c out : Inbound lib) : Type 0 where
    pub same_connected : out.connected ≡ c.connected
    pub same_inbound : out.inbound_buffer ≡ c.inbound_buffer
    pub same_buffer : out.buffer ≡ c.buffer

module _ (lib : ByteBuffers) (c : Inbound lib) (b : RingBuffer) (h : Holds c b) where
  total : ring_length b + length c.buffer ≡ length (stream b c)
  total = omega (arith, length-append (contents b) c.buffer, length-contents b h.valid)

  stream-empty : b.is_empty ≡ true → stream b c ≡ c.buffer
  stream-empty e = ap (λ t. t ++ c.buffer) (contents-empty b h.valid e)

  -- `BufferLength` is the length of the stream.
  buffer_length_lem : buffer_length lib c ≡ some (length (stream b c))
  unfolding buffer_length
  buffer_length_lem = rw h.held (ap some total)

  -- `Read` on an open connection gives the stream and leaves it.
  pub read_all_lem :
      c.connected ≡ true
      → (out : Inbound lib) × (read_all lib c ≡ some (stream b c, out)) × Keeps c out
  unfolding read_all
  read_all_lem up = elim (Bool-cases b.is_empty) [
    | inl e ↦ (
      c,
      simp (up, h.held, e, stream-empty e),
      record { same_connected = refl; same_inbound = refl; same_buffer = refl },
    )
    | inr e ↦
        let (bb, ok, holds) = with_byte_buffer_lem lib b h.valid c.buffer in
        (
          record c { byte_buffer = some bb },
          simp (up, h.held, e, ok, holds),
          record { same_connected = refl; same_inbound = refl; same_buffer = refl },
        )
  ]

  amount_le : (t : ℕ) (n : ℤ) → amount t n ≤ t
  amount_le t n = ground arith

  take-stream :
      (m : ℕ)
      → ring_length b ≤ m
      → take m (stream b c) ≡ contents b ++ take (m - ring_length b) c.buffer
  take-stream m p =
      take-append m (contents b) c.buffer
      ∙ ap₂ (λ s t. s ++ take t c.buffer)
          (take_of_length-le m (contents b) (omega (arith, length-contents b h.valid)))
          (omega (arith, length-contents b h.valid))

  take-contents : (m : ℕ) → m ≤ ring_length b → take m (stream b c) ≡ take m (contents b)
  take-contents m p =
      take-append m (contents b) c.buffer
      ∙ ap (λ t. take m (contents b) ++ take t c.buffer) {y = 0}
          (omega (arith, length-contents b h.valid))
      ∙ append-nil (take m (contents b))

  drop-stream :
      (m : ℕ) → ring_length b ≤ m → drop m (stream b c) ≡ drop (m - ring_length b) c.buffer
  drop-stream m p =
      drop-append m (contents b) c.buffer
      ∙ ap₂ (λ s t. s ++ drop t c.buffer)
          (drop_of_length-le m (contents b) (omega (arith, length-contents b h.valid)))
          (omega (arith, length-contents b h.valid))

  drop-contents :
      (m : ℕ) → m ≤ ring_length b → drop m (stream b c) ≡ drop m (contents b) ++ c.buffer
  drop-contents m p =
      drop-append m (contents b) c.buffer
      ∙ ap (λ t. drop m (contents b) ++ drop t c.buffer) {y = 0}
          (omega (arith, length-contents b h.valid))

  open lib use {get, append, bytes, bytes-get, bytes-append}

  two_writes : (p q : List ℕ) → bytes (append (append get p) q) ≡ p ++ q
  two_writes p q =
      bytes-append (append get p) q
      ∙ ap (λ t. t ++ q) (bytes-append get p ∙ ap (λ t. t ++ p) bytes-get)

  reset-size : (b : RingBuffer) → (reset b).size ≤ b.size
  unfolding reset
  reset-size b = omega arith

  from_start : (m : ℕ) → m ≤ length c.buffer → slice 0 m c.buffer ≡ some (take m c.buffer)
  from_start m p =
      slice_lem 0 m c.buffer (omega arith) p ∙ ap (λ t. some (take t c.buffer)) (omega arith)

  read_upto_lem :
      (n : ℕ)
      → n ≤ length (stream b c)
      → (out : Inbound lib) × (read_upto lib n b c ≡ some (n, take n (stream b c), out))
        × Keeps c out
  unfolding read_upto
  read_upto_lem n p = elim (Bool-cases b.is_empty) [
    | inl e ↦ (
      c,
      simp (e, stream-empty e, from_start n (omega (arith, ap length (stream-empty e)))),
      record { same_connected = refl; same_inbound = refl; same_buffer = refl },
    )
    | inr e ↦
        let (ht, ok, halves) = lazy_read-Slices (pos n) b h.valid in
        elim (dec_le n (ring_length b)) [
          | yes q ↦ (
            record c { byte_buffer = some (append (append get ht.0) ht.1) },
            simp (
              e,
              ok,
              le→leb n (ring_length b) q,
              two_writes ht.0 ht.1,
              halves,
              take-contents n q,
            ),
            record { same_connected = refl; same_inbound = refl; same_buffer = refl },
          )
          | no q ↦
              let rest = take (n - ring_length b) c.buffer in
              let all : bytes (append (append (append get ht.0) ht.1) rest) ≡ take n (stream b c) =
                bytes-append (append (append get ht.0) ht.1) rest
                ∙ ap (λ t. t ++ rest)
                    (two_writes ht.0 ht.1
                      ∙ halves
                      ∙ take_of_length-le n (contents b) (omega (arith, length-contents b h.valid)))
                ∙ sym (take-stream n (omega arith)) in
              (
                record c { byte_buffer = some (append (append (append get ht.0) ht.1) rest) },
                simp (
                  e,
                  ok,
                  lt→not-leb n (ring_length b) (omega arith),
                  from_start (n - ring_length b) (omega (arith, total)),
                  all,
                ),
                record { same_connected = refl; same_inbound = refl; same_buffer = refl },
              )
        ]
  ]

  -- `ReadN(n)` gives the first `n` bytes of the stream, or all of it where `n` is not positive or
  -- there are no more, together with their number, and leaves the stream as it is.
  pub read_n_lem :
      (n : ℤ)
      → (out : Inbound lib) × (read_n lib n c
          ≡ some (
            amount (length (stream b c)) n,
            take (amount (length (stream b c)) n) (stream b c),
            out,
          ))
        × Keeps c out
  unfolding read_n
  read_n_lem n =
      let (out, ok, keeps) =
        read_upto_lem (amount (length (stream b c)) n) (amount_le (length (stream b c)) n) in
      (
        out,
        ap (λ o. o >>= rest) h.held ∙ ap (λ t. read_upto lib (amount t n) b c) total ∙ ok,
        keeps,
      )
    where
      rest : RingBuffer → Option (ℕ × List ℕ × Inbound lib)
      rest b = read_upto lib (amount (ring_length b + length c.buffer) n) b c

  -- What `ShiftN` leaves when it takes `n` bytes off.
  pub record Shifts (n : ℕ) (out : Inbound lib) : Type 0 where
    pub ring : RingBuffer
    pub holds : Holds out ring
    pub rest : stream ring out ≡ drop n (stream b c)
    pub capacity : ring.size ≤ b.size
    pub same_connected : out.connected ≡ c.connected

  shift_upto_lem :
      (n : ℕ)
      → n ≤ length (stream b c)
      → (out : Inbound lib) × (shift_upto lib n b c ≡ some (n, out)) × Shifts n out
  unfolding shift_upto
  shift_upto_lem n p = elim (Bool-cases b.is_empty) [
    | inl e ↦
        let s = drop n c.buffer in
        (
          record c { buffer = s },
          simp (e, slice-to_end n c.buffer (omega (arith, ap length (stream-empty e)))),
          record {
            ring = b;
            holds = record { held = h.held; valid = h.valid };
            rest =
                ap (λ t. t ++ s) (contents-empty b h.valid e) ∙ sym (ap (drop n) (stream-empty e));
            same_connected = refl;
            capacity = omega arith;
          },
        )
    | inr e ↦ elim (dec_le n (ring_length b)) [
      | yes q ↦ (
        record c { inbound_buffer = some (shift (pos n) b); byte_buffer = none },
        simp (e, le→leb n (ring_length b) q),
        record {
          ring = shift (pos n) b;
          holds = record { held = refl; valid = shift-IsValid (pos n) b h.valid };
          rest =
              ap (λ t. t ++ c.buffer) (contents-shift (pos n) b h.valid) ∙ sym (drop-contents n q);
          same_connected = refl;
          capacity = omega (arith, size-shift (pos n) b);
        },
      )
      | no q ↦
          let s = drop (n - ring_length b) c.buffer in
          (
            record c { inbound_buffer = some (reset b); buffer = s; byte_buffer = none },
            simp (
              e,
              lt→not-leb n (ring_length b) (omega arith),
              slice-to_end (n - ring_length b) c.buffer (omega (arith, total)),
            ),
            record {
              ring = reset b;
              holds = record { held = refl; valid = reset-IsValid b h.valid };
              rest = ap (λ t. t ++ s) (contents-reset b) ∙ sym (drop-stream n (omega arith));
              same_connected = refl;
              capacity = reset-size b;
            },
          )
    ]
  ]

  -- `ResetBuffer` leaves an empty stream.
  pub reset_buffer_lem :
      (out : Inbound lib) × (reset_buffer lib c ≡ some out) × Shifts (length (stream b c)) out
  unfolding reset_buffer
  reset_buffer_lem = (
    record c { buffer = []; inbound_buffer = some (reset b); byte_buffer = none },
    ap (λ o. o >>= emptied) h.held,
    record {
      ring = reset b;
      holds = record { held = refl; valid = reset-IsValid b h.valid };
      rest =
          ap (λ t. t ++ []) (contents-reset b)
          ∙ sym (drop_of_length-le (length (stream b c)) (stream b c) (omega arith));
      same_connected = refl;
      capacity = reset-size b;
    },
  )
    where
      emptied : RingBuffer → Option (Inbound lib)
      emptied b =
          some (record c { buffer = []; inbound_buffer = some (reset b); byte_buffer = none })

  -- `ShiftN(n)` takes off what `ReadN(n)` gives, and returns its length.
  pub shift_n_lem :
      (n : ℤ)
      → (out : Inbound lib) × (shift_n lib n c ≡ some (amount (length (stream b c)) n, out))
        × Shifts (amount (length (stream b c)) n) out
  unfolding shift_n
  shift_n_lem n = elim (Bool-cases (is_all (length (stream b c)) n)) [
    | inl e ↦
        let (out, ok, s) = reset_buffer_lem in
        (out, simp (h.held, total, e, ok), subst (λ m. Shifts m out) (ground arith) s)
    | inr e ↦
        let (out, ok, s) = shift_upto_lem (pos_part n) (ground arith) in
        (out, simp (h.held, total, e, ok), subst (λ m. Shifts m out) (ground arith) s)
  ]
