-- ===== src/RingBuffer/Export/Laws.antt =====
-- `ByteBuffer` and `WithByteBuffer` copy the contents out.
use native.Mathlib.Decide.{dec_lt, ℕ_discrete}
use limnet.Base.{
  ℕ, ◌-◌, ◌≤◌, ◌<◌, ◌≡◌, sym, ap, ◌∙◌, true, false, Option, none, some, List, [], ◌++◌, append-nil,
  length, slice, take, drop, ◌≢◌, inl, inr, arith, Bool-cases, eq→==, ne→not-==, lt→ltb, le→not-ltb,
}
use limnet.RingBuffer.Defs.{RingBuffer}
use limnet.RingBuffer.Inv.{IsValid, window, contents, ring_length-straight}
use limnet.RingBuffer.Peek.{slice-congr, end_slice, start_slice, contents_round}
use limnet.RingBuffer.Read.{contents-empty}
use limnet.RingBuffer.Export.{ByteBuffers, byte_buffer, with_byte_buffer}

-- the bytes of a buffer that may be nil
abbrev pub bytes_of : (lib : ByteBuffers) → Option lib.ByteBuffer → List ℕ
bytes_of lib none = []
bytes_of lib (some bb) = lib.bytes bb

module _ (lib : ByteBuffers) (b : RingBuffer) (v : IsValid b) where
  open lib use {ByteBuffer, get, append, bytes, bytes-get, bytes-append, bytes-of_bytes}

  one_write : (p : List ℕ) → bytes (append get p) ≡ p
  one_write p = bytes-append get p ∙ ap (λ t. t ++ p) bytes-get

  two_writes : (p q : List ℕ) → bytes (append (append get p) q) ≡ p ++ q
  two_writes p q = bytes-append (append get p) q ∙ ap (λ t. t ++ q) (one_write p)

  straight : b.r < b.w → slice b.r b.w b.buf ≡ some (contents b)
  straight p =
      slice-congr b v (b.w - b.r) (omega arith) (omega arith)
      ∙ ap (λ t. some (window b.buf b.r t)) (sym (ring_length-straight b v p))

  head : List ℕ
  head = drop b.r b.buf

  tail : List ℕ
  tail = take b.w b.buf

  -- The five ways in which the bytes may lie in the buffer.
  data Layout : Type 0 where
    nothing : b.is_empty ≡ true → contents b ≡ [] → Layout
    whole : b.is_empty ≡ false → b.w ≡ b.r → head ++ tail ≡ contents b → Layout
    between : b.is_empty ≡ false → b.w ≢ b.r → b.r < b.w → Layout
    around_end :
        b.is_empty ≡ false → b.w ≢ b.r → b.w ≤ b.r → b.w ≢ 0 → head ++ tail ≡ contents b → Layout
    to_end : b.is_empty ≡ false → b.w ≢ b.r → b.w ≤ b.r → b.w ≡ 0 → head ≡ contents b → Layout

  layout : Layout
  unfolding head tail
  layout = elim (Bool-cases b.is_empty) [
    | inl e ↦ nothing e (contents-empty b v e)
    | inr e ↦ elim (ℕ_discrete b.w b.r) [
      | yes q ↦ whole e q (contents_round b v e (omega arith))
      | no q ↦ elim (dec_lt b.r b.w) [
        | yes p ↦ between e q p
        | no p ↦ elim (ℕ_discrete b.w 0) [
          | yes z ↦ to_end e q (omega arith) z (
              sym (append-nil _)
              ∙ ap (λ t. drop b.r b.buf ++ take t b.buf) {x = 0} (omega arith)
              ∙ contents_round b v e (omega arith))
          | no z ↦ around_end e q (omega arith) z (contents_round b v e (omega arith))
        ]
      ]
    ]
  ]

  from_head : slice b.r (length b.buf) b.buf ≡ some head
  unfolding head
  from_head = end_slice b v

  from_tail : slice 0 b.w b.buf ≡ some tail
  unfolding tail
  from_tail = start_slice b b.w v (omega arith)

  -- `ByteBuffer` does not panic. It gives nil for an empty ring buffer, and otherwise a buffer that
  -- holds the contents.
  pub byte_buffer_lem :
      (o : Option ByteBuffer) × (byte_buffer lib b ≡ some o) × (bytes_of lib o ≡ contents b)
  unfolding byte_buffer
  byte_buffer_lem = elim layout [
    | nothing e c ↦ (none, simp e, sym c)
    | whole e q c ↦ (
      some (append (append get head) tail),
      simp (e, eq→== b.w b.r q, from_head, from_tail),
      two_writes head tail ∙ c,
    )
    | between e q p ↦ (
      some (append get (contents b)),
      simp (e, ne→not-== b.w b.r q, lt→ltb b.r b.w p, straight p),
      one_write (contents b),
    )
    | around_end e q p z c ↦ (
      some (append (append get head) tail),
      simp (e, ne→not-== b.w b.r q, le→not-ltb b.r b.w p, from_head, ne→not-== b.w 0 z, from_tail),
      two_writes head tail ∙ c,
    )
    | to_end e q p z c ↦ (
      some (append get head),
      simp (e, ne→not-== b.w b.r q, le→not-ltb b.r b.w p, from_head, eq→== b.w 0 z),
      one_write head ∙ c,
    )
  ]

  and_then :
      (bb : ByteBuffer) (p : List ℕ) → bytes bb ≡ contents b → bytes (append bb p) ≡ contents b ++ p
  and_then bb p e = bytes-append bb p ∙ ap (λ t. t ++ p) e

  -- `WithByteBuffer(p)` does not panic, and its buffer holds the contents and `p` behind them.
  pub with_byte_buffer_lem :
      (p : List ℕ)
      → (bb : ByteBuffer) × (with_byte_buffer lib p b ≡ some bb) × (bytes bb ≡ contents b ++ p)
  unfolding with_byte_buffer
  with_byte_buffer_lem p = elim layout [
    | nothing e c ↦ (lib.of_bytes p, simp e, bytes-of_bytes p ∙ ap (λ t. t ++ p) (sym c))
    | whole e q c ↦ (
      append (append (append get head) tail) p,
      simp (e, eq→== b.w b.r q, from_head, from_tail),
      and_then (append (append get head) tail) p (two_writes head tail ∙ c),
    )
    | between e q h ↦ (
      append (append get (contents b)) p,
      simp (e, ne→not-== b.w b.r q, lt→ltb b.r b.w h, straight h),
      and_then (append get (contents b)) p (one_write (contents b)),
    )
    | around_end e q h z c ↦ (
      append (append (append get head) tail) p,
      simp (e, ne→not-== b.w b.r q, le→not-ltb b.r b.w h, from_head, ne→not-== b.w 0 z, from_tail),
      and_then (append (append get head) tail) p (two_writes head tail ∙ c),
    )
    | to_end e q h z c ↦ (
      append (append get head) p,
      simp (e, ne→not-== b.w b.r q, le→not-ltb b.r b.w h, from_head, eq→== b.w 0 z),
      and_then (append get head) p (one_write head ∙ c),
    )
  ]
