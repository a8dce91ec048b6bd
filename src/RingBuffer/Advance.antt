-- ===== src/RingBuffer/Advance.antt =====
-- The step that `Shift`, `Read` and `ReadByte` share: the read pointer moves on.
use native.Mathlib.Decide.{dec_lt}
use limnet.Base.{ℕ, ◌+◌, ◌-◌, ◌≤◌, ◌<◌, ◌≡◌, sym, ap, ◌∙◌, true, false, drop, ◌≢◌, arith}
use limnet.RingBuffer.Defs.{RingBuffer, ring_length}
use limnet.RingBuffer.Reading.{drained}
use limnet.RingBuffer.Inv.{
  IsValid, around, window, contents, drop-window, window_past, ring_length-le-size,
}

-- what is left of `b` once `n` bytes are read
abbrev pub advance : RingBuffer → ℕ → RingBuffer
advance b n = drained (record b { r = around b.size (b.r + n) })

pub size-advance : (b : RingBuffer) (n : ℕ) → (advance b n).size ≡ b.size
size-advance b n = ground arith

module _ (b : RingBuffer) (n : ℕ) (v : IsValid b) (e : b.is_empty ≡ false) (pos : 0 < n)
    (h : n ≤ ring_length b) where
  nonempty_size : b.size ≢ 0
  nonempty_size z = let t : b.is_empty ≡ true = v.none_stored z in ground arith

  pub advance-IsValid : IsValid (advance b n)
  unfolding ring_length
  advance-IsValid = ground (arith, nonempty_size)

  pub ring_length-advance : ring_length (advance b n) ≡ ring_length b - n
  unfolding ring_length
  ring_length-advance = ground (arith, nonempty_size)

  buf-advance : (advance b n).buf ≡ b.buf
  buf-advance = ground arith

  r-advance : (advance b n).r ≡ around b.size (b.r + n)
  r-advance = ground arith

  window-advance :
      window b.buf (around b.size (b.r + n)) (ring_length b - n)
      ≡ window b.buf (b.r + n) (ring_length b - n)
  window-advance = elim (dec_lt (b.r + n) b.size) [
    | yes p ↦ ap (λ t. window b.buf t (ring_length b - n)) (ground arith)
    | no p ↦
        ap (λ t. window b.buf t (ring_length b - n)) (ground arith)
        ∙ sym (
            window_past b.buf (b.r + n) (ring_length b - n) (omega arith)
              (omega (arith, ring_length-le-size b v)))
  ]

  pub contents-advance : contents (advance b n) ≡ drop n (contents b)
  contents-advance =
      ap (λ t. window t (advance b n).r (ring_length (advance b n))) buf-advance
      ∙ ap (λ t. window b.buf t (ring_length (advance b n))) r-advance
      ∙ ap (window b.buf (around b.size (b.r + n))) ring_length-advance
      ∙ window-advance
      ∙ sym (drop-window b.buf n b.r (ring_length b))
