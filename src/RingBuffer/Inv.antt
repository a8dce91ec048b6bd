-- ===== src/RingBuffer/Inv.antt =====
-- The representation invariant of a ring buffer, and the bytes that it holds.
use Prim.Native.Nat.{bit_and}
use limnet.Base.{
  ℕ, ◌+◌, ◌-◌, ◌^◌, ◌%◌, ◌≤◌, ◌<◌, ◌≡◌, ap, ◌∙◌, true, false, List, ◌++◌, ltb, if◌then◌else◌,
  length, take, drop, get_or, ◌⊎◌, inl, inr, arith, min,
}
use limnet.Base.{length-append, length-take, length-drop, get_or-append, get_or-take, get_or-drop}
use limnet.Base.{take-take, take-append, take_of_length-le, drop-take, drop-append, drop-drop}
use limnet.Base.{drop_of_length-le, append-nil, sym}
use native.Mathlib.Decide.{dec_lt, ℕ_discrete}
use native.Mathlib.Nat.{mod-eq_of_lt, mod-eq-sub-mod}
use limnet.Base.Bits.{bit_and-mask}
use limnet.RingBuffer.Ceil.{max_int_head_bit}
use limnet.RingBuffer.Defs.{RingBuffer, ring_length}

pub record IsValid (b : RingBuffer) : Type 0 where
  pub storage : length b.buf ≡ b.size
  pub power : (b.size ≡ 0) ⊎ ((k : ℕ) × (b.size ≡ 2 ^ k))
  pub mask_lem : b.mask ≡ b.size - 1
  pub small : b.size ≤ max_int_head_bit
  pub r_in : b.r ≤ b.size - 1
  pub w_in : b.w ≤ b.size - 1
  pub at_rest : b.is_empty ≡ true → b.r ≡ b.w
  pub none_stored : b.size ≡ 0 → b.is_empty ≡ true

-- `n` bytes from position `r` on, going round at the end of the buffer
abbrev pub window : List ℕ → ℕ → ℕ → List ℕ
window buf r n = take n (drop r (buf ++ buf))

-- The bytes to read, oldest first.
abbrev pub contents : RingBuffer → List ℕ
contents b = window b.buf b.r (ring_length b)

pub ring_length-le-size : (b : RingBuffer) → IsValid b → ring_length b ≤ b.size
unfolding ring_length
ring_length-le-size b v = ground arith

-- the position that `j` denotes when it may be past the end once
abbrev pub around : ℕ → ℕ → ℕ
around size j = if ltb j size then j else j - size

module _ (buf : List ℕ) where
  pub length-window : (r n : ℕ) → r ≤ length buf → n ≤ length buf → length (window buf r n) ≡ n
  length-window r n p q = omega (
    arith,
    length-take n (drop r (buf ++ buf)),
    length-drop r (buf ++ buf),
    length-append buf buf,
  )

  -- A window that ends within the buffer is one slice of it,
  pub window_straight : (r n : ℕ) → r + n ≤ length buf → window buf r n ≡ take n (drop r buf)
  window_straight r n h =
      ap (take n) (drop-append r buf buf)
      ∙ take-append n (drop r buf) (drop (r - length buf) buf)
      ∙ ap (λ t. take n (drop r buf) ++ take t (drop (r - length buf) buf)) {y = 0}
          (omega (arith, length-drop r buf))
      ∙ append-nil (take n (drop r buf))

  -- and any other is the buffer's end and a part of its start.
  pub window_round :
      (r n : ℕ)
      → r ≤ length buf
      → n ≤ length buf
      → length buf ≤ r + n
      → window buf r n ≡ drop r buf ++ take (n - (length buf - r)) buf
  window_round r n p q h =
      ap (take n) (drop-append r buf buf)
      ∙ ap (λ t. take n (drop r buf ++ drop t buf)) {y = 0} (omega arith)
      ∙ take-append n (drop r buf) buf
      ∙ ap (λ t. t ++ take (n - length (drop r buf)) buf)
          (take_of_length-le n (drop r buf) (omega (arith, length-drop r buf)))
      ∙ ap (λ t. drop r buf ++ take (n - t) buf) (length-drop r buf)

  pub take-window : (m r n : ℕ) → take m (window buf r n) ≡ window buf r (min m n)
  take-window m r n = take-take m n (drop r (buf ++ buf))

  -- The window without its first `m` bytes begins `m` positions later,
  pub drop-window : (m r n : ℕ) → drop m (window buf r n) ≡ window buf (r + m) (n - m)
  drop-window m r n =
      drop-take m n (drop r (buf ++ buf)) ∙ ap (take (n - m)) (drop-drop m r (buf ++ buf))

  -- and a position past the end is one at the start.
  pub window_past :
      (r n : ℕ)
      → length buf ≤ r
      → r + n ≤ length buf + length buf
      → window buf r n ≡ window buf (r - length buf) n
  window_past r n p q =
      ap (take n) (
        drop-append r buf buf
        ∙ ap (λ t. t ++ drop (r - length buf) buf) (drop_of_length-le r buf p))
      ∙ sym (window_straight (r - length buf) n (omega arith))

  pub get_or-window :
      (r n i : ℕ) → i < n → get_or (window buf r n) i 0 ≡ get_or buf (around (length buf) (r + i)) 0
  get_or-window r n i h = ground (
    arith,
    get_or-take 0 n (drop r (buf ++ buf)) i,
    get_or-drop 0 r (buf ++ buf) i,
    get_or-append 0 buf buf (r + i),
  )

pub length-contents : (b : RingBuffer) → IsValid b → length (contents b) ≡ ring_length b
length-contents b v =
    length-window b.buf b.r (ring_length b) (omega arith) (omega (arith, ring_length-le-size b v))

mod-around : (j s : ℕ) → j < s + s → j % s ≡ around s j
mod-around j s h = elim (dec_lt j s) [
  | yes p ↦ ground (arith, mod-eq_of_lt p)
  | no p ↦ ground (
    arith,
    mod-eq-sub-mod {n = j} {m = s} (omega arith),
    mod-eq_of_lt {n = j - s} {m = s} (omega arith),
  )
]

-- `& r.mask` brings a position that is past the end once back into the buffer.
pub bit_and-mask_lem :
    (b : RingBuffer) (j : ℕ) → IsValid b → j < b.size + b.size → bit_and j b.mask ≡ around b.size j
bit_and-mask_lem b j v h = masked v.power
  where
    masked : (b.size ≡ 0) ⊎ ((k : ℕ) × (b.size ≡ 2 ^ k)) → bit_and j b.mask ≡ around b.size j
    masked (inl e) = absurd (omega arith)
    masked (inr (k, e)) =
        ap (bit_and j) (omega arith)
        ∙ bit_and-mask k j
        ∙ ap (λ t. j % t) (sym e)
        ∙ mod-around j b.size h

-- `Length` on each branch that the other methods distinguish.
module _ (b : RingBuffer) (v : IsValid b) where
  pub ring_length-empty : b.is_empty ≡ true → ring_length b ≡ 0
  unfolding ring_length
  ring_length-empty e = ground arith

  pub ring_length-straight : b.r < b.w → ring_length b ≡ b.w - b.r
  unfolding ring_length
  ring_length-straight h = ground arith

  pub ring_length-round : b.is_empty ≡ false → b.w ≤ b.r → ring_length b ≡ b.size - b.r + b.w
  unfolding ring_length
  ring_length-round e h = ground arith

  pub ring_length-pos : b.is_empty ≡ false → 0 < ring_length b
  unfolding ring_length
  ring_length-pos e = elim (ℕ_discrete b.size 0) [
    | yes z ↦ let t : b.is_empty ≡ true = v.none_stored z in cc
    | no nz ↦ ground arith
  ]
