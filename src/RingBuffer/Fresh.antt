-- ===== src/RingBuffer/Fresh.antt =====
-- `New`, and what `Length`, `Free`, `IsEmpty`, `IsFull`, `Len` and `Cap` say of the contents.
use limnet.Base.{
  ℕ, zero, suc, ◌+◌, ◌≤◌, ◌<◌, ◌≡◌, refl, ap, true, [], length, ◌↔◌, ◌≢◌, inl, inr, arith, some,
  length-replicate, ne→not-==, Bool-cases,
}
use limnet.Base.Int.{ℤ, pos, negsuc, pos_part}
use limnet.RingBuffer.Ceil.{max_int_head_bit, ceil_to_power_of_two}
use limnet.RingBuffer.Ceil.Least.{IsCeil, ceil_to_power_of_two-IsCeil, small-IsCeil}
use limnet.RingBuffer.Defs.{
  RingBuffer, unallocated, allocated, new, ring_length, len, cap, free, is_full,
}
use limnet.RingBuffer.Inv.{IsValid, contents, length-contents, ring_length-pos}
use limnet.RingBuffer.Read.{contents-empty}
use limnet.RingBuffer.Grow.{free-add-ring_length}

pub unallocated-IsValid : IsValid unallocated
unallocated-IsValid = record {
  storage = refl;
  power = inl refl;
  mask_lem = refl;
  small = omega arith;
  r_in = omega arith;
  w_in = omega arith;
  at_rest = λ _. refl;
  none_stored = λ _. refl;
}

allocated-IsValid : (n c : ℕ) → IsCeil n c → c ≤ max_int_head_bit → IsValid (allocated c)
allocated-IsValid n c i h = record {
  storage = length-replicate c 0;
  power = inr (i.exponent, i.power);
  mask_lem = refl;
  small = h;
  r_in = omega arith;
  w_in = omega arith;
  at_rest = λ _. refl;
  none_stored = λ _. refl;
}

-- What `New(size)` gives: a valid ring buffer with nothing in it, which has at least the room asked
-- for, and no storage at all where none is asked for.
pub record IsFresh (size : ℤ) (b : RingBuffer) : Type 0 where
  pub valid : IsValid b
  pub nothing : contents b ≡ []
  pub room : (n : ℕ) → size ≡ pos n → n ≤ b.size
  pub zero_size : size ≡ pos 0 → b.size ≡ 0

contents-allocated : (c : ℕ) → contents (allocated c) ≡ []
unfolding ring_length
contents-allocated c = refl

allocated-IsFresh :
    (size : ℤ) (n c : ℕ)
    → IsCeil n c
    → c ≤ max_int_head_bit
    → ((m : ℕ) → size ≡ pos m → m ≤ c)
    → size ≢ pos 0
    → IsFresh size (allocated c)
allocated-IsFresh size n c i h room nonzero = record {
  valid = allocated-IsValid n c i h;
  nothing = contents-allocated c;
  room = room;
  zero_size = λ e. absurd (nonzero e);
}

pos-injective : (m n : ℕ) → pos m ≡ pos n → m ≡ n
pos-injective m n e = ap pos_part e

unallocated-IsFresh : IsFresh (pos 0) unallocated
unfolding ring_length
unallocated-IsFresh = record {
  valid = unallocated-IsValid;
  nothing = refl;
  room = λ n e. omega (arith, pos-injective 0 n e);
  zero_size = λ _. refl;
}

pub new_pos :
    (n : ℕ) → n ≤ max_int_head_bit → (b : RingBuffer) × (new (pos n) ≡ some b) × IsFresh (pos n) b
unfolding new
new_pos zero h = (unallocated, refl, unallocated-IsFresh)
new_pos (suc n) h =
    let (c, ok, i, small) = ceil_to_power_of_two-IsCeil (suc n) h in
    (
      allocated c,
      rw (ne→not-== (suc n) 0 (omega arith)) (rw ok refl),
      allocated-IsFresh (pos (suc n)) (suc n) c i small
          (λ m e. omega (arith, pos-injective (suc n) m e, i.at_least))
          (λ e. omega (arith, pos-injective (suc n) 0 e)),
    )

-- `New` does not panic for a size of at most `1 << 62`, negative sizes included.
pub new-IsFresh :
    (size : ℤ)
    → pos_part size ≤ max_int_head_bit
    → (b : RingBuffer) × (new size ≡ some b) × IsFresh size b
unfolding new ceil_to_power_of_two
new-IsFresh (negsuc k) h = (
  allocated 2,
  refl,
  allocated-IsFresh (negsuc k) 0 2 (small-IsCeil 0 (omega arith)) (omega arith) (λ n e. cc)
      (λ e. cc),
)
new-IsFresh (pos n) h = new_pos n h

-- The sizes and the two flags, in terms of the contents.
pub record SizesOf (b : RingBuffer) : Type 0 where
  pub length_lem : ring_length b ≡ length (contents b)
  pub free_lem : free b + length (contents b) ≡ cap b
  pub len_lem : len b ≡ cap b
  pub empty_iff : (b.is_empty ≡ true) ↔ (contents b ≡ [])
  pub full_iff : (is_full b ≡ true) ↔ ((0 < cap b) × (length (contents b) ≡ cap b))

full_lem :
    (b : RingBuffer)
    → IsValid b
    → (is_full b ≡ true) ↔ ((0 < cap b) × (length (contents b) ≡ cap b))
unfolding is_full cap ring_length
full_lem b v = (
  λ e. (ground (arith, ring_length-pos b v), ground (arith, length-contents b v)),
  λ h. ground (arith, length-contents b v),
)

pub sizes : (b : RingBuffer) → IsValid b → SizesOf b
unfolding is_full len cap
sizes b v = record {
  length_lem = omega (arith, length-contents b v);
  free_lem = omega (arith, length-contents b v, free-add-ring_length b v);
  len_lem = v.storage;
  empty_iff = (
    contents-empty b v,
    λ e. elim (Bool-cases b.is_empty) [
      | inl t ↦ t
      | inr f ↦ absurd (omega (arith, ap length e, length-contents b v, ring_length-pos b v f))
    ],
  );
  full_iff = full_lem b v;
}
