-- ===== src/RingBuffer/Grow.antt =====
-- `malloc`: the contents move to the start of a larger buffer.
use limnet.Base.{
  ℕ, ◌+◌, ◌-◌, ◌^◌, ◌≤◌, ◌<◌, ◌≡◌, refl, sym, ap, ◌∙◌, true, false, length, copy, inl, inr, arith,
  some, min, replicate, length-replicate, copy-nil, Bool-cases, ◌&&◌, leb, ◌==◌,
}
use native.Mathlib.Nat.{pow-le-pow_right}
use limnet.Base.Int.{pos, wrap_int}
use limnet.RingBuffer.Ceil.{max_int_head_bit}
use limnet.RingBuffer.Ceil.Least.{ceil_to_power_of_two-IsCeil}
use limnet.RingBuffer.Defs.{RingBuffer, init_size, ring_length, free}
use limnet.RingBuffer.Writing.{new_cap, malloc}
use limnet.RingBuffer.Inv.{IsValid, contents, ring_length-le-size}
use limnet.RingBuffer.Consume.{read-some}
use limnet.RingBuffer.Advance.{advance}
use limnet.RingBuffer.Read.{read_drained, contents-empty}

-- `Free` and `Length` make up the size.
pub free-add-ring_length : (b : RingBuffer) → IsValid b → free b + ring_length b ≡ b.size
unfolding free ring_length
free-add-ring_length b v = ground arith

wrap_int_small : (x : ℕ) → x ≤ max_int_head_bit → wrap_int x ≡ pos x
wrap_int_small x h = ground arith

-- A new capacity for `need` more bytes.
pub record NewCap (b : RingBuffer) (need c : ℕ) : Type 0 where
  pub room : b.size + need ≤ c
  pub power : (k : ℕ) × (c ≡ 2 ^ k)
  pub small : c ≤ max_int_head_bit
  pub least : (j : ℕ) → 12 ≤ j → b.size + need ≤ 2 ^ j → c ≤ 2 ^ j

pub new_cap-NewCap :
    (need : ℕ) (b : RingBuffer)
    → b.size + need ≤ max_int_head_bit
    → (c : ℕ) × (new_cap need b ≡ some c) × NewCap b need c
unfolding new_cap
new_cap-NewCap need b h = elim (Bool-cases (b.size == 0 && leb need init_size)) [
  | inl e ↦ (
    init_size,
    rw e refl,
    record {
      room = ground arith;
      power = (12, refl);
      small = omega arith;
      least = λ j p _. pow-le-pow_right {n = 2} (omega arith) {i = 12} {j = j} p;
    },
  )
  | inr e ↦
      let (c, ok, ceil, small) = ceil_to_power_of_two-IsCeil (b.size + need) h in
      (
        c,
        rw (e, wrap_int_small (b.size + need) h) ok,
        record {
          room = ceil.at_least;
          power = (ceil.exponent, ceil.power);
          small = small;
          least = λ j p q.
              ceil.least j
                (omega (arith, pow-le-pow_right {n = 2} (omega arith) {i = 12} {j = j} p)) q;
        },
      )
]

-- the bytes moved to the start of a buffer of `c` bytes
abbrev pub grown : RingBuffer → ℕ → RingBuffer
grown b c = record {
  buf = copy (replicate c 0) (contents b);
  size = c;
  mask = c - 1;
  r = 0;
  w = ring_length b;
  is_empty = true;
}

-- Reading everything leaves a ring buffer that is marked empty.
advance_all :
    (b : RingBuffer) (n : ℕ)
    → IsValid b
    → b.is_empty ≡ false
    → n ≡ ring_length b
    → (advance b n).is_empty ≡ true
unfolding ring_length
advance_all b n v e h = ground arith

pub malloc_lem :
    (need : ℕ) (b : RingBuffer) (c : ℕ)
    → IsValid b
    → 0 < need
    → new_cap need b ≡ some c
    → NewCap b need c
    → malloc need b ≡ some (grown b c)
unfolding malloc
malloc_lem need b c v asked e n = elim (Bool-cases b.is_empty) [
  | inl z ↦
      rw (e, read_drained (replicate c 0) b full z)
        (ap (λ t. some (record (grown b c) { buf = t; is_empty = b.is_empty }))
            (sym (ap (copy (replicate c 0)) (contents-empty b v z) ∙ copy-nil (replicate c 0)))
          ∙ ap (λ t. some (record (grown b c) { is_empty = t })) z)
  | inr z ↦
      rw (e, read-some (replicate c 0) b v full z)
        (ap (λ t. some (record (grown b c) { is_empty = t }))
          (advance_all b (min (length {A = ℕ} (replicate c 0)) (ring_length b)) v z
            (omega (arith, length-replicate {0} {A = ℕ} c 0, ring_length-le-size b v))))
]
  where
    full : 0 < length {A = ℕ} (replicate c 0)
    full = omega (arith, length-replicate {0} {A = ℕ} c 0)
