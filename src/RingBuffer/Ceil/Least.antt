-- ===== src/RingBuffer/Ceil/Least.antt =====
-- `CeilToPowerOfTwo` gives the least power of two that is neither below its argument nor below 2.
use Prim.Native.Nat.{bit_and}
use native.Mathlib.Decide.{dec_lt, ℕ_discrete}
use native.Mathlib.Nat.{pow-succ', pow-le-pow_right}
use mathlib.Core.WellFounded
use limnet.Base.{ℕ, zero, suc, ◌+◌, ◌-◌, ◌*◌, ◌/◌, ◌%◌, ◌^◌, ◌≤◌, ◌<◌, ◌≡◌, refl, ap}
use limnet.Base.{◌↔◌, ◌≢◌, none, some, arith}
use limnet.Base.Order.{lt_wf}
use limnet.Base.Int.{pos}
use limnet.Base.Bits.{bit_and-shift}
use limnet.RingBuffer.Ceil.{fill_bits, max_int_head_bit, ceil_to_power_of_two}
use limnet.RingBuffer.Ceil.Fill.{fill_bits-half, fill_bits-odd, fill_bits-zero}

-- `p` is a power of two above `n`, and no more than twice `n`.
abbrev FillsOver : ℕ → ℕ → Type 0
FillsOver n p = (k : ℕ) × (p ≡ 2 ^ k) × (n < p) × (n ≢ 0 → p ≤ 2 * n)

fill_bits-FillsOver : (n : ℕ) → n < 2 ^ 64 → FillsOver n (fill_bits n + 1)
fill_bits-FillsOver n =
    WellFounded.induction lt_wf {C = λ n. n < 2 ^ 64 → FillsOver n (fill_bits n + 1)} n step
  where
    step :
        (n : ℕ)
        → ((m : ℕ) → m < n → m < 2 ^ 64 → FillsOver m (fill_bits m + 1))
        → n < 2 ^ 64
        → FillsOver n (fill_bits n + 1)
    step zero ih b = (0, omega (arith, fill_bits-zero), omega arith, λ ne. absurd (ne refl))
    step (suc n) ih b =
        let (k, e, above, within) = ih (suc n / 2) (omega arith) (omega arith) in
        let odd : fill_bits (suc n) % 2 ≡ 1 = fill_bits-odd (suc n) (omega arith) b in
        let half : fill_bits (suc n) / 2 ≡ fill_bits (suc n / 2) = fill_bits-half (suc n) in
        let twice : fill_bits (suc n) + 1 ≡ 2 * (fill_bits (suc n / 2) + 1) = omega arith in
        let small : fill_bits (suc n / 2) + 1 ≤ suc n = elim (ℕ_discrete (suc n / 2) 0) [
          | yes z ↦ omega (arith, ap fill_bits z, fill_bits-zero)
          | no nz ↦ omega (arith, within nz)
        ] in
        (suc k, omega (arith, pow-succ' 2 k), omega arith, λ _. omega arith)

-- What `CeilToPowerOfTwo` returns for `n`.
pub record IsCeil (n p : ℕ) : Type 0 where
  pub exponent : ℕ
  pub power : p ≡ 2 ^ exponent
  pub at_least_two : 2 ≤ p
  pub at_least : n ≤ p
  pub least : (j : ℕ) → 2 ≤ 2 ^ j → n ≤ 2 ^ j → p ≤ 2 ^ j

large-IsCeil : (n p : ℕ) → 2 < n → FillsOver (n - 1) p → IsCeil n p
large-IsCeil n p big (k, e, above, within) = record {
  exponent = k;
  power = e;
  at_least_two = omega arith;
  at_least = omega arith;
  least = λ j two fits. elim (dec_lt j k) [
    | yes lower ↦ absurd (
        omega (
          arith,
          pow-le-pow_right {n = 2} (omega arith) {i = suc j} {j = k} lower,
          pow-succ' 2 j,
          within (omega arith),
        ))
    | no higher ↦
        omega (arith, pow-le-pow_right {n = 2} (omega arith) {i = k} {j = j} (omega arith))
  ];
}

pub small-IsCeil : (n : ℕ) → n ≤ 2 → IsCeil n 2
small-IsCeil n h = record {
  exponent = 1;
  power = refl;
  at_least_two = omega arith;
  at_least = h;
  least = λ j two fits. two;
}

ceil_small : (n : ℕ) → n ≤ 2 → ceil_to_power_of_two (pos n) ≡ some 2
unfolding ceil_to_power_of_two
ceil_small n h = ground arith

ceil_large :
    (n : ℕ)
    → 2 < n
    → n ≤ max_int_head_bit
    → ceil_to_power_of_two (pos n) ≡ some (fill_bits (n - 1) + 1)
unfolding ceil_to_power_of_two
ceil_large n big h = ground arith

-- For an argument of at most `1 << 62` there is no panic, and the result is at most `1 << 62`, a
-- power of two, at least 2, at least the argument, and the least such.
pub ceil_to_power_of_two-IsCeil :
    (n : ℕ)
    → n ≤ max_int_head_bit
    → (p : ℕ) × (ceil_to_power_of_two (pos n) ≡ some p) × IsCeil n p × (p ≤ max_int_head_bit)
ceil_to_power_of_two-IsCeil n h = elim (dec_lt 2 n) [
  | yes big ↦
      let c : IsCeil n (fill_bits (n - 1) + 1) =
        large-IsCeil n _ big (fill_bits-FillsOver (n - 1) (omega arith)) in
      (fill_bits (n - 1) + 1, ceil_large n big h, c, c.least 62 (omega arith) h)
  | no small ↦ (2, ceil_small n (omega arith), small-IsCeil n (omega arith), omega arith)
]

head_bit-set : (n : ℕ) → max_int_head_bit < n → n < 2 ^ 63 → bit_and n max_int_head_bit ≢ 0
head_bit-set n big h clear =
    omega (arith, bit_and-shift 62 n max_int_head_bit, ap (λ t. bit_and t 1) one, clear)
  where
    one : n / 2 ^ 62 ≡ 1
    one = omega arith

not-panic : (n : ℕ) → n ≤ max_int_head_bit → ceil_to_power_of_two (pos n) ≢ none
not-panic n h e = let (p, ok, _, _) = ceil_to_power_of_two-IsCeil n h in cc

-- `CeilToPowerOfTwo` panics exactly above `1 << 62`.
pub ceil_to_power_of_two-panic_iff :
    (n : ℕ) → n < 2 ^ 63 → (ceil_to_power_of_two (pos n) ≡ none) ↔ (max_int_head_bit < n)
unfolding ceil_to_power_of_two
ceil_to_power_of_two-panic_iff n h = (
  λ e. elim (dec_lt max_int_head_bit n) [
    | yes big ↦ big
    | no small ↦ absurd (not-panic n (omega arith) e)
  ],
  λ big. ground (arith, head_bit-set n big h),
)
