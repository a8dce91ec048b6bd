-- ===== src/RingBuffer/Ceil/Fill.antt =====
-- `fillBits`: every binary digit below the highest one is set.
use Prim.Native.Nat.{bit_or}
use native.Mathlib.Nat.{div-div-eq-div-mul, mul_comm, pow-succ'}
use limnet.Base.{ℕ, zero, suc, ◌+◌, ◌*◌, ◌/◌, ◌%◌, ◌^◌, ◌<◌, ◌≡◌, refl, sym, ap, ◌∙◌}
use limnet.Base.{◌⊎◌, inl, inr, ◌≢◌, arith}
use native.Mathlib.Decide.{ℕ_discrete}
use limnet.Base.Bits.{bit_or-half, bit_or-parity, bit_or-shift, shift-suc, shift-zero}
use limnet.RingBuffer.Ceil.{or_shift, fill_bits}

-- the digit at place `j`
abbrev digit : ℕ → ℕ → ℕ
digit j n = n / 2 ^ j % 2

halve-shift : (n s : ℕ) → n / 2 ^ s / 2 ≡ n / 2 / 2 ^ s
halve-shift n s =
    div-div-eq-div-mul n (2 ^ s) 2
    ∙ ap (λ t. n / t) (mul_comm (2 ^ s) 2)
    ∙ sym (div-div-eq-div-mul n 2 (2 ^ s))

or_shift-half : (s n : ℕ) → or_shift s n / 2 ≡ or_shift s (n / 2)
unfolding or_shift
or_shift-half s n = bit_or-half n (n / 2 ^ s) ∙ ap (bit_or (n / 2)) (halve-shift n s)

-- Halving goes under `fillBits`.
pub fill_bits-half : (n : ℕ) → fill_bits n / 2 ≡ fill_bits (n / 2)
unfolding fill_bits
fill_bits-half n = rw (
  or_shift-half 32,
  or_shift-half 16,
  or_shift-half 8,
  or_shift-half 4,
  or_shift-half 2,
  or_shift-half 1,
)

shift-add : (n a b : ℕ) → n / 2 ^ a / 2 ^ b ≡ n / 2 ^ (a + b)
shift-add n zero b = ap (λ t. t / 2 ^ b) (shift-zero n) ∙ ap (λ t. n / 2 ^ t) (omega arith)
shift-add n (suc a) b =
    ap (λ t. t / 2 ^ b) (shift-suc n a)
    ∙ shift-add (n / 2) a b
    ∙ sym (shift-suc n (a + b))
    ∙ ap (λ t. n / 2 ^ t) (omega arith)

-- A digit that is clear after `n |= n >> s` was clear before, and so was the one `s` above it.
or_shift-clear : (s j n : ℕ) → digit j (or_shift s n) ≡ 0 → (digit j n ≡ 0) × (digit (s + j) n ≡ 0)
unfolding or_shift
or_shift-clear s j n h = omega (
  arith,
  ap (λ t. t % 2) (bit_or-shift j n (n / 2 ^ s)),
  bit_or-parity (n / 2 ^ j) (n / 2 ^ s / 2 ^ j),
  ap (λ t. t % 2) (shift-add n s j),
)

-- So where every place that `2 * s` divides is clear, below `2 * c` of them, every place that `s`
-- divides was.
or_shift-sparse :
    (s c n : ℕ)
    → ((i : ℕ) → i < c → digit (i * (s + s)) (or_shift s n) ≡ 0)
    → (i : ℕ) → i < c + c
    → digit (i * s) n ≡ 0
or_shift-sparse s c n h i b = pick (parity i)
  where
    below : (digit (i / 2 * (s + s)) n ≡ 0) × (digit (s + i / 2 * (s + s)) n ≡ 0)
    below = or_shift-clear s (i / 2 * (s + s)) n (h (i / 2) (omega arith))

    parity : (i : ℕ) → (i ≡ i / 2 + i / 2) ⊎ (i ≡ suc (i / 2 + i / 2))
    parity i = omega arith

    pick : (i ≡ i / 2 + i / 2) ⊎ (i ≡ suc (i / 2 + i / 2)) → digit (i * s) n ≡ 0
    pick (inl e) = ap (λ t. digit t n) (omega (arith, ap (λ (t : ℕ). t * s) e)) ∙ below.0
    pick (inr e) = ap (λ t. digit t n) (omega (arith, ap (λ (t : ℕ). t * s) e)) ∙ below.1

clear_eq_zero : (k n : ℕ) → n < 2 ^ k → ((j : ℕ) → j < k → digit j n ≡ 0) → n ≡ 0
clear_eq_zero zero n b h = omega arith
clear_eq_zero (suc k) n b h =
    let upper : n / 2 ≡ 0 =
      clear_eq_zero k (n / 2) (omega (arith, pow-succ' 2 k))
        (λ j p. ap (λ t. t % 2) (sym (shift-suc n j)) ∙ h (suc j) (omega arith)) in
    omega (arith, upper, h 0 (omega arith), ap (λ t. t % 2) (shift-zero n))

-- The lowest digit of `fillBits n` is clear only if all 64 digits of `n` are.
fill_bits-clear : (n : ℕ) → fill_bits n % 2 ≡ 0 → (j : ℕ) → j < 64 → digit (j * 1) n ≡ 0
unfolding fill_bits
fill_bits-clear n even = or_shift-sparse 1 32 _ (
    or_shift-sparse 2 16 _ (
      or_shift-sparse 4 8 _ (
        or_shift-sparse 8 4 _
          (or_shift-sparse 16 2 _ (or_shift-sparse 32 1 _ (λ i p. first i p))))))
  where
    first : (i : ℕ) → i < 1 → digit (i * 64) (fill_bits n) ≡ 0
    first i p =
        ap (λ t. digit t (fill_bits n)) {y = 0} (omega arith)
        ∙ ap (λ t. t % 2) (shift-zero (fill_bits n))
        ∙ even

pub fill_bits-odd : (n : ℕ) → n ≢ 0 → n < 2 ^ 64 → fill_bits n % 2 ≡ 1
fill_bits-odd n ne b = elim (ℕ_discrete (fill_bits n % 2) 0) [
  | yes even ↦ absurd (
      ne (
        clear_eq_zero 64 n b
          (λ j p. ap (λ t. digit t n) (omega arith) ∙ fill_bits-clear n even j p)))
  | no odd ↦ omega arith
]

pub fill_bits-zero : fill_bits 0 ≡ 0
unfolding fill_bits or_shift
fill_bits-zero = refl
