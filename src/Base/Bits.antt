-- ===== src/Base/Bits.antt =====
-- The laws of Go's `|`, `&` and `>>` on non-negative ints that the ring buffer's sizes rest on.
use Prim.Native.Nat.{bit_or, bit_and, digits, bitwise, bit_or-bitwise, bit_and-bitwise}
use Prim.Native.Nat.{ℕ, zero, suc, ◌+◌, ◌-◌, ◌*◌, ◌/◌, ◌%◌, ◌^◌, ◌≤◌, ◌<◌, min, max}
use mathlib.Core.Path.{◌≡◌, refl, ap, ◌∙◌, sym}
use native.Mathlib.Nat.{div-div-eq-div-mul, pow-succ', one-le-pow}
use native.Mathlib.Nat.{mod-one, div-add-mod, mod-lt, mod-eq_of_lt, mul-add-mod_self_left}
use native.Mathlib.Omega.{arith}

-- The digit recursion with its fuel taken away: an operation is determined by the lowest digits
-- and its value at the halves.
module _ (base : ℕ → ℕ) (op : ℕ → ℕ → ℕ) where
  more_fuel : (f g x y : ℕ) → x ≤ f → x ≤ g → digits base op f x y ≡ digits base op g x y
  more_fuel f g zero y p q = at_zero f g
    where
      at_zero : (f g : ℕ) → digits base op f zero y ≡ digits base op g zero y
      at_zero zero zero = refl
      at_zero zero (suc g) = refl
      at_zero (suc f) zero = refl
      at_zero (suc f) (suc g) = refl
  more_fuel zero g (suc x) y p q = absurd (omega arith)
  more_fuel (suc f) zero (suc x) y p q = absurd (omega arith)
  more_fuel (suc f) (suc g) (suc x) y p q =
      ap (λ t. t * 2 + op (suc x % 2) (y % 2))
        (more_fuel f g (suc x / 2) (y / 2) (omega arith) (omega arith))

  halves :
      (x y : ℕ)
      → bitwise base op (suc x) y ≡ bitwise base op (suc x / 2) (y / 2) * 2 + op (suc x % 2) (y % 2)
  halves x y =
      ap (λ t. t * 2 + op (suc x % 2) (y % 2))
        (more_fuel x (suc x / 2) (suc x / 2) (y / 2) (omega arith) (omega arith))

pub bit_or_digit : (x y : ℕ) → bit_or x y ≡ bit_or (x / 2) (y / 2) * 2 + max (x % 2) (y % 2)
bit_or_digit zero y = omega (arith, bit_or-bitwise 0 y, bit_or-bitwise 0 (y / 2))
bit_or_digit (suc x) y =
    bit_or-bitwise (suc x) y
    ∙ halves (λ b. b) max x y
    ∙ ap (λ t. t * 2 + max (suc x % 2) (y % 2)) (sym (bit_or-bitwise (suc x / 2) (y / 2)))

pub bit_and_digit : (x y : ℕ) → bit_and x y ≡ bit_and (x / 2) (y / 2) * 2 + min (x % 2) (y % 2)
bit_and_digit zero y = omega (arith, bit_and-bitwise 0 y, bit_and-bitwise 0 (y / 2))
bit_and_digit (suc x) y =
    bit_and-bitwise (suc x) y
    ∙ halves (λ b. 0) min x y
    ∙ ap (λ t. t * 2 + min (suc x % 2) (y % 2)) (sym (bit_and-bitwise (suc x / 2) (y / 2)))

pub bit_or-half : (x y : ℕ) → bit_or x y / 2 ≡ bit_or (x / 2) (y / 2)
bit_or-half x y = omega (arith, bit_or_digit x y)

pub bit_or-parity : (x y : ℕ) → bit_or x y % 2 ≡ max (x % 2) (y % 2)
bit_or-parity x y = omega (arith, bit_or_digit x y)

bit_and-half : (x y : ℕ) → bit_and x y / 2 ≡ bit_and (x / 2) (y / 2)
bit_and-half x y = omega (arith, bit_and_digit x y)

-- `x >> (k + 1)` is `(x >> 1) >> k`.
pub shift-suc : (x k : ℕ) → x / 2 ^ suc k ≡ x / 2 / 2 ^ k
shift-suc x k = ap (λ t. x / t) (pow-succ' 2 k) ∙ sym (div-div-eq-div-mul x 2 (2 ^ k))

pub shift-zero : (x : ℕ) → x / 2 ^ 0 ≡ x
shift-zero x = omega arith

-- A shift distributes over `|`.
pub bit_or-shift : (k x y : ℕ) → bit_or x y / 2 ^ k ≡ bit_or (x / 2 ^ k) (y / 2 ^ k)
bit_or-shift zero x y =
    omega (arith, ap (λ t. bit_or t (y / 2 ^ 0)) (shift-zero x), ap (bit_or x) (shift-zero y))
bit_or-shift (suc k) x y =
    rw (shift-suc (bit_or x y) k, shift-suc x k, shift-suc y k, bit_or-half)
      (bit_or-shift k (x / 2) (y / 2))

-- The remainder by twice a modulus, digit by digit.
mod-double : (x m : ℕ) → 0 < m → x % (2 * m) ≡ x / 2 % m * 2 + x % 2
mod-double x m h =
    ap (λ t. t % (2 * m)) split
    ∙ mul-add-mod_self_left (2 * m) (x / 2 / m) (x / 2 % m * 2 + x % 2)
    ∙ mod-eq_of_lt (omega (arith, mod-lt (x / 2) h))
  where
    split : x ≡ 2 * m * (x / 2 / m) + (x / 2 % m * 2 + x % 2)
    split = omega (arith, div-add-mod (x / 2) m)

none_set : (f x : ℕ) → x ≤ f → bit_and x 0 ≡ 0
none_set f zero h = bit_and-bitwise 0 0
none_set zero (suc x) h = absurd (omega arith)
none_set (suc f) (suc x) h =
    omega (arith, bit_and_digit (suc x) 0, none_set f (suc x / 2) (omega arith))

-- `x & (2^k - 1)` is `x % 2^k`.
pub bit_and-mask : (k x : ℕ) → bit_and x (2 ^ k - 1) ≡ x % 2 ^ k
bit_and-mask zero x = none_set x x (omega arith) ∙ sym (mod-one x)
bit_and-mask (suc k) x =
    let e : (2 ^ suc k - 1) / 2 ≡ 2 ^ k - 1 = omega (arith, pow-succ' 2 k) in
    omega (
      arith,
      bit_and_digit x (2 ^ suc k - 1),
      ap (bit_and (x / 2)) e,
      bit_and-mask k (x / 2),
      mod-double x (2 ^ k) (one-le-pow k 2 (omega arith)),
      ap (λ t. x % t) (pow-succ' 2 k),
      pow-succ' 2 k,
      one-le-pow k 2 (omega arith),
    )

-- A shift distributes over `&` too.
pub bit_and-shift : (k x y : ℕ) → bit_and x y / 2 ^ k ≡ bit_and (x / 2 ^ k) (y / 2 ^ k)
bit_and-shift zero x y =
    omega (arith, ap (λ t. bit_and t (y / 2 ^ 0)) (shift-zero x), ap (bit_and x) (shift-zero y))
bit_and-shift (suc k) x y =
    rw (shift-suc (bit_and x y) k, shift-suc x k, shift-suc y k, bit_and-half x y)
      (bit_and-shift k (x / 2) (y / 2))
