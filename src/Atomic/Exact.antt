-- ===== src/Atomic/Exact.antt =====
-- Where the words wrap round, and where they are exact.
use limnet.Base.{
  ℕ, ◌+◌, ◌-◌, ◌*◌, ◌/◌, ◌%◌, ◌^◌, ◌<◌, ◌≡◌, refl, ap, suc, List, [], ◌∷◌, arith, lt→ltb,
  le→not-ltb,
}
use limnet.Base.Int.{ℤ, pos, negsuc}
use limnet.Atomic.{Width, int32, int64, half, modulus, to_word, of_word, add, swap, get, add_all}

-- the sum of those that are not negative, and that of the others without their signs
pub ups : List ℤ → ℕ
ups [] = 0
ups (pos n ∷ is) = n + ups is
ups (negsuc n ∷ is) = ups is

pub downs : List ℤ → ℕ
downs [] = 0
downs (pos n ∷ is) = downs is
downs (negsuc n ∷ is) = suc n + downs is

-- The word differs from the sum by a multiple of the modulus.
abbrev Tracks : Width → ℕ → ℕ → ℕ → Type 0
Tracks width v up down =
    (v < modulus width) × (a b : ℕ) × (v + down + a * modulus width ≡ up + b * modulus width)

add-Tracks :
    (width : Width) (i : ℤ) (v up down : ℕ)
    → Tracks width v up down
    → Tracks width (add width i v) (up + ups (i ∷ [])) (down + downs (i ∷ []))
unfolding add ups downs
add-Tracks int32 (pos n) v up down (lt, a, b, e) =
    (omega arith, a + (v + n % 2 ^ 32) / 2 ^ 32 + n / 2 ^ 32, b, omega arith)
add-Tracks int32 (negsuc n) v up down (lt, a, b, e) =
    (omega arith, a + (v + (2 ^ 32 - 1 - n % 2 ^ 32)) / 2 ^ 32, b + 1 + n / 2 ^ 32, omega arith)
add-Tracks int64 (pos n) v up down (lt, a, b, e) =
    (omega arith, a + (v + n % 2 ^ 64) / 2 ^ 64 + n / 2 ^ 64, b, omega arith)
add-Tracks int64 (negsuc n) v up down (lt, a, b, e) =
    (omega arith, a + (v + (2 ^ 64 - 1 - n % 2 ^ 64)) / 2 ^ 64, b + 1 + n / 2 ^ 64, omega arith)

start : (width : Width) → Tracks width 0 0 0
start int32 = (omega arith, 0, 0, refl)
start int64 = (omega arith, 0, 0, refl)

ups-head : (i : ℤ) (is : List ℤ) → ups (i ∷ is) ≡ ups (i ∷ []) + ups is
unfolding ups
ups-head (pos n) is = omega arith
ups-head (negsuc n) is = omega arith

downs-head : (i : ℤ) (is : List ℤ) → downs (i ∷ is) ≡ downs (i ∷ []) + downs is
unfolding downs
downs-head (pos n) is = omega arith
downs-head (negsuc n) is = omega arith

add_all-Tracks :
    (width : Width) (is : List ℤ) (v up down : ℕ)
    → Tracks width v up down
    → Tracks width (add_all width is v) (up + ups is) (down + downs is)
unfolding add_all ups downs
add_all-Tracks width [] v up down (lt, a, b, e) = (lt, a, b, omega arith)
add_all-Tracks width (i ∷ is) v up down h =
    let (lt, a, b, e) =
      add_all-Tracks width is (add width i v) (up + ups (i ∷ [])) (down + downs (i ∷ []))
        (add-Tracks width i v up down h) in
    (lt, a, b, omega (arith, ups-head i is, downs-head i is))

from_zero : (width : Width) (is : List ℤ) → Tracks width (add_all width is 0) (ups is) (downs is)
from_zero width is =
    let (lt, a, b, e) = add_all-Tracks width is 0 0 0 (start width) in (lt, a, b, omega arith)

-- A word that tracks a sum in range is that sum.
Tracks-exact :
    (width : Width) (v up down d : ℕ)
    → Tracks width v up down
    → d < half width
    → (up ≡ down + d → of_word width v ≡ pos d) × (down ≡ up + suc d → of_word width v ≡ negsuc d)
Tracks-exact int32 v up down d (lt, a, b, e) small = (
  λ s. let same : v ≡ d = omega arith in rw (same, lt→ltb d (2 ^ 31) small) refl,
  λ s.
      let same : v ≡ 2 ^ 32 - 1 - d = omega arith in
      rw (same, le→not-ltb (2 ^ 32 - 1 - d) (2 ^ 31) (omega arith)) (ap negsuc (omega arith)),
)
Tracks-exact int64 v up down d (lt, a, b, e) small = (
  λ s. let same : v ≡ d = omega arith in rw (same, lt→ltb d (2 ^ 63) small) refl,
  λ s.
      let same : v ≡ 2 ^ 64 - 1 - d = omega arith in
      rw (same, le→not-ltb (2 ^ 64 - 1 - d) (2 ^ 63) (omega arith)) (ap negsuc (omega arith)),
)

of_word-to_word :
    (width : Width) (n : ℕ)
    → n < half width
    → (of_word width (to_word width (pos n)) ≡ pos n)
      × (of_word width (to_word width (negsuc n)) ≡ negsuc n)
of_word-to_word int32 n h = (
  (let e : n % 2 ^ 32 ≡ n = omega arith in rw (e, lt→ltb n (2 ^ 31) h) refl),
  (let e : 2 ^ 32 - 1 - n % 2 ^ 32 ≡ 2 ^ 32 - 1 - n = omega arith in
      rw (e, le→not-ltb (2 ^ 32 - 1 - n) (2 ^ 31) (omega arith)) (ap negsuc (omega arith))),
)
of_word-to_word int64 n h = (
  (let e : n % 2 ^ 64 ≡ n = omega arith in rw (e, lt→ltb n (2 ^ 63) h) refl),
  (let e : 2 ^ 64 - 1 - n % 2 ^ 64 ≡ 2 ^ 64 - 1 - n = omega arith in
      rw (e, le→not-ltb (2 ^ 64 - 1 - n) (2 ^ 63) (omega arith)) (ap negsuc (omega arith))),
)

-- From 0, `Add` of any numbers in turn, and then `Get`: where their sum lies within the signed range
-- of the width, `Get` gives it, however often the word has wrapped round on the way; and a `Swap`
-- in place of `Get` returns the same, and leaves the number that it is given, if that lies in range.
pub add_all-exact :
    (width : Width) (is : List ℤ) (d n : ℕ)
    → d < half width
    → n < half width
    → (ups is ≡ downs is + d → get width (add_all width is 0) ≡ pos d)
      × (downs is ≡ ups is + suc d → get width (add_all width is 0) ≡ negsuc d)
      × ((swap width (pos n) (add_all width is 0)).0 ≡ get width (add_all width is 0))
      × (get width (swap width (pos n) (add_all width is 0)).1 ≡ pos n)
      × (get width (swap width (negsuc n) (add_all width is 0)).1 ≡ negsuc n)
unfolding get swap
add_all-exact width is d n small fits =
    let (up, down) =
      Tracks-exact width (add_all width is 0) (ups is) (downs is) d (from_zero width is) small in
    let (same, neg) = of_word-to_word width n fits in (up, down, refl, same, neg)
