-- ===== src/Base/Slices.antt =====
-- The laws of `take`, `drop`, `slice` and `copy` that the ring buffer and the connections share.
use Prim.Native.Nat.{ℕ, zero, suc, ◌+◌, ◌-◌, ◌≤◌, ◌<◌, min}
use mathlib.Core.Path.{◌≡◌, refl, ap, ◌∙◌, sym}
use mathlib.Core.List.{List, [], ◌∷◌, ◌++◌}
use mathlib.Core.Option.{some}
use native.Mathlib.Omega.{arith}
use limnet.Base.Tests.{le→leb, lt→ltb, ltb, if◌then◌else◌}
use limnet.Base.Lists.{length, take, drop, copy, get_or, set, slice, copy_at, get_elem?, set_elem?}
use limnet.Base.Lists.{length-append, length-take, length-drop, length-copy}
use limnet.Base.Lists.{get_or-append, get_or-take, get_or-drop, get_or-copy}

module _ {ℓ} {A : Type ℓ} where
  pub slice_lem :
      (lo hi : ℕ) (xs : List A)
      → lo ≤ hi
      → hi ≤ length xs
      → slice lo hi xs ≡ some (take (hi - lo) (drop lo xs))
  unfolding slice
  slice_lem lo hi xs p q = rw (le→leb lo hi p, le→leb hi (length xs) q)

  pub copy_at_lem :
      (i : ℕ) (dst src : List A)
      → i ≤ length dst
      → copy_at i dst src ≡ some (take i dst ++ copy (drop i dst) src)
  unfolding copy_at
  copy_at_lem i dst src p = rw (le→leb i (length dst) p)

  pub get_elem?_lem :
      (xs : List A) (i : ℕ) (d : A) → i < length xs → get_elem? xs i d ≡ some (get_or xs i d)
  unfolding get_elem?
  get_elem?_lem xs i d p = rw (lt→ltb i (length xs) p)

  pub set_elem?_lem :
      (xs : List A) (i : ℕ) (v : A) → i < length xs → set_elem? xs i v ≡ some (set xs i v)
  unfolding set_elem?
  set_elem?_lem xs i v p = rw (lt→ltb i (length xs) p)

  pub take_of_length-le : (n : ℕ) (xs : List A) → length xs ≤ n → take n xs ≡ xs
  take_of_length-le zero [] h = refl
  take_of_length-le zero (x ∷ xs) h = absurd (omega arith)
  take_of_length-le (suc n) [] h = refl
  take_of_length-le (suc n) (x ∷ xs) h = ap (λ t. x ∷ t) (take_of_length-le n xs (omega arith))

  pub drop_of_length-le : (n : ℕ) (xs : List A) → length xs ≤ n → drop n xs ≡ []
  drop_of_length-le zero [] h = refl
  drop_of_length-le zero (x ∷ xs) h = absurd (omega arith)
  drop_of_length-le (suc n) [] h = refl
  drop_of_length-le (suc n) (x ∷ xs) h = drop_of_length-le n xs (omega arith)

  pub slice-to_end :
      (m : ℕ) (xs : List A) → m ≤ length xs → slice m (length xs) xs ≡ some (drop m xs)
  slice-to_end m xs p =
      slice_lem m (length xs) xs p (omega arith)
      ∙ ap some (take_of_length-le (length xs - m) (drop m xs) (omega (arith, length-drop m xs)))

  take-nil : (n : ℕ) → take {A = A} n [] ≡ []
  take-nil zero = refl
  take-nil (suc n) = refl

  drop-nil : (n : ℕ) → drop {A = A} n [] ≡ []
  drop-nil zero = refl
  drop-nil (suc n) = refl

  pub take-append :
      (n : ℕ) (xs ys : List A) → take n (xs ++ ys) ≡ take n xs ++ take (n - length xs) ys
  take-append n [] ys =
      ap (λ t. take t ys) (omega arith) ∙ ap (λ t. t ++ take (n - 0) ys) (sym (take-nil n))
  take-append zero (x ∷ xs) ys = ap (λ t. take t ys) {x = 0} (omega arith)
  take-append (suc n) (x ∷ xs) ys =
      ap (λ t. x ∷ t) (take-append n xs ys ∙ ap (λ t. take n xs ++ take t ys) (omega arith))

  pub drop-append :
      (n : ℕ) (xs ys : List A) → drop n (xs ++ ys) ≡ drop n xs ++ drop (n - length xs) ys
  drop-append n [] ys =
      ap (λ t. drop t ys) (omega arith) ∙ ap (λ t. t ++ drop (n - 0) ys) (sym (drop-nil n))
  drop-append zero (x ∷ xs) ys = ap (λ t. (x ∷ xs) ++ drop t ys) {x = 0} (omega arith)
  drop-append (suc n) (x ∷ xs) ys =
      drop-append n xs ys ∙ ap (λ t. drop n xs ++ drop t ys) (omega arith)

  pub take-take : (m n : ℕ) (xs : List A) → take m (take n xs) ≡ take (min m n) xs
  take-take zero n xs = ap (λ t. take t xs) {x = 0} (omega arith)
  take-take (suc m) zero xs = ap (λ t. take t xs) {x = 0} (omega arith)
  take-take (suc m) (suc n) [] = ap (λ t. take t []) {x = suc (min m n)} (omega arith)
  take-take (suc m) (suc n) (x ∷ xs) =
      ap (λ t. x ∷ t) (take-take m n xs)
      ∙ ap (λ t. take t (x ∷ xs)) {x = suc (min m n)} (omega arith)

  pub drop-take : (m n : ℕ) (xs : List A) → drop m (take n xs) ≡ take (n - m) (drop m xs)
  drop-take zero n xs = ap (λ t. take t xs) (omega arith)
  drop-take (suc m) zero xs = ap (λ t. take t (drop (suc m) xs)) {x = 0} (omega arith)
  drop-take (suc m) (suc n) [] = sym (take-nil (suc n - suc m))
  drop-take (suc m) (suc n) (x ∷ xs) = drop-take m n xs ∙ ap (λ t. take t (drop m xs)) (omega arith)

  pub drop-drop : (m n : ℕ) (xs : List A) → drop m (drop n xs) ≡ drop (n + m) xs
  drop-drop m zero xs = ap (λ t. drop t xs) (omega arith)
  drop-drop zero (suc n) [] = sym (drop-nil (suc n + 0))
  drop-drop (suc m) (suc n) [] = sym (drop-nil (suc n + suc m))
  drop-drop m (suc n) (x ∷ xs) =
      drop-drop m n xs ∙ ap (λ t. drop t (x ∷ xs)) {x = suc (n + m)} (omega arith)

  pub take-append-drop : (n : ℕ) (xs : List A) → take n xs ++ drop n xs ≡ xs
  take-append-drop zero xs = refl
  take-append-drop (suc n) [] = refl
  take-append-drop (suc n) (x ∷ xs) = ap (λ t. x ∷ t) (take-append-drop n xs)

  -- Copying a run and then the next one behind it copies the two at once.
  pub copy-append :
      (dst src more : List A)
      → length src ≤ length dst
      → take (length src) (copy dst src) ++ copy (drop (length src) (copy dst src)) more
        ≡ copy dst (src ++ more)
  copy-append [] [] more h = refl
  copy-append [] (s ∷ src) more h = absurd (omega arith)
  copy-append (d ∷ dst) [] more h = refl
  copy-append (d ∷ dst) (s ∷ src) more h = ap (λ t. s ∷ t) (copy-append dst src more (omega arith))

  -- `copy` reads no further than its destination is long.
  pub copy-take : (dst src : List A) → copy dst (take (length dst) src) ≡ copy dst src
  copy-take [] src = refl
  copy-take (d ∷ dst) [] = refl
  copy-take (d ∷ dst) (s ∷ src) = ap (λ t. s ∷ t) (copy-take dst src)

  pub copy-nil : (dst : List A) → copy dst [] ≡ dst
  copy-nil [] = refl
  copy-nil (d ∷ dst) = refl

  pub take-copy :
      (dst src : List A) → length src ≤ length dst → take (length src) (copy dst src) ≡ src
  take-copy [] [] h = refl
  take-copy [] (s ∷ src) h = absurd (omega arith)
  take-copy (d ∷ dst) [] h = refl
  take-copy (d ∷ dst) (s ∷ src) h = ap (λ t. s ∷ t) (take-copy dst src (omega arith))

  pub head-drop_one : (xs : List A) (d : A) → 0 < length xs → xs ≡ get_or xs 0 d ∷ drop 1 xs
  head-drop_one [] d h = absurd (omega arith)
  head-drop_one (x ∷ xs) d h = refl

  pub length-copy_at :
      (i : ℕ) (dst src : List A)
      → i ≤ length dst
      → length (take i dst ++ copy (drop i dst) src) ≡ length dst
  length-copy_at i dst src h = omega (
    arith,
    length-append (take i dst) (copy (drop i dst) src),
    length-take i dst,
    length-copy (drop i dst) src,
    length-drop i dst,
  )

  -- Copying one element in is a write.
  pub copy_at-set :
      (i : ℕ) (dst : List A) (c : A)
      → i < length dst
      → take i dst ++ copy (drop i dst) (c ∷ []) ≡ set dst i c
  copy_at-set i [] c h = absurd (omega arith)
  copy_at-set zero (x ∷ xs) c h = ap (λ t. c ∷ t) (copy-nil xs)
  copy_at-set (suc i) (x ∷ xs) c h = ap (λ t. x ∷ t) (copy_at-set i xs c (omega arith))

module _ (d : ℕ) where
  pub get_or-copy_at :
      (i : ℕ) (dst src : List ℕ) (j : ℕ)
      → i ≤ length dst
      → j < length dst
      → get_or (take i dst ++ copy (drop i dst) src) j d ≡ (
          if ltb j i
          then get_or dst j d
          else if ltb (j - i) (length src)
          then get_or src (j - i) d
          else get_or dst j d)
  get_or-copy_at i dst src j h k = ground (
    arith,
    get_or-append d (take i dst) (copy (drop i dst) src) j,
    length-take i dst,
    get_or-take d i dst j,
    get_or-copy d (drop i dst) src (j - i),
    length-drop i dst,
    get_or-drop d i dst (j - i),
  )
