-- ===== src/BufferPool/Index.antt =====
-- pkg/ringbuffer/pool.go: `index`, the bucket of a capacity.
use native.Mathlib.Nat.{pow-succ', one-le-pow, pow-le-pow_right}
use limnet.Base.{ℕ, zero, suc, ◌+◌, ◌-◌, ◌*◌, ◌/◌, ◌^◌, ◌≤◌, ◌<◌, ◌≡◌, ap, ◌∙◌, Option, none}
use limnet.Base.{some, ltb, leb, if◌then◌else◌, ◌>>=◌, arith}
use limnet.Base.{lt→ltb, le→leb, lt→not-leb}
use native.Mathlib.Decide.{dec_le}

abbrev pub steps : ℕ
steps = 20

-- `1 << minBitSize`
abbrev pub min_size : ℕ
min_size = 64

-- `for n > 0 { n >>= 1; idx++ }`, with fuel; `none` means that it ran out.
unfoldable pub count_bits : ℕ → ℕ → ℕ → Option ℕ
count_bits zero n idx = none
count_bits (suc f) n idx =
    let rest = count_bits f (n / 2) (idx + 1) in if ltb 0 n then rest else some idx

-- For `n = 0` Go's `n` is -1 after the decrement and the shift, and 0 here: the loop runs at neither.
-- An int has 63 bits below the sign.
unfoldable pub index : ℕ → Option ℕ
index n = do
  idx ← count_bits 64 ((n - 1) / 2 ^ 6) 0
  some (if leb steps idx then steps - 1 else idx)

-- `k` is the number of binary digits of `n`.
record IsBitCount (n k : ℕ) : Type 0 where
  above : n < 2 ^ k
  below : 0 < k → 2 ^ (k - 1) ≤ n

-- What the loop returns, begun at `from`.
Counts : ℕ → ℕ → Option ℕ → Type 0
Counts n from o = (k : ℕ) × (o ≡ some (from + k)) × IsBitCount n k

no_bits : (f from : ℕ) → Counts 0 from (count_bits (suc f) 0 from)
unfolding Counts count_bits
no_bits f from =
    (0, ap some (omega arith), record { above = omega arith; below = λ h. absurd (omega arith) })

IsBitCount-suc : (n k : ℕ) → 0 < n → IsBitCount (n / 2) k → IsBitCount n (suc k)
IsBitCount-suc n zero pos b = record { above = omega (arith, b.above); below = λ _. omega arith }
IsBitCount-suc n (suc k) pos b = record {
  above = omega (arith, b.above, pow-succ' 2 (suc k));
  below = λ _. omega (
    arith,
    b.below (omega arith),
    pow-succ' 2 k,
    ap (λ (t : ℕ). 2 ^ t) {x = suc k - 1} {y = k} (omega arith),
    ap (λ (t : ℕ). 2 ^ t) {x = suc (suc k) - 1} {y = suc k} (omega arith),
  );
}

count_bits-Counts : (f n from : ℕ) → n < 2 ^ f → Counts n from (count_bits (suc f) n from)
unfolding Counts count_bits
count_bits-Counts f zero from h = no_bits f from
count_bits-Counts zero (suc n) from h = absurd (omega arith)
count_bits-Counts (suc f) (suc n) from h =
    let (k, e, b) = count_bits-Counts f (suc n / 2) (from + 1) (omega (arith, pow-succ' 2 f)) in
    (
      suc k,
      rw (lt→ltb 0 (suc n) (omega arith)) (e ∙ ap some (omega arith)),
      IsBitCount-suc (suc n) k (omega arith) b,
    )

-- The bucket of a capacity of less than `1 << 63` bytes: below 20, and, but for the last, the least
-- `idx` for which `64 << idx` bytes are enough.
pub record IsBucket (n idx : ℕ) : Type 0 where
  pub in_range : idx < steps
  pub enough : idx + 1 < steps → n ≤ min_size * 2 ^ idx
  pub least : 0 < idx → min_size * 2 ^ (idx - 1) < n

clamp-IsBucket :
    (n k : ℕ) → IsBitCount ((n - 1) / 2 ^ 6) k → IsBucket n (if leb steps k then steps - 1 else k)
clamp-IsBucket n k b = elim (dec_le steps k) [
  | yes p ↦ rw (le→leb steps k p) (record {
    in_range = omega arith;
    enough = λ h. absurd (omega arith);
    least = λ _. omega (
      arith,
      b.below (omega arith),
      pow-le-pow_right {n = 2} (omega arith) {i = 18} {j = k - 1} (omega arith),
    );
  })
  | no p ↦ rw (lt→not-leb steps k (omega arith)) (record {
    in_range = omega arith;
    enough = λ h. omega (arith, b.above);
    least = λ h. omega (arith, b.below h, one-le-pow (k - 1) 2 (omega arith));
  })
]

-- `index` terminates within its fuel for every capacity below `1 << 63`, and gives its bucket.
pub index-IsBucket : (n : ℕ) → n < 2 ^ 63 → (idx : ℕ) × (index n ≡ some idx) × IsBucket n idx
unfolding index Counts
index-IsBucket n h =
    let (k, e, b) = count_bits-Counts 63 ((n - 1) / 2 ^ 6) 0 (omega arith) in
    (
      (if leb steps k then steps - 1 else k),
      rw e
          (ap (λ t. some (if leb steps t then steps - 1 else t)) {x = 0 + k} {y = k} (omega arith)),
      clamp-IsBucket n k b,
    )
