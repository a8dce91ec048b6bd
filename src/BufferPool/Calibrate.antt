-- ===== src/BufferPool/Calibrate.antt =====
-- pkg/ringbuffer/pool.go: what `calibrate` derives from the calls of the twenty buckets.
use limnet.Base.{ℕ, ◌+◌, ◌*◌, ◌%◌, ◌^◌, ◌≤◌, List, [], ◌∷◌, ltb, if◌then◌else◌}
use limnet.Base.{Option, none, some, All, ◌>>=◌}
use mathlib.Core.List.{Perm}
use limnet.BufferPool.Index.{min_size}

pub record CallSize : Type 0 where
  pub calls : ℕ
  pub size : ℕ

-- Most calls first: the order of `callSizes.Less`.
abbrev pub IsDescending : List CallSize → Type 0
IsDescending [] = Unit {0}
IsDescending (a ∷ l) = All (λ c. c.calls ≤ a.calls) l × IsDescending l

-- What the code relies on of package sort and of float64: `sort` reorders, most calls first, and
-- `percentile n` is `uint64(float64(n) * maxPercentile)`.
pub record Numeric : Type 0 where
  pub sort : List CallSize → List CallSize
  pub percentile : ℕ → ℕ
  pub sort-perm : (l : List CallSize) → Perm (sort l) l
  pub sort-IsDescending : (l : List CallSize) → IsDescending (sort l)

-- the first loop's `a`: the calls of bucket `i` with `minSize << i`
unfoldable pub tallies : ℕ → List ℕ → List CallSize
tallies i [] = []
tallies i (c ∷ cs) = record { calls = c; size = min_size * 2 ^ i } ∷ tallies (i + 1) cs

-- the first loop's `callsSum`, a uint64
unfoldable pub calls_sum : ℕ → List ℕ → ℕ
calls_sum sum [] = sum
calls_sum sum (c ∷ cs) = calls_sum ((sum + c) % 2 ^ 64) cs

-- the second loop: `sum` is `callsSum` and `size` is `maxSize`
unfoldable pub cover : ℕ → List CallSize → ℕ → ℕ → ℕ
cover max_sum [] sum size = size
cover max_sum (a ∷ l) sum size =
    let rest =
      cover max_sum l ((sum + a.calls) % 2 ^ 64) (if ltb size a.size then a.size else size) in
    if ltb max_sum sum then size else rest

pub record Derived : Type 0 where
  pub default_size : ℕ
  pub max_size : ℕ

-- `a[0]`
abbrev pub first : List CallSize → Option CallSize
first [] = none
first (a ∷ l) = some a

unfoldable pub derive : Numeric → List ℕ → Option Derived
derive num calls = do
  let a = num.sort (tallies 0 calls)
  top ← first a
  some (record {
    default_size = top.size;
    max_size = cover (num.percentile (calls_sum 0 calls)) a 0 top.size;
  })
