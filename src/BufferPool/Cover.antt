-- ===== src/BufferPool/Cover.antt =====
-- The two sizes that `calibrate` derives: the size most asked for, and one under which nearly all
-- calls lie.
use native.Mathlib.Nat.{ℕ_set}
use native.Mathlib.Bridge.{le_prop}
use native.Mathlib.Decide.{dec_lt}
use mathlib.Core.Logic.{∥∥₁_elim}
use mathlib.Core.List.{Perm, Permᴰ, Mem, mem-cons_self}
use mathlib.Core.List.Perm
use mathlib.Core.HLevel.{×_prop}
use native.Mathlib.Nat.{pow-le-pow_right}
use limnet.Base.{
  ℕ, ◌+◌, ◌*◌, ◌%◌, ◌^◌, ◌≤◌, ◌<◌, ◌≡◌, refl, sym, ap, subst, ◌∙◌, List, [], ◌∷◌, ◌++◌, ltb, leb,
  if◌then◌else◌, ◌⊎◌, inl, inr, Option, some, All, ◌>>=◌, arith, length, lt→ltb, le→not-ltb,
}
use limnet.BufferPool.Index.{steps, min_size}
use limnet.BufferPool.Calibrate.{
  CallSize, IsDescending, Numeric, tallies, calls_sum, cover, Derived, first, derive,
}

-- all calls, and those of the sizes up to `size`
abbrev pub total : List CallSize → ℕ
total [] = 0
total (a ∷ l) = a.calls + total l

abbrev pub within : ℕ → List CallSize → ℕ
within size [] = 0
within size (a ∷ l) = (if leb a.size size then a.calls else 0) + within size l

abbrev pub sum : List ℕ → ℕ
sum [] = 0
sum (c ∷ cs) = c + sum cs

abbrev weigh : (CallSize → ℕ) → List CallSize → ℕ
weigh f [] = 0
weigh f (a ∷ l) = f a + weigh f l

weigh-Permᴰ : (f : CallSize → ℕ) {l m : List CallSize} → Permᴰ l m → weigh f l ≡ weigh f m
weigh-Permᴰ f Permᴰ.nil = refl
weigh-Permᴰ f (Permᴰ.cons e p) = omega (arith, weigh-Permᴰ f p, ap f e)
weigh-Permᴰ f (Permᴰ.swap e g) = omega (arith, ap f e, ap f g)
weigh-Permᴰ f (Permᴰ.trans p q) = weigh-Permᴰ f p ∙ weigh-Permᴰ f q

weigh-perm : (f : CallSize → ℕ) (l m : List CallSize) → Perm l m → weigh f l ≡ weigh f m
weigh-perm f l m p = ∥∥₁_elim p (ℕ_set _ _) (weigh-Permᴰ f)

total-weigh : (l : List CallSize) → total l ≡ weigh (λ a. a.calls) l
total-weigh [] = refl
total-weigh (a ∷ l) = ap (λ t. a.calls + t) (total-weigh l)

within-weigh :
    (s : ℕ) (l : List CallSize) → within s l ≡ weigh (λ a. if leb a.size s then a.calls else 0) l
within-weigh s [] = refl
within-weigh s (a ∷ l) = ap (λ t. (if leb a.size s then a.calls else 0) + t) (within-weigh s l)

total-tallies : (i : ℕ) (cs : List ℕ) → total (tallies i cs) ≡ sum cs
unfolding tallies
total-tallies i [] = refl
total-tallies i (c ∷ cs) = ap (λ t. c + t) (total-tallies (i + 1) cs)

calls_sum-sum :
    (from : ℕ) (cs : List ℕ) → from + sum cs < 2 ^ 64 → calls_sum from cs ≡ from + sum cs
unfolding calls_sum
calls_sum-sum from [] h = omega arith
calls_sum-sum from (c ∷ cs) h =
    ap (λ t. calls_sum t cs) {y = from + c} (omega arith)
    ∙ calls_sum-sum (from + c) cs (omega arith)
    ∙ omega arith

-- the largest of `size` and the sizes of the buckets
abbrev pub largest : ℕ → List CallSize → ℕ
largest size [] = size
largest size (a ∷ l) = largest (if ltb size a.size then a.size else size) l

-- Where `sum` calls have been counted, no more than `max_sum` have been when each of the buckets comes.
abbrev pub Needed : ℕ → ℕ → List CallSize → Type 0
Needed max_sum sum [] = Unit
Needed max_sum sum (a ∷ l) = (sum ≤ max_sum) × Needed max_sum (sum + a.calls) l

-- What the second loop gives, begun with `sum` calls and the size `size`: it goes on until more than
-- `max_sum` calls are seen, or all are, and no longer.
record Covers (max_sum : ℕ) (l : List CallSize) (sum size out : ℕ) : Type 0 where
  grows : size ≤ out
  enough : (max_sum < sum + within out l) ⊎ (within out l ≡ total l)
  seen : List CallSize
  unseen : List CallSize
  split : l ≡ seen ++ unseen
  size_lem : out ≡ largest size seen
  needed : Needed max_sum sum seen
  done : (max_sum < sum + total seen) ⊎ (unseen ≡ [])

cover-Covers :
    (max_sum : ℕ) (l : List CallSize) (sum size : ℕ)
    → sum + total l < 2 ^ 64
    → Covers max_sum l sum size (cover max_sum l sum size)
unfolding cover
cover-Covers max_sum [] sum size h = record {
  grows = omega arith;
  enough = inr refl;
  seen = [];
  unseen = [];
  split = refl;
  size_lem = refl;
  needed = tt;
  done = inr refl;
}
cover-Covers max_sum (a ∷ l) sum size h = elim (dec_lt max_sum sum) [
  | yes p ↦ rw (lt→ltb max_sum sum p) (record {
    grows = omega arith;
    enough = inl (omega arith);
    seen = [];
    unseen = a ∷ l;
    split = refl;
    size_lem = refl;
    needed = tt;
    done = inl (omega arith);
  })
  | no p ↦
      let size' : ℕ = if ltb size a.size then a.size else size in
      let ih : Covers max_sum l ((sum + a.calls) % 2 ^ 64) size'
          (cover max_sum l ((sum + a.calls) % 2 ^ 64) size') =
        cover-Covers max_sum l ((sum + a.calls) % 2 ^ 64) size' (omega arith) in
      rw (le→not-ltb max_sum sum (omega arith)) (record {
        grows = ground (arith, ih.grows);
        enough = ground (arith, ih.grows, ih.enough);
        seen = a ∷ ih.seen;
        unseen = ih.unseen;
        split = ap (λ t. a ∷ t) ih.split;
        size_lem = ih.size_lem;
        needed = (
          omega arith,
          subst (λ t. Needed max_sum t ih.seen) {y = sum + a.calls} (omega arith) ih.needed,
        );
        done = ground (arith, ih.done);
      })
]

-- The loop ends at the size of a bucket, or where it began.
cover-bound :
    (most max_sum : ℕ) (l : List CallSize) (sum size : ℕ)
    → All (λ (c : CallSize). c.size ≤ most) l
    → size ≤ most
    → cover max_sum l sum size ≤ most
unfolding cover
cover-bound most max_sum [] sum size all h = h
cover-bound most max_sum (a ∷ l) sum size all h = ground (
  arith,
  cover-bound most max_sum l ((sum + a.calls) % 2 ^ 64) (if ltb size a.size then a.size else size)
      all.1,
)

abbrev Below : (CallSize → ℕ) → ℕ → List CallSize → Type 0
Below f k l = All (λ (c : CallSize). f c ≤ k) l

Below-prop : (f : CallSize → ℕ) (k : ℕ) (l : List CallSize) → IsProp (Below f k l)
Below-prop f k [] = hlevel
Below-prop f k (a ∷ l) = ×_prop le_prop (Below-prop f k l)

Below-Permᴰ :
    (f : CallSize → ℕ) (k : ℕ) {l m : List CallSize} → Permᴰ l m → Below f k l → Below f k m
Below-Permᴰ f k Permᴰ.nil h = h
Below-Permᴰ f k (Permᴰ.cons e p) h = (omega (arith, ap f e, h.0), Below-Permᴰ f k p h.1)
Below-Permᴰ f k (Permᴰ.swap e g) h =
    (omega (arith, ap f g, h.1.0), (omega (arith, ap f e, h.0), h.1.1))
Below-Permᴰ f k (Permᴰ.trans p q) h = Below-Permᴰ f k q (Below-Permᴰ f k p h)

Below-perm : (f : CallSize → ℕ) (k : ℕ) (l m : List CallSize) → Perm l m → Below f k l → Below f k m
Below-perm f k l m p h = ∥∥₁_elim p (Below-prop f k m) (λ q. Below-Permᴰ f k q h)

-- The sizes of the buckets from `i` on, of which the last is the nineteenth.
tallies-Below :
    (i : ℕ) (cs : List ℕ)
    → i + length cs ≤ steps
    → Below (λ c. c.size) (min_size * 2 ^ 19) (tallies i cs)
unfolding tallies
tallies-Below i [] h = tt
tallies-Below i (c ∷ cs) h = (
  omega (arith, pow-le-pow_right {n = 2} (omega arith) {i = i} {j = 19} (omega arith)),
  tallies-Below (i + 1) cs (omega arith),
)

-- What `calibrate` derives from the calls of the twenty buckets.
pub record IsDerived (num : Numeric) (calls : List ℕ) (d : Derived) : Type 0 where
  -- a bucket with the most calls, whose size is the default
  pub top : CallSize
  pub top_of : Mem top (tallies 0 calls)
  pub top_size : d.default_size ≡ top.size
  pub most_called : All (λ (c : CallSize). c.calls ≤ top.calls) (tallies 0 calls)
  -- the largest size
  pub ordered : d.default_size ≤ d.max_size
  pub bounded : d.max_size ≤ min_size * 2 ^ 19
  -- more calls than the percentile lie within it, or all do
  pub covered :
      (num.percentile (sum calls) < within d.max_size (tallies 0 calls))
      ⊎ (within d.max_size (tallies 0 calls) ≡ sum calls)
  -- in the buckets' order, it is the largest size of those seen until that is so, and of no more
  pub seen : List CallSize
  pub unseen : List CallSize
  pub all_of : Perm (seen ++ unseen) (tallies 0 calls)
  pub descending : IsDescending (seen ++ unseen)
  pub largest_seen : d.max_size ≡ largest d.default_size seen
  pub needed : Needed (num.percentile (sum calls)) 0 seen
  pub done : (num.percentile (sum calls) < total seen) ⊎ (unseen ≡ [])

count-tallies : (i : ℕ) (cs : List ℕ) → weigh (λ _. 1) (tallies i cs) ≡ length cs
unfolding tallies
count-tallies i [] = refl
count-tallies i (c ∷ cs) = omega (arith, count-tallies (i + 1) cs)

-- the last lines of `calibrate`, on the sorted buckets `l`
abbrev derived_of : Numeric → List ℕ → List CallSize → Option Derived
derived_of num calls l = first l >>= λ top. some (record {
  default_size = top.size;
  max_size = cover (num.percentile (calls_sum 0 calls)) l 0 top.size;
})

derived_of-IsDerived :
    (num : Numeric) (calls : List ℕ) (l : List CallSize)
    → length calls ≡ steps
    → sum calls < 2 ^ 64
    → Perm l (tallies 0 calls)
    → IsDescending l
    → (d : Derived) × (derived_of num calls l ≡ some d) × IsDerived num calls d
derived_of-IsDerived num calls [] full small perm desc =
    absurd (omega (arith, weigh-perm (λ _. 1) [] (tallies 0 calls) perm, count-tallies 0 calls))
derived_of-IsDerived num calls (top ∷ l) full small perm desc =
    let max_sum : ℕ = num.percentile (calls_sum 0 calls) in
    let out : ℕ = cover max_sum (top ∷ l) 0 top.size in
    let all : total (top ∷ l) ≡ sum calls =
      total-weigh (top ∷ l)
      ∙ weigh-perm (λ a. a.calls) (top ∷ l) (tallies 0 calls) perm
      ∙ sym (total-weigh (tallies 0 calls))
      ∙ total-tallies 0 calls in
    let inside : within out (top ∷ l) ≡ within out (tallies 0 calls) =
      within-weigh out (top ∷ l)
      ∙ weigh-perm (λ a. if leb a.size out then a.calls else 0) (top ∷ l) (tallies 0 calls) perm
      ∙ sym (within-weigh out (tallies 0 calls)) in
    let sizes : Below (λ c. c.size) (min_size * 2 ^ 19) (top ∷ l) =
      Below-perm (λ c. c.size) (min_size * 2 ^ 19) (tallies 0 calls) (top ∷ l) (Perm.symm perm)
        (tallies-Below 0 calls (omega arith)) in
    let percentile : max_sum ≡ num.percentile (sum calls) =
      ap num.percentile (calls_sum-sum 0 calls (omega arith) ∙ omega arith) in
    let covers : Covers max_sum (top ∷ l) 0 top.size out =
      cover-Covers max_sum (top ∷ l) 0 top.size (omega arith) in
    (
      record { default_size = top.size; max_size = out },
      refl,
      record {
        top = top;
        top_of = (Perm.mem_iff perm).0 mem-cons_self;
        top_size = refl;
        most_called =
            Below-perm (λ c. c.calls) top.calls (top ∷ l) (tallies 0 calls) perm
              (omega arith, desc.0);
        ordered = covers.grows;
        bounded = cover-bound (min_size * 2 ^ 19) max_sum (top ∷ l) 0 top.size sizes sizes.0;
        covered = covered_of percentile inside all covers.enough;
        seen = covers.seen;
        unseen = covers.unseen;
        all_of = subst (λ t. Perm t (tallies 0 calls)) covers.split perm;
        descending = subst IsDescending covers.split desc;
        largest_seen = covers.size_lem;
        needed = subst (λ t. Needed t 0 covers.seen) percentile covers.needed;
        done = done_of percentile covers.done;
      },
    )
  where
    done_of : {m p s : ℕ} {l : List CallSize} → m ≡ p → (m < 0 + s) ⊎ (l ≡ []) → (p < s) ⊎ (l ≡ [])
    done_of e (inl h) = inl (omega arith)
    done_of e (inr h) = inr h

    covered_of :
        {m p s t u w : ℕ} → m ≡ p → s ≡ t → u ≡ w → (m < 0 + s) ⊎ (s ≡ u) → (p < t) ⊎ (t ≡ w)
    covered_of e f g (inl h) = inl (omega arith)
    covered_of e f g (inr h) = inr (omega arith)

-- `calibrate` finds a first bucket, and derives sizes as `IsDerived` says: the default size is that
-- of a bucket with the most calls; with the buckets sorted by falling numbers of calls, the largest is
-- the largest size of the first buckets that have together more calls than the percentile, or of all if
-- there are none such, and of no bucket behind those; more calls than the percentile
-- lie within it, or all.
pub derive-IsDerived :
    (num : Numeric) (calls : List ℕ)
    → length calls ≡ steps
    → sum calls < 2 ^ 64
    → (d : Derived) × (derive num calls ≡ some d) × IsDerived num calls d
unfolding derive
derive-IsDerived num calls full small =
    derived_of-IsDerived num calls (num.sort (tallies 0 calls)) full small
      (num.sort-perm (tallies 0 calls)) (num.sort-IsDescending (tallies 0 calls))
