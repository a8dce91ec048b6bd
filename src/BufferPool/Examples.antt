-- ===== src/BufferPool/Examples.antt =====
-- A pool over a list, with an insertion sort, as tests and as inputs of the theorems.
use native.Mathlib.Decide.{dec_le}
use mathlib.Core.List.{Perm}
use mathlib.Core.List.Perm
use limnet.Base.{
  ℕ, ◌*◌, ◌/◌, ◌≤◌, ◌≡◌, refl, Option, none, some, List, [], ◌∷◌, All, ◌⊎◌, inl, inr, arith, leb,
  ◌||◌, ◌==◌, if◌then◌else◌, replicate, le→leb, lt→not-leb,
}
use limnet.RingBuffer.Defs.{RingBuffer, unallocated, reset, cap}
use limnet.RingBuffer.Fresh.{unallocated-IsValid}
use limnet.BufferPool.Index.{count_bits, index, IsBucket, index-IsBucket, steps}
use limnet.BufferPool.Calibrate.{
  CallSize, IsDescending, Numeric, Derived, derive, tallies, calls_sum, cover,
}
use limnet.BufferPool.Cover.{IsDerived, derive-IsDerived}
use limnet.BufferPool.{SyncPool, Pool, put}
use limnet.BufferPool.Recycle.{IsPool, put-IsPool}

insert : CallSize → List CallSize → List CallSize
insert a [] = a ∷ []
insert a (c ∷ l) = if leb c.calls a.calls then a ∷ c ∷ l else c ∷ insert a l

insertion_sort : List CallSize → List CallSize
insertion_sort [] = []
insertion_sort (a ∷ l) = insert a (insertion_sort l)

insert-perm : (a : CallSize) (l : List CallSize) → Perm (insert a l) (a ∷ l)
unfolding insert
insert-perm a [] = Perm.refl (a ∷ [])
insert-perm a (c ∷ l) = elim (dec_le c.calls a.calls) [
  | yes p ↦ rw (le→leb c.calls a.calls p) (Perm.refl (a ∷ c ∷ l))
  | no p ↦
      rw (lt→not-leb c.calls a.calls (omega arith))
        (Perm.trans (Perm.cons c (insert-perm a l)) (Perm.swap a c l))
]

insertion_sort-perm : (l : List CallSize) → Perm (insertion_sort l) l
unfolding insertion_sort
insertion_sort-perm [] = Perm.nil
insertion_sort-perm (a ∷ l) =
    Perm.trans (insert-perm a (insertion_sort l)) (Perm.cons a (insertion_sort-perm l))

abbrev Under : ℕ → List CallSize → Type 0
Under k l = All (λ (c : CallSize). c.calls ≤ k) l

Under-mono : (k m : ℕ) (l : List CallSize) → k ≤ m → Under k l → Under m l
Under-mono k m [] e h = h
Under-mono k m (c ∷ l) e h = (omega (arith, h.0), Under-mono k m l e h.1)

insert-Under :
    (k : ℕ) (a : CallSize) (l : List CallSize) → a.calls ≤ k → Under k l → Under k (insert a l)
unfolding insert
insert-Under k a [] e h = (e, tt)
insert-Under k a (c ∷ l) e h = ground (arith, insert-Under k a l e h.1)

insert-IsDescending :
    (a : CallSize) (l : List CallSize) → IsDescending l → IsDescending (insert a l)
unfolding insert
insert-IsDescending a [] h = (tt, tt)
insert-IsDescending a (c ∷ l) h = elim (dec_le c.calls a.calls) [
  | yes p ↦ rw (le→leb c.calls a.calls p) ((p, Under-mono c.calls a.calls l p h.0), h)
  | no p ↦
      rw (lt→not-leb c.calls a.calls (omega arith))
        (insert-Under c.calls a l (omega arith) h.0, insert-IsDescending a l h.1)
]

insertion_sort-IsDescending : (l : List CallSize) → IsDescending (insertion_sort l)
unfolding insertion_sort
insertion_sort-IsDescending [] = tt
insertion_sort-IsDescending (a ∷ l) =
    insert-IsDescending a (insertion_sort l) (insertion_sort-IsDescending l)

abbrev numeric : Numeric
numeric = record {
  sort = insertion_sort;
  percentile = λ n. n * 95 / 100;
  sort-perm = insertion_sort-perm;
  sort-IsDescending = insertion_sort-IsDescending;
}

-- a pool that keeps what it is given, the last first
abbrev In : List RingBuffer → RingBuffer → Type 0
In [] b = ⊥
In (c ∷ s) b = (b ≡ c) ⊎ In s b

abbrev take_one : List RingBuffer → Option RingBuffer × List RingBuffer
take_one [] = (none, [])
take_one (b ∷ s) = (some b, s)

take_one-In : (s : List RingBuffer) (b : RingBuffer) → (take_one s).0 ≡ some b → In s b
take_one-In [] b e = absurd (cc)
take_one-In (c ∷ s) b e = inl (cc)

In-take_one : (s : List RingBuffer) (b : RingBuffer) → In (take_one s).1 b → In s b
In-take_one [] b h = h
In-take_one (c ∷ s) b h = inr h

abbrev stack : SyncPool
stack = record {
  Store = List RingBuffer;
  Holds = In;
  get = take_one;
  put = λ b s. b ∷ s;
  get-Holds = take_one-In;
  Holds-get = In-take_one;
  Holds-put = λ s c b h. h;
}

abbrev default_pool : Pool (List RingBuffer)
default_pool = record {
  calls = replicate steps 0;
  calibrating = 0;
  default_size = 0;
  max_size = 0;
  pool = [];
}

default_pool-IsPool : IsPool stack default_pool
default_pool-IsPool = record {
  counters = record { twenty = refl; low = omega arith; idle = refl; default_small = omega arith };
  clean = λ b h. absurd h;
}

index-IsBucket_example : (idx : ℕ) × (index 4096 ≡ some idx) × IsBucket 4096 idx
index-IsBucket_example = index-IsBucket 4096 (omega arith)

-- 4096 bytes are 64 << 6
index_4096 : index 4096 ≡ some 6
unfolding index count_bits
index_4096 = refl

abbrev busy : List ℕ
busy = 10 ∷ 400 ∷ 20 ∷ replicate 17 0

derive-IsDerived_example : (d : Derived) × (derive numeric busy ≡ some d) × IsDerived numeric busy d
derive-IsDerived_example = derive-IsDerived numeric busy refl (omega arith)

derive-busy : derive numeric busy ≡ some (record { default_size = 128; max_size = 256 })
unfolding derive insertion_sort insert tallies calls_sum cover
derive-busy = refl

put-IsPool_example :
    (q : Pool (List RingBuffer)) × (put stack numeric unallocated default_pool ≡ some q)
    × IsPool stack q
    × (q.pool ≡ (
        if q.max_size == 0 || leb (cap unallocated) q.max_size then reset unallocated ∷ [] else []))
put-IsPool_example =
    put-IsPool stack numeric unallocated default_pool unallocated-IsValid default_pool-IsPool
