-- ===== src/BufferPool/Recycle.antt =====
-- `Get` and `Put`: the pool gives out empty ring buffers, whatever was put into it.
use native.Mathlib.Decide.{dec_lt}
use limnet.Base.{
  ℕ, zero, suc, ◌+◌, ◌*◌, ◌%◌, ◌^◌, ◌≤◌, ◌<◌, ◌≡◌, refl, ap, ◌∙◌, List, [], ◌∷◌, leb, if◌then◌else◌,
  inl, inr, none, some, All, arith, length, lt→ltb, le→not-ltb, set, replicate, get_elem?_lem,
  get_elem?, subst, get_or, length-set, Bool-cases, Option-cases, ◌==◌, ◌||◌,
}
use limnet.Base.Int.{pos}
use limnet.RingBuffer.Defs.{RingBuffer, new, reset, len, cap}
use limnet.RingBuffer.Inv.{IsValid, contents}
use limnet.RingBuffer.Consume.{reset-IsValid, contents-reset}
use limnet.RingBuffer.Fresh.{new_pos}
use limnet.BufferPool.Index.{steps, min_size, index-IsBucket}
use limnet.BufferPool.Calibrate.{Numeric}
use limnet.BufferPool.Cover.{derive-IsDerived, sum}
use limnet.BufferPool.{
  calibrate_calls_threshold, SyncPool, Pool, get, serve, calibrate, count_call, put,
}

abbrev AtMost : ℕ → List ℕ → Type 0
AtMost k cs = All (λ (c : ℕ). c ≤ k) cs

sum-le : (k : ℕ) (cs : List ℕ) → AtMost k cs → sum cs ≤ length cs * k
sum-le k [] h = omega arith
sum-le k (c ∷ cs) h = omega (arith, sum-le k cs h.1, h.0)

set-AtMost : (k : ℕ) (cs : List ℕ) (i v : ℕ) → AtMost k cs → v ≤ k → AtMost k (set cs i v)
set-AtMost k [] i v h e = h
set-AtMost k (c ∷ cs) zero v h e = (e, h.1)
set-AtMost k (c ∷ cs) (suc i) v h e = (h.0, set-AtMost k cs i v h.1 e)

AtMost-mono : (k m : ℕ) (cs : List ℕ) → k ≤ m → AtMost k cs → AtMost m cs
AtMost-mono k m [] e h = h
AtMost-mono k m (c ∷ cs) e h = (omega (arith, h.0), AtMost-mono k m cs e h.1)

get_or-AtMost : (k : ℕ) (cs : List ℕ) (i : ℕ) → AtMost k cs → get_or cs i 0 ≤ k
get_or-AtMost k [] i h = omega arith
get_or-AtMost k (c ∷ cs) zero h = h.0
get_or-AtMost k (c ∷ cs) (suc i) h = get_or-AtMost k cs i h.1

zeros-AtMost : (k n : ℕ) → AtMost k (replicate n 0)
zeros-AtMost k zero = tt
zeros-AtMost k (suc n) = (omega arith, zeros-AtMost k n)

-- The counters of a pool at rest: twenty, none above the threshold, no calibration under way, and a
-- default size of at most that of the last bucket.
pub record Counters {Store : Type 0} (p : Pool Store) : Type 0 where
  pub twenty : length p.calls ≡ steps
  pub low : All (λ (c : ℕ). c ≤ calibrate_calls_threshold) p.calls
  pub idle : p.calibrating ≡ 0
  pub default_small : p.default_size ≤ min_size * 2 ^ 19

-- What `count_call` leaves.
record Counted {Store : Type 0} (p q : Pool Store) : Type 0 where
  counters : Counters q
  same_pool : q.pool ≡ p.pool

module _ {Store : Type 0} (num : Numeric) where
  calibrate-Counted :
      (p : Pool Store)
      → length p.calls ≡ steps
      → AtMost (calibrate_calls_threshold + 1) p.calls
      → p.calibrating ≡ 0
      → (q : Pool Store) × (calibrate num p ≡ some q) × Counted p q
  unfolding calibrate
  calibrate-Counted p twenty low idle =
      let (d, ok, is) = derive-IsDerived num p.calls twenty (
        omega (
          arith,
          sum-le (calibrate_calls_threshold + 1) p.calls low,
          ap (λ (t : ℕ). t * 42001) twenty,
        )) in
      (
        record p {
          calls = replicate steps 0;
          calibrating = 0;
          default_size = d.default_size;
          max_size = d.max_size;
        },
        simp (idle, ok),
        record {
          counters = record {
            twenty = refl;
            low = zeros-AtMost calibrate_calls_threshold steps;
            idle = refl;
            default_small = omega (arith, is.ordered, is.bounded);
          };
          same_pool = refl;
        },
      )

  count_call-Counted :
      (idx : ℕ) (p : Pool Store)
      → idx < steps
      → Counters p
      → (q : Pool Store) × (count_call num idx p ≡ some q) × Counted p q
  unfolding count_call
  count_call-Counted idx p h c =
      let before : ℕ = get_or p.calls idx 0 in
      let bounded : before ≤ calibrate_calls_threshold =
        get_or-AtMost calibrate_calls_threshold p.calls idx c.low in
      let next : ℕ = (before + 1) % 2 ^ 64 in
      let counted : Pool Store = record p { calls = set p.calls idx next } in
      let twenty : length (set p.calls idx next) ≡ steps = length-set p.calls idx next ∙ c.twenty in
      let found : get_elem? p.calls idx 0 ≡ some before =
        get_elem?_lem p.calls idx 0 (omega (arith, c.twenty)) in
      elim (dec_lt calibrate_calls_threshold next) [
        | yes over ↦
            let (q, ok, d) =
              calibrate-Counted counted twenty
                (set-AtMost (calibrate_calls_threshold + 1) p.calls idx next
                  (AtMost-mono calibrate_calls_threshold (calibrate_calls_threshold + 1) p.calls
                    (omega arith) c.low)
                  (omega arith))
                c.idle in
            (
              q,
              rw found (rw (lt→ltb calibrate_calls_threshold next over) ok),
              record { counters = d.counters; same_pool = d.same_pool },
            )
        | no under ↦ (
          counted,
          rw found (rw (le→not-ltb calibrate_calls_threshold next (omega arith)) refl),
          record {
            counters = record {
              twenty = twenty;
              low = set-AtMost calibrate_calls_threshold p.calls idx next c.low (omega arith);
              idle = c.idle;
              default_small = c.default_small;
            };
            same_pool = refl;
          },
        )
      ]

len-lt : (b : RingBuffer) → IsValid b → len b < 2 ^ 63
unfolding len
len-lt b v = omega arith

module _ (lib : SyncPool) where
  -- A pool between calls: its counters, and only valid ring buffers with nothing in them.
  pub record IsPool (p : Pool lib.Store) : Type 0 where
    pub counters : Counters p
    pub clean : (b : RingBuffer) → lib.Holds p.pool b → IsValid b × (contents b ≡ [])

  -- `Get` does not panic. It gives a valid ring buffer with nothing in it, pooled or new, and leaves
  -- the pool as it should be.
  pub get-empty :
      (p : Pool lib.Store)
      → IsPool p
      → (b : RingBuffer) × (q : Pool lib.Store) × (get lib p ≡ some (b, q))
        × IsValid b
        × (contents b ≡ [])
        × IsPool q
  unfolding get serve
  get-empty p h = elim (Option-cases (lib.get p.pool).0) [
    | inl e ↦
        let (b, ok, f) = new_pos p.default_size (omega (arith, h.counters.default_small)) in
        (b, rest, ap (λ v. serve v rest) e ∙ serve_new b ok, f.valid, f.nothing, after)
    | inr (b, e) ↦
        let (valid, nothing) = h.clean b (lib.get-Holds p.pool b e) in
        (b, rest, ap (λ v. serve v rest) e ∙ serve_old b, valid, nothing, after)
  ]
    where
      rest : Pool lib.Store
      rest = record p { pool = (lib.get p.pool).1 }

      serve_new :
          (b : RingBuffer) → new (pos p.default_size) ≡ some b → serve none rest ≡ some (b, rest)
      serve_new b ok = rw ok refl

      serve_old : (b : RingBuffer) → serve (some b) rest ≡ some (b, rest)
      serve_old b = refl

      after : IsPool rest
      after = record {
        counters = record {
          twenty = h.counters.twenty;
          low = h.counters.low;
          idle = h.counters.idle;
          default_small = h.counters.default_small;
        };
        clean = λ b held. h.clean b (lib.Holds-get p.pool b held);
      }

  module _ (num : Numeric) where
    kept : RingBuffer → Pool lib.Store → Pool lib.Store
    kept b q =
        if q.max_size == 0 || leb (cap b) q.max_size
        then record q { pool = lib.put (reset b) q.pool }
        else q

    kept-IsPool :
        (b : RingBuffer) (p q : Pool lib.Store)
        → IsValid b
        → IsPool p
        → Counted p q
        → IsPool (kept b q)
    unfolding kept
    kept-IsPool b p q v h c = elim (Bool-cases (q.max_size == 0 || leb (cap b) q.max_size)) [
      | inl e ↦ rw e (record {
        counters = record {
          twenty = c.counters.twenty;
          low = c.counters.low;
          idle = c.counters.idle;
          default_small = c.counters.default_small;
        };
        clean = λ d held. elim (lib.Holds-put q.pool (reset b) d held) [
          | inl same ↦ rw same (reset-IsValid b v, contents-reset b)
          | inr old ↦ h.clean d (subst (λ t. lib.Holds t d) c.same_pool old)
        ];
      })
      | inr e ↦ rw e (record {
        counters = c.counters;
        clean = λ d held. h.clean d (subst (λ t. lib.Holds t d) c.same_pool held);
      })
    ]

    same_store :
        (b : RingBuffer) (p q : Pool lib.Store)
        → q.pool ≡ p.pool
        → (kept b q).pool ≡ (
            if (kept b q).max_size == 0 || leb (cap b) (kept b q).max_size
            then lib.put (reset b) p.pool
            else p.pool)
    unfolding kept
    same_store b p q e = elim (Bool-cases (q.max_size == 0 || leb (cap b) q.max_size)) [
      | inl t ↦ rw t (rw t (ap (lib.put (reset b)) e))
      | inr f ↦ rw f (rw f e)
    ]

    -- `Put` of a valid ring buffer of less than `1 << 63` bytes does not panic, and leaves the pool as
    -- it should be: what it holds is empty. The ring buffer is put back reset, unless a largest size
    -- is set and it is larger.
    pub put-IsPool :
        (b : RingBuffer) (p : Pool lib.Store)
        → IsValid b
        → IsPool p
        → (q : Pool lib.Store) × (put lib num b p ≡ some q)
          × IsPool q
          × (q.pool ≡ (
              if q.max_size == 0 || leb (cap b) q.max_size
              then lib.put (reset b) p.pool
              else p.pool))
    unfolding put kept
    put-IsPool b p v h =
        let (idx, found, bucket) = index-IsBucket (len b) (len-lt b v) in
        let (q, ok, c) = count_call-Counted num idx p bucket.in_range h.counters in
        (kept b q, rw found (rw ok refl), kept-IsPool b p q v h c, same_store b p q c.same_pool)
