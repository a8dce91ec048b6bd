-- ===== src/WaitGroup/Counted.antt =====
-- pkg/limutil/wait_group.go: a goroutine that calls `Wrap` any number of times, and the goroutines that
-- it starts, a shared access at a time. The callbacks are of any type.
mod Examples
use limnet.Base.{
  ℕ, ◌+◌, ◌-◌, ◌^◌, ◌%◌, ◌<◌, ◌≤◌, ◌≡◌, ◌≢◌, refl, sym, ap, ◌∙◌, Bool, true, false, List, [], ◌∷◌,
  ◌++◌, length, arith, sum, sum-append, All,
}
use limnet.Base.Int.{ℤ, pos, wrap_int}

-- Where the goroutine that calls `Wrap` stands: outside, after `w.Add(1)`, and after the counting.
pub data Caller (F : Type 0) : Type 0 where
  outside : Caller F
  added : F → Caller F
  counted : F → Caller F

-- Where a goroutine of `Wrap` stands: in `cb()`, before `w.Done()`, before the last counting, at its end.
pub data Worker (F : Type 0) : Type 0 where
  running : F → Worker F
  before_done : F → Worker F
  before_count : F → Worker F
  ended : F → Worker F

-- `counter` is that of the embedded sync.WaitGroup, and `panicked` is set where a `Done` makes it
-- negative; `count` is the word of the int64.
pub record Wrapper (F : Type 0) : Type 0 where
  pub caller : Caller F
  pub counter : ℕ
  pub count : ℕ
  pub workers : List (Worker F)
  pub panicked : Bool

module _ {F : Type 0} where
  -- `NewWaitGroupWrapper`
  abbrev pub new_wait_group_wrapper : Wrapper F
  new_wait_group_wrapper = record {
    caller = outside;
    counter = 0;
    count = 0;
    workers = [];
    panicked = false;
  }

  -- `GoroutineCount`
  unfoldable pub goroutine_count : Wrapper F → ℤ
  goroutine_count s = wrap_int s.count

  pub data Step (s : Wrapper F) : Wrapper F → Type 0 where
    adds :
        (f : F)
        → s.caller ≡ outside
        → Step s (record s { caller = added f; counter = s.counter + 1 })
    counts :
        {f : F}
        → s.caller ≡ added f
        → Step s (record s { caller = counted f; count = (s.count + 1) % 2 ^ 64 })
    goes :
        {f : F}
        → s.caller ≡ counted f
        → Step s (record s { caller = outside; workers = s.workers ++ (running f ∷ []) })
    returns :
        (xs : List (Worker F)) (f : F) (ys : List (Worker F))
        → s.workers ≡ xs ++ (running f ∷ ys)
        → Step s (record s { workers = xs ++ (before_done f ∷ ys) })
    done :
        (xs : List (Worker F)) (f : F) (ys : List (Worker F))
        → s.workers ≡ xs ++ (before_done f ∷ ys)
        → s.counter ≢ 0
        → Step s (record s { counter = s.counter - 1; workers = xs ++ (before_count f ∷ ys) })
    panics :
        (xs : List (Worker F)) (f : F) (ys : List (Worker F))
        → s.workers ≡ xs ++ (before_done f ∷ ys)
        → s.counter ≡ 0
        → Step s (record s { panicked = true })
    counts_down :
        (xs : List (Worker F)) (f : F) (ys : List (Worker F))
        → s.workers ≡ xs ++ (before_count f ∷ ys)
        → Step s
            (record s { count = (s.count + (2 ^ 64 - 1)) % 2 ^ 64; workers = xs ++ (ended f ∷ ys) })

  pub data Reach : Wrapper F → Type 0 where
    start : Reach new_wait_group_wrapper
    later : {s t : Wrapper F} → Reach s → Step s t → Reach t

  -- one for a goroutine whose callback has not been done, and for one that has not ended
  abbrev pub undone : Worker F → ℕ
  undone (running f) = 1
  undone (before_done f) = 1
  undone (before_count f) = 0
  undone (ended f) = 0

  abbrev pub alive : Worker F → ℕ
  alive (running f) = 1
  alive (before_done f) = 1
  alive (before_count f) = 1
  alive (ended f) = 0

  abbrev pub in_wrap : Caller F → ℕ
  in_wrap outside = 0
  in_wrap (added f) = 1
  in_wrap (counted f) = 1

  abbrev pub in_count : Caller F → ℕ
  in_count outside = 0
  in_count (added f) = 0
  in_count (counted f) = 1

  record IsSound (s : Wrapper F) : Type 0 where
    sane : s.panicked ≡ false
    to_do : s.counter ≡ sum undone s.workers + in_wrap s.caller
    to_end : s.count ≡ (sum alive s.workers + in_count s.caller) % 2 ^ 64

  sum-at :
      (weight : Worker F → ℕ) (s : Wrapper F) (xs : List (Worker F)) (g : Worker F)
      (ys : List (Worker F))
      → s.workers ≡ xs ++ (g ∷ ys)
      → sum weight s.workers ≡ sum weight xs + (weight g + sum weight ys)
  sum-at weight s xs g ys e = ap (sum weight) e ∙ sum-append weight xs (g ∷ ys)

  Step-IsSound : (s t : Wrapper F) → Step s t → IsSound s → IsSound t
  Step-IsSound s t (adds f e) v = record {
    sane = v.sane;
    to_do = let a = v.to_do in let c = ap in_wrap e in omega (arith, a, c);
    to_end = let a = v.to_end in let c = ap in_count e in omega (arith, a, c);
  }
  Step-IsSound s t (counts e) v = record {
    sane = v.sane;
    to_do = let a = v.to_do in let c = ap in_wrap e in omega (arith, a, c);
    to_end = let a = v.to_end in let c = ap in_count e in omega (arith, a, c);
  }
  Step-IsSound s t (goes {f} e) v = record {
    sane = v.sane;
    to_do =
        let a = v.to_do in
        let c = ap in_wrap e in
        let n = sum-append undone s.workers (running f ∷ []) in omega (arith, a, c, n);
    to_end =
        let a = v.to_end in
        let c = ap in_count e in
        let n = sum-append alive s.workers (running f ∷ []) in omega (arith, a, c, n);
  }
  Step-IsSound s t (returns xs f ys e) v = record {
    sane = v.sane;
    to_do =
        let a = v.to_do in
        let c = sum-at undone s xs (running f) ys e in
        let n = sum-append undone xs (before_done f ∷ ys) in omega (arith, a, c, n);
    to_end =
        let a = v.to_end in
        let c = sum-at alive s xs (running f) ys e in
        let n = sum-append alive xs (before_done f ∷ ys) in omega (arith, a, c, n);
  }
  Step-IsSound s t (done xs f ys e ne) v = record {
    sane = v.sane;
    to_do =
        let a = v.to_do in
        let c = sum-at undone s xs (before_done f) ys e in
        let n = sum-append undone xs (before_count f ∷ ys) in omega (arith, a, c, n);
    to_end =
        let a = v.to_end in
        let c = sum-at alive s xs (before_done f) ys e in
        let n = sum-append alive xs (before_count f ∷ ys) in omega (arith, a, c, n);
  }
  Step-IsSound s t (panics xs f ys e z) v =
      let a = v.to_do in
      let c = sum-at undone s xs (before_done f) ys e in absurd (omega (arith, a, c, z))
  Step-IsSound s t (counts_down xs f ys e) v = record {
    sane = v.sane;
    to_do =
        let a = v.to_do in
        let c = sum-at undone s xs (before_count f) ys e in
        let n = sum-append undone xs (ended f ∷ ys) in omega (arith, a, c, n);
    to_end =
        let a = v.to_end in
        let c = sum-at alive s xs (before_count f) ys e in
        let n = sum-append alive xs (ended f ∷ ys) in omega (arith, a, c, n);
  }

  Reach-IsSound : (s : Wrapper F) → Reach s → IsSound s
  Reach-IsSound s start = record { sane = refl; to_do = refl; to_end = refl }
  Reach-IsSound t (later {s} run step) = Step-IsSound s t step (Reach-IsSound s run)

  alive-le : (ws : List (Worker F)) → sum alive ws ≤ length ws
  alive-le [] = omega arith
  alive-le (running f ∷ ws) = omega (arith, alive-le ws)
  alive-le (before_done f ∷ ws) = omega (arith, alive-le ws)
  alive-le (before_count f ∷ ws) = omega (arith, alive-le ws)
  alive-le (ended f ∷ ws) = omega (arith, alive-le ws)

  -- However the goroutines of fewer than 2^63 - 1 calls of `Wrap` go on, no `Done` panics, and
  -- `GoroutineCount` is the number of the goroutines that have not ended, and one more while `Wrap` has
  -- counted a goroutine that it has not started yet; and where `Wait` returns, every callback whose
  -- goroutine has been started has returned.
  pub Reach-counts :
      (s : Wrapper F)
      → Reach s
      → length s.workers + 1 < 2 ^ 63
      → (s.panicked ≡ false)
        × (goroutine_count s ≡ pos (sum alive s.workers + in_count s.caller))
        × (s.counter ≡ 0 → sum undone s.workers ≡ 0)
  unfolding goroutine_count
  Reach-counts s run small =
      let v = Reach-IsSound s run in
      let a = alive-le s.workers in
      let c : in_count s.caller ≤ 1 = at_most_one s.caller in
      let e = v.to_end in
      let d = v.to_do in
      let n : s.count ≡ sum alive s.workers + in_count s.caller = omega (arith, a, c, e, small) in
      (v.sane, ap wrap_int n ∙ ground (arith, a, c, small), λ z. omega (arith, d, z))
    where
      at_most_one : (c : Caller F) → in_count c ≤ 1
      at_most_one outside = omega arith
      at_most_one (added f) = omega arith
      at_most_one (counted f) = omega arith
