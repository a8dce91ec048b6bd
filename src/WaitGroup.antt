-- ===== src/WaitGroup.antt =====
-- pkg/limutil/sync/waitgroup.go: a goroutine that calls `AddAndRun` for a list of callbacks and then
-- `Wait`, and the goroutines that it starts, a shared access at a time. The callbacks are of any type.
pub mod Waiting
pub mod Progress
pub mod Counted
use limnet.Base.{ℕ, ◌+◌, ◌-◌, ◌≡◌, ◌≢◌, Bool, true, false, List, [], ◌∷◌, ◌++◌}

-- Where the goroutine that waits stands: before the callbacks that are left, between `wg.Add(1)` and
-- `go` for the first of them, in `Wait`, and after it.
pub data Main (F : Type 0) : Type 0 where
  starting : List F → Main F
  added : F → List F → Main F
  waiting : Main F
  quit : Main F

-- Where a goroutine of `AddAndRun` stands: in `cb()`, before `wg.Done()`, and after it.
pub data Goroutine (F : Type 0) : Type 0 where
  running : F → Goroutine F
  before_done : F → Goroutine F
  ended : F → Goroutine F

-- `counter` is that of the sync.WaitGroup, and `panicked` is set where a `Done` makes it negative.
-- `goroutines` has one for each `go`, in their order.
pub record System (F : Type 0) : Type 0 where
  pub main : Main F
  pub counter : ℕ
  pub goroutines : List (Goroutine F)
  pub panicked : Bool

module _ {F : Type 0} where
  abbrev pub init : List F → System F
  init fs = record { main = starting fs; counter = 0; goroutines = []; panicked = false }

  -- The order in which goroutines go on is any, and a callback may return at any time.
  pub data Step (s : System F) : System F → Type 0 where
    adds :
        {f : F} {fs : List F}
        → s.main ≡ starting (f ∷ fs)
        → Step s (record s { main = added f fs; counter = s.counter + 1 })
    goes :
        {f : F} {fs : List F}
        → s.main ≡ added f fs
        → Step s (record s { main = starting fs; goroutines = s.goroutines ++ (running f ∷ []) })
    waits : s.main ≡ starting [] → Step s (record s { main = waiting })
    quits : s.main ≡ waiting → s.counter ≡ 0 → Step s (record s { main = quit })
    returns :
        (xs : List (Goroutine F)) (f : F) (ys : List (Goroutine F))
        → s.goroutines ≡ xs ++ (running f ∷ ys)
        → Step s (record s { goroutines = xs ++ (before_done f ∷ ys) })
    done :
        (xs : List (Goroutine F)) (f : F) (ys : List (Goroutine F))
        → s.goroutines ≡ xs ++ (before_done f ∷ ys)
        → s.counter ≢ 0
        → Step s (record s { counter = s.counter - 1; goroutines = xs ++ (ended f ∷ ys) })
    panics :
        (xs : List (Goroutine F)) (f : F) (ys : List (Goroutine F))
        → s.goroutines ≡ xs ++ (before_done f ∷ ys)
        → s.counter ≡ 0
        → Step s (record s { panicked = true })

  -- the states after `k` steps
  pub data Reach (s : System F) : ℕ → System F → Type 0 where
    start : Reach s 0 s
    later : {k : ℕ} {t u : System F} → Reach s k t → Step t u → Reach s (k + 1) u
