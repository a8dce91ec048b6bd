-- ===== src/WaitGroup/Progress.antt =====
-- How many steps there are, and that one is possible until `Wait` returns.
use limnet.Base.{
  sum, sum-append, ℕ, ◌+◌, ◌-◌, ◌*◌, ◌≤◌, ◌≡◌, ◌≢◌, refl, ap, ◌∙◌, List, [], ◌∷◌, ◌++◌, length,
  arith,
}
use native.Mathlib.Decide.{ℕ_discrete}
use limnet.WaitGroup.{
  Main, starting, added, waiting, quit, Goroutine, running, before_done, ended, System, init, Step,
  adds, goes, waits, quits, returns, done, panics, Reach, start, later,
}
use limnet.WaitGroup.Waiting.{unfinished, held, IsSound, Reach-IsSound}

module _ {F : Type 0} where
  -- the steps that a goroutine has to make
  to_go : Goroutine F → ℕ
  to_go (running f) = 2
  to_go (before_done f) = 1
  to_go (ended f) = 0

  main_to_go : Main F → ℕ
  main_to_go (starting fs) = 4 * length fs + 2
  main_to_go (added f fs) = 4 * length fs + 5
  main_to_go waiting = 1
  main_to_go quit = 0

  all_to_go : System F → ℕ
  all_to_go s = sum to_go s.goroutines + main_to_go s.main

  sum-to_go :
      (s : System F) (xs : List (Goroutine F)) (g : Goroutine F) (ys : List (Goroutine F))
      → s.goroutines ≡ xs ++ (g ∷ ys)
      → sum to_go s.goroutines ≡ sum to_go xs + (to_go g + sum to_go ys)
  sum-to_go s xs g ys e = ap (sum to_go) e ∙ sum-append to_go xs (g ∷ ys)

  Step-counts :
      {s t : System F} (fs : List F) → Step s t → IsSound fs s → all_to_go s ≡ all_to_go t + 1
  unfolding to_go main_to_go all_to_go
  Step-counts {s} fs (adds {f} {fs = rest} e) v = let m = ap main_to_go e in omega (arith, m)
  Step-counts {s} fs (goes {f} e) v =
      let m = ap main_to_go e in
      let d = sum-append to_go s.goroutines (running f ∷ []) in omega (arith, m, d)
  Step-counts {s} fs (waits e) v = let m = ap main_to_go e in omega (arith, m)
  Step-counts {s} fs (quits e z) v = let m = ap main_to_go e in omega (arith, m)
  Step-counts {s} fs (returns xs f ys e) v =
      let c = sum-to_go s xs (running f) ys e in
      let b = sum-append to_go xs (before_done f ∷ ys) in omega (arith, b, c)
  Step-counts {s} fs (done xs f ys e ne) v =
      let c = sum-to_go s xs (before_done f) ys e in
      let b = sum-append to_go xs (ended f ∷ ys) in omega (arith, b, c)
  Step-counts {s} fs (panics xs f ys e z) v =
      let c = v.counted ∙ ap (λ gs. sum unfinished gs + held s.main) e in
      let a = sum-append unfinished xs (before_done f ∷ ys) in absurd (omega (arith, a, c, z))

  Reach-counts :
      (fs : List F) {k : ℕ} {s : System F}
      → Reach (init fs) k s
      → k + all_to_go s ≡ 4 * length fs + 2
  unfolding all_to_go main_to_go
  Reach-counts fs start = omega arith
  Reach-counts fs (later run step) =
      let ih = Reach-counts fs run in
      let one = Step-counts fs step (Reach-IsSound fs run) in omega (arith, ih, one)

  -- a goroutine that has not ended, where it stands
  data Unended (gs : List (Goroutine F)) : Type 0 where
    still_runs :
        (xs : List (Goroutine F)) (f : F) (ys : List (Goroutine F))
        → gs ≡ xs ++ (running f ∷ ys)
        → Unended gs
    has_returned :
        (xs : List (Goroutine F)) (f : F) (ys : List (Goroutine F))
        → gs ≡ xs ++ (before_done f ∷ ys)
        → Unended gs

  past : (g : Goroutine F) {gs : List (Goroutine F)} → Unended gs → Unended (g ∷ gs)
  past g (still_runs xs f ys e) = still_runs (g ∷ xs) f ys (ap (λ hs. g ∷ hs) e)
  past g (has_returned xs f ys e) = has_returned (g ∷ xs) f ys (ap (λ hs. g ∷ hs) e)

  unfinished-Unended : (gs : List (Goroutine F)) → sum unfinished gs ≢ 0 → Unended gs
  unfinished-Unended [] ne = absurd (ne refl)
  unfinished-Unended (running f ∷ gs) ne = still_runs [] f gs refl
  unfinished-Unended (before_done f ∷ gs) ne = has_returned [] f gs refl
  unfinished-Unended (ended f ∷ gs) ne =
      past (ended f) (unfinished-Unended gs (λ z. ne (omega (arith, z))))

  CanStep : System F → Type 0
  CanStep s = (t : System F) × Step s t

  Unended-CanStep : (s : System F) → s.counter ≢ 0 → Unended s.goroutines → CanStep s
  unfolding CanStep
  Unended-CanStep s ne (still_runs xs f ys e) =
      (record s { goroutines = xs ++ (before_done f ∷ ys) }, returns xs f ys e)
  Unended-CanStep s ne (has_returned xs f ys e) =
      (record s { counter = s.counter - 1; goroutines = xs ++ (ended f ∷ ys) }, done xs f ys e ne)

  main-CanStep :
      (s : System F) (m : Main F)
      → s.main ≡ m
      → m ≢ quit
      → s.counter ≡ sum unfinished s.goroutines + held m
      → CanStep s
  unfolding CanStep
  main-CanStep s (starting []) e ne c = (record s { main = waiting }, waits e)
  main-CanStep s (starting (f ∷ fs)) e ne c =
      (record s { main = added f fs; counter = s.counter + 1 }, adds e)
  main-CanStep s (added f fs) e ne c =
      (record s { main = starting fs; goroutines = s.goroutines ++ (running f ∷ []) }, goes e)
  main-CanStep s waiting e ne c = elim (ℕ_discrete s.counter 0) [
    | yes z ↦ (record s { main = quit }, quits e z)
    | no nz ↦ Unended-CanStep s nz (unfinished-Unended s.goroutines (λ z. nz (omega (arith, c, z))))
  ]
  main-CanStep s quit e ne c = absurd (ne refl)

  to_go-quit : (m : Main F) → main_to_go m ≡ 0 → m ≡ quit
  unfolding main_to_go
  to_go-quit (starting fs) e = absurd (omega arith)
  to_go-quit (added f fs) e = absurd (omega arith)
  to_go-quit waiting e = absurd (omega arith)
  to_go-quit quit e = refl

  -- Where every callback returns in the end, `Wait` does: after 4 * n + 2 steps for n callbacks it has
  -- returned, no run is longer, and before that a step is possible.
  pub Reach-quits :
      (fs : List F) (k : ℕ) (s : System F)
      → Reach (init fs) k s
      → (k ≤ 4 * length fs + 2)
        × (k ≡ 4 * length fs + 2 → s.main ≡ quit)
        × (s.main ≢ quit → (t : System F) × Step s t)
  unfolding CanStep all_to_go
  Reach-quits fs k s run =
      let n = Reach-counts fs run in
      let v = Reach-IsSound fs run in
      (
        omega (arith, n),
        λ e. to_go-quit s.main (omega (arith, n, e)),
        λ ne. main-CanStep s s.main refl ne v.counted,
      )
