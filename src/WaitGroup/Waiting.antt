-- ===== src/WaitGroup/Waiting.antt =====
-- `Wait` returns when every callback has returned, and no `Done` panics.
use mathlib.Core.List.{map-append}
use limnet.Base.{
  ℕ, ◌+◌, ◌≡◌, refl, sym, ap, ◌∙◌, false, List, [], ◌∷◌, ◌++◌, map, append_assoc, append-nil, sum,
  sum-append, arith,
}
use limnet.WaitGroup.{
  Main, starting, added, waiting, quit, Goroutine, running, before_done, ended, System, init, Step,
  adds, goes, waits, quits, returns, done, panics, Reach, start, later,
}

module _ {F : Type 0} where
  abbrev pub fn : Goroutine F → F
  fn (running f) = f
  fn (before_done f) = f
  fn (ended f) = f

  -- one for a goroutine whose `Done` is to come
  abbrev pub unfinished : Goroutine F → ℕ
  unfinished (running f) = 1
  unfinished (before_done f) = 1
  unfinished (ended f) = 0

  -- one between `Add` and `go`
  abbrev pub held : Main F → ℕ
  held (starting fs) = 0
  held (added f fs) = 1
  held waiting = 0
  held quit = 0

  abbrev pub left : Main F → List F
  left (starting fs) = fs
  left (added f fs) = f ∷ fs
  left waiting = []
  left quit = []

  pub record IsSound (fs : List F) (s : System F) : Type 0 where
    pub sane : s.panicked ≡ false
    pub counted : s.counter ≡ sum unfinished s.goroutines + held s.main
    pub in_order : map fn s.goroutines ++ left s.main ≡ fs
    pub over : s.main ≡ quit → s.counter ≡ 0

  fns_kept :
      (xs : List (Goroutine F)) (g h : Goroutine F) (ys : List (Goroutine F))
      → fn g ≡ fn h
      → map fn (xs ++ (g ∷ ys)) ≡ map fn (xs ++ (h ∷ ys))
  fns_kept [] g h ys e = ap (λ f. f ∷ map fn ys) e
  fns_kept (x ∷ xs) g h ys e = ap (λ fs. fn x ∷ fs) (fns_kept xs g h ys e)

  pub Step-IsSound : {s t : System F} (fs : List F) → Step s t → IsSound fs s → IsSound fs t
  Step-IsSound {s} fs (adds e) v = record {
    sane = v.sane;
    counted =
        let c = v.counted ∙ ap (λ m. sum unfinished s.goroutines + held m) e in omega (arith, c);
    in_order = ap (λ m. map fn s.goroutines ++ left m) (sym e) ∙ v.in_order;
    over = λ q. absurd (cc);
  }
  Step-IsSound {s} fs (goes {f} {fs = rest} e) v = record {
    sane = v.sane;
    counted =
        let c = v.counted ∙ ap (λ m. sum unfinished s.goroutines + held m) e in
        let d = sum-append unfinished s.goroutines (running f ∷ []) in omega (arith, c, d);
    in_order =
        ap (λ gs. gs ++ rest) (map-append fn s.goroutines (running f ∷ []))
        ∙ append_assoc (map fn s.goroutines) (f ∷ []) rest
        ∙ ap (λ m. map fn s.goroutines ++ left m) (sym e)
        ∙ v.in_order;
    over = λ q. absurd (cc);
  }
  Step-IsSound {s} fs (waits e) v = record {
    sane = v.sane;
    counted = v.counted ∙ ap (λ m. sum unfinished s.goroutines + held m) e;
    in_order = ap (λ m. map fn s.goroutines ++ left m) (sym e) ∙ v.in_order;
    over = λ q. absurd (cc);
  }
  Step-IsSound {s} fs (quits e z) v = record {
    sane = v.sane;
    counted = v.counted ∙ ap (λ m. sum unfinished s.goroutines + held m) e;
    in_order = ap (λ m. map fn s.goroutines ++ left m) (sym e) ∙ v.in_order;
    over = λ q. z;
  }
  Step-IsSound {s} fs (returns xs f ys e) v = record {
    sane = v.sane;
    counted =
        let c = v.counted ∙ ap (λ gs. sum unfinished gs + held s.main) e in
        let a = sum-append unfinished xs (running f ∷ ys) in
        let b = sum-append unfinished xs (before_done f ∷ ys) in omega (arith, a, b, c);
    in_order =
        ap (λ gs. gs ++ left s.main)
          (fns_kept xs (before_done f) (running f) ys refl ∙ ap (map fn) (sym e))
        ∙ v.in_order;
    over = v.over;
  }
  Step-IsSound {s} fs (done xs f ys e ne) v = record {
    sane = v.sane;
    counted =
        let c = v.counted ∙ ap (λ gs. sum unfinished gs + held s.main) e in
        let a = sum-append unfinished xs (before_done f ∷ ys) in
        let b = sum-append unfinished xs (ended f ∷ ys) in omega (arith, a, b, c);
    in_order =
        ap (λ gs. gs ++ left s.main)
          (fns_kept xs (ended f) (before_done f) ys refl ∙ ap (map fn) (sym e))
        ∙ v.in_order;
    over = λ q. absurd (ne (v.over q));
  }
  Step-IsSound {s} fs (panics xs f ys e z) v =
      let c = v.counted ∙ ap (λ gs. sum unfinished gs + held s.main) e in
      let a = sum-append unfinished xs (before_done f ∷ ys) in absurd (omega (arith, a, c, z))

  pub Reach-IsSound : (fs : List F) {k : ℕ} {s : System F} → Reach (init fs) k s → IsSound fs s
  Reach-IsSound fs start = record { sane = refl; counted = refl; in_order = refl; over = λ q. refl }
  Reach-IsSound fs (later run step) = Step-IsSound fs step (Reach-IsSound fs run)

  all_ended : (gs : List (Goroutine F)) → sum unfinished gs ≡ 0 → gs ≡ map ended (map fn gs)
  all_ended [] z = refl
  all_ended (running f ∷ gs) z = absurd (omega arith)
  all_ended (before_done f ∷ gs) z = absurd (omega arith)
  all_ended (ended f ∷ gs) z = ap (λ hs. ended f ∷ hs) (all_ended gs (omega arith))

  -- However the goroutines go on, no `Done` panics, and once `Wait` has returned there was a goroutine
  -- for each callback, in their order, and each has returned from its callback.
  pub Reach-waits :
      (fs : List F) (k : ℕ) (s : System F)
      → Reach (init fs) k s
      → (s.panicked ≡ false) × (s.main ≡ quit → s.goroutines ≡ map ended fs)
  Reach-waits fs k s run =
      let v = Reach-IsSound fs run in
      (
        v.sane,
        λ q.
            all_ended s.goroutines (let c = v.counted in let z = v.over q in omega (arith, c, z))
            ∙ ap (map ended) (
                sym (append-nil (map fn s.goroutines))
                ∙ ap (λ m. map fn s.goroutines ++ left m) (sym q)
                ∙ v.in_order),
      )
