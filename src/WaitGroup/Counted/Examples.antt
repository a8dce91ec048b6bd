-- ===== src/WaitGroup/Counted/Examples.antt =====
-- One callback that is done, while a second is on its way.
use limnet.Base.{ℕ, ◌+◌, ◌≡◌, refl, false, [], ◌∷◌, sum, arith}
use limnet.Base.Int.{pos}
use limnet.WaitGroup.Counted.{
  added, before_count, Wrapper, goroutine_count, adds, counts, goes, returns, done, Reach, start,
  later, undone, alive, in_count, Reach-counts,
}

abbrev one_done : Wrapper ℕ
one_done = record {
  caller = added 6;
  counter = 1;
  count = 1;
  workers = before_count 5 ∷ [];
  panicked = false;
}

reached : Reach one_done
reached =
    later
      (later
        (later (later (later (later start (adds 5 refl)) (counts refl)) (goes refl))
          (returns [] 5 [] refl))
        (done [] 5 [] refl (λ e. cc)))
      (adds 6 refl)

Reach-counts_example :
    (one_done.panicked ≡ false)
    × (goroutine_count one_done ≡ pos (sum alive one_done.workers + in_count one_done.caller))
    × (one_done.counter ≡ 0 → sum undone one_done.workers ≡ 0)
Reach-counts_example = Reach-counts one_done reached (omega arith)
