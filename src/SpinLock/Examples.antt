-- ===== src/SpinLock/Examples.antt =====
-- Two goroutines push; the second finds the lock taken.
use limnet.Base.{ℕ, ◌≡◌, refl, true, false, [], ◌∷◌, ◌++◌}
use limnet.SpinLock.{
  push, System, Pc, locking, entered, loaded, stored, critical, update, calls, wins, loses, loads,
  stores, init, Reach, start, later, pick,
}
use limnet.SpinLock.Exclusion.{Reach-excludes}
use limnet.SpinLock.Atomicity.{Runs, no_view, view, Reach-Runs}

abbrev both_lock : ℕ → Pc ℕ
both_lock = update (update (System.pc init) 0 (locking (push 7))) 1 (locking (push 8))

abbrev at_work : ℕ → Pc ℕ
at_work = update (update both_lock 0 (entered (push 7))) 0 (loaded (push 7) [])

abbrev first_stored : System ℕ
first_stored = record {
  mem = record { lock = 1; jobs = 7 ∷ []; pushed = 7 ∷ []; taken = [] };
  pc = update (update at_work 1 (locking (push 8))) 0 (stored (push 7) []);
}

reached : Reach first_stored
unfolding native.Mathlib.Decide.ℕ_discrete
reached =
    later
      (later
        (later
          (later (later (later start (pick 0 (calls (push 7)))) (pick 1 (calls (push 8))))
            (pick 0 (wins refl)))
          (pick 0 loads))
        (pick 1 (loses (λ e. cc))))
      (pick 0 stores)

Reach-excludes_example :
    ((i j : ℕ) → critical (first_stored.pc i) ≡ true → critical (first_stored.pc j) ≡ true → i ≡ j)
    × (first_stored.mem.lock ≡ 0 → (i : ℕ) → critical (first_stored.pc i) ≡ false)
Reach-excludes_example = Reach-excludes first_stored reached

Reach-Runs_example :
    Runs no_view (view first_stored.mem)
    × (first_stored.mem.taken ++ first_stored.mem.jobs ≡ first_stored.mem.pushed)
Reach-Runs_example = Reach-Runs first_stored reached
