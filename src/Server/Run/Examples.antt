-- ===== src/Server/Run/Examples.antt =====
-- A server with one loop for its connections, from the start of `Run` to its end.
use limnet.Base.{ℕ, ◌+◌, ◌*◌, ◌≤◌, ◌≡◌, ◌≢◌, refl, false, [], ◌∷◌, ◌++◌, map, length}
use limnet.Server.{Server}
use limnet.WaitGroup.{
  System, running, ended, quit, Step, adds, goes, waits, quits, returns, done, Reach, start, later,
}
use limnet.Server.Run.{run, run_loops, run-waits, run-quits}

abbrev one_loop : Server ℕ
one_loop = record { connect_loops = 4 ∷ []; next_loop_index = 0; id_gen = 0 }

abbrev over : System ℕ
over = record { main = quit; counter = 0; goroutines = ended 4 ∷ ended 9 ∷ []; panicked = false }

-- The listener's loop stops first.
one_loop_stops : Reach (run one_loop 9) 10 over
unfolding run_loops
one_loop_stops =
    later
      (later
        (later
          (later
            (later
              (later
                (later (later (later (later start (adds refl)) (goes refl)) (adds refl))
                  (goes refl))
                (returns (running 4 ∷ []) 9 [] refl))
              (waits refl))
            (done (running 4 ∷ []) 9 [] refl (λ e. cc)))
          (returns [] 4 (ended 9 ∷ []) refl))
        (done [] 4 (ended 9 ∷ []) refl (λ e. cc)))
      (quits refl refl)

run-waits_example :
    (over.panicked ≡ false)
    × (over.main ≡ quit → over.goroutines ≡ map ended (one_loop.connect_loops ++ (9 ∷ [])))
run-waits_example = run-waits one_loop 9 10 over one_loop_stops

run-quits_example :
    (10 ≤ 4 * length one_loop.connect_loops + 6)
    × (10 ≡ 4 * length one_loop.connect_loops + 6 → over.main ≡ quit)
    × (over.main ≢ quit → (u : System ℕ) × Step over u)
run-quits_example = run-quits one_loop 9 10 over one_loop_stops
