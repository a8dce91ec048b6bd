-- ===== src/Server/Run.antt =====
-- server.go: `Run` of `LIMNet`, which starts its event loops in goroutines and waits for them. What
-- the timing wheel and the HTTP server do is left out.
mod Examples
use limnet.Base.{
  ℕ, ◌+◌, ◌*◌, ◌≤◌, ◌≡◌, ◌≢◌, false, List, [], ◌∷◌, ◌++◌, map, length, length-append, arith, subst,
  sym, ◌∙◌, refl,
}
use limnet.Server.{Server}
use limnet.WaitGroup.{System, init, ended, quit, Step, Reach}
use limnet.WaitGroup.Waiting.{Reach-waits}
use limnet.WaitGroup.Progress.{Reach-quits}

module _ {L : Type 0} where
  -- The callbacks of `Run`: `Run` of each loop of the connections, and that of `listenerLoop`.
  unfoldable pub run_loops : Server L → L → List L
  run_loops s listener_loop = s.connect_loops ++ (listener_loop ∷ [])

  abbrev pub run : Server L → L → System L
  run s listener_loop = init (run_loops s listener_loop)

  -- `Run` returns only when every event loop has stopped: however the goroutines go on, no `Done`
  -- panics, and once `Wait` has returned each loop of the connections and the listener's loop had a
  -- goroutine of its own, which has returned from the loop's `Run`.
  pub run-waits :
      (s : Server L) (listener_loop : L) (k : ℕ) (t : System L)
      → Reach (run s listener_loop) k t
      → (t.panicked ≡ false)
        × (t.main ≡ quit → t.goroutines ≡ map ended (s.connect_loops ++ (listener_loop ∷ [])))
  unfolding run_loops
  run-waits s listener_loop k t r = Reach-waits (run_loops s listener_loop) k t r

  -- `Run` does return, where every event loop stops in the end: with n loops of connections no run of
  -- the goroutines has more than 4 * n + 6 steps, after as many `Wait` has returned, and until it has
  -- some goroutine can make a step.
  pub run-quits :
      (s : Server L) (listener_loop : L) (k : ℕ) (t : System L)
      → Reach (run s listener_loop) k t
      → (k ≤ 4 * length s.connect_loops + 6)
        × (k ≡ 4 * length s.connect_loops + 6 → t.main ≡ quit)
        × (t.main ≢ quit → (u : System L) × Step t u)
  unfolding run_loops
  run-quits s listener_loop k t r =
      let (most, over, goes_on) = Reach-quits (run_loops s listener_loop) k t r in
      let n = length-append s.connect_loops (listener_loop ∷ []) in
      (omega (arith, most, n), λ e. over (omega (arith, e, n)), goes_on)
