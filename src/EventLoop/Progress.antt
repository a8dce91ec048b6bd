-- ===== src/EventLoop/Progress.antt =====
-- The loop gets round to the jobs, unless a handler has panicked.
use limnet.Base.{
  ℕ, ◌≡◌, ◌≢◌, refl, true, false, none, Bool, List, [], ◌∷◌, ◌++◌, sym, ap, ◌∙◌, append-nil, arith,
}
use limnet.EventLoop.{
  Place, Loop, Steps, new_loop, own_step, run_on, trigger, handler_panics, polling, in_handler,
  after_handler, read_wake, begin_wake, end_handler, execute_jobs, push, wake_if_idle,
}
use limnet.EventLoop.Wakeup.{
  Awaits, will_check, is_signalled, has_read, handles, will_execute, IsSound, Steps-IsSound,
}

module _ {J : Type 0} where
  -- The queue is empty, all that was pushed has been executed, and the loop waits in the poller.
  pub record IsDone (pushed : List J) (l : Loop J) : Type 0 where
    pub no_jobs : l.jobs ≡ []
    pub all_executed : l.executed ≡ pushed
    pub waits : own_step l ≡ none

  in_order-executed :
      (l : Loop J) → l.executed ++ l.jobs ≡ l.pushed → l.jobs ≡ [] → l.executed ≡ l.pushed
  in_order-executed l e z = sym (append-nil l.executed) ∙ ap (λ t. l.executed ++ t) (sym z) ∙ e

  -- the state of a loop, field by field
  abbrev loop_of : List J → Bool → ℕ → Bool → Bool → Place → List J → List J → Loop J
  loop_of jobs event_handling checks signalled wake place pushed executed = record {
    jobs = jobs;
    event_handling = event_handling;
    checks = checks;
    signalled = signalled;
    wake = wake;
    place = place;
    pushed = pushed;
    executed = executed;
  }

  run_on-fields :
      (jobs : List J) (e : Bool) (c : ℕ) (signalled wake : Bool) (place : Place)
      (pushed executed : List J)
      → executed ++ jobs ≡ pushed
      → (place ≡ polling → signalled ≡ false → wake ≡ false → jobs ≡ [])
      → IsDone pushed (run_on 6 (loop_of jobs e c signalled wake place pushed executed))
  unfolding run_on own_step read_wake begin_wake end_handler execute_jobs
  run_on-fields jobs e c false false polling pushed executed o h = record {
    no_jobs = h refl refl refl;
    all_executed =
        in_order-executed (loop_of jobs e c false false polling pushed executed) o
          (h refl refl refl);
    waits = refl;
  }
  run_on-fields jobs e c false true polling pushed executed o h = record {
    no_jobs = refl;
    all_executed = o;
    waits = refl;
  }
  run_on-fields jobs e c true wake polling pushed executed o h = record {
    no_jobs = refl;
    all_executed = o;
    waits = refl;
  }
  run_on-fields jobs e c false false in_handler pushed executed o h = record {
    no_jobs = refl;
    all_executed = o;
    waits = refl;
  }
  run_on-fields jobs e c false true in_handler pushed executed o h = record {
    no_jobs = refl;
    all_executed = append-nil (executed ++ jobs) ∙ o;
    waits = refl;
  }
  run_on-fields jobs e c true wake in_handler pushed executed o h = record {
    no_jobs = refl;
    all_executed = append-nil (executed ++ jobs) ∙ o;
    waits = refl;
  }
  run_on-fields jobs e c false false after_handler pushed executed o h = record {
    no_jobs = refl;
    all_executed = o;
    waits = refl;
  }
  run_on-fields jobs e c false true after_handler pushed executed o h = record {
    no_jobs = refl;
    all_executed = append-nil (executed ++ jobs) ∙ o;
    waits = refl;
  }
  run_on-fields jobs e c true wake after_handler pushed executed o h = record {
    no_jobs = refl;
    all_executed = append-nil (executed ++ jobs) ∙ o;
    waits = refl;
  }

  nil_of_not-ne : (xs : List J) → (xs ≢ [] → ⊥) → xs ≡ []
  nil_of_not-ne [] h = refl
  nil_of_not-ne (x ∷ xs) h = absurd (h (λ e. cc))

  -- Whatever a run has come to, where every goroutine that has called `Trigger` has come back and no
  -- descriptor has an event, the loop executes all the jobs, in the order in which they were pushed,
  -- within six steps of its own, and then waits in the poller.
  pub run_on-IsDone : (l : Loop J) → Steps new_loop l → l.checks ≡ 0 → IsDone l.pushed (run_on 6 l)
  run_on-IsDone l steps c =
      run_on-fields l.jobs l.event_handling l.checks l.signalled l.wake l.place l.pushed l.executed
        v.in_order idle
    where
      v : IsSound l
      v = Steps-IsSound l steps

      nobody : l.place ≡ polling → l.signalled ≡ false → l.wake ≡ false → Awaits l → ⊥
      nobody p s w (will_check h) = omega arith
      nobody p s w (is_signalled h) = cc
      nobody p s w (has_read h) = cc
      nobody p s w (handles h) = cc
      nobody p s w (will_execute h) = cc

      idle : l.place ≡ polling → l.signalled ≡ false → l.wake ≡ false → l.jobs ≡ []
      idle p s w = nil_of_not-ne l.jobs (λ ne. nobody p s w (v.awaited ne))

  -- After a handler has panicked, where the poller has not been woken, a job that is triggered waits
  -- behind the others, and the loop waits in the poller.
  pub handler_panics-stalls :
      (l : Loop J) (job : J)
      → l.event_handling ≡ true
      → l.signalled ≡ false
      → l.wake ≡ false
      → ((trigger job (handler_panics l)).jobs ≡ l.jobs ++ (job ∷ []))
        × (own_step (trigger job (handler_panics l)) ≡ none)
  unfolding trigger handler_panics own_step push wake_if_idle
  handler_panics-stalls l job e s w = (refl, simp (e, s, w))
