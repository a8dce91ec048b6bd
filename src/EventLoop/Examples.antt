-- ===== src/EventLoop/Examples.antt =====
-- A job that is pushed while the loop polls.
use limnet.Base.{ℕ, refl, ◌≡◌, ◌≢◌, ◌++◌, List, [], ◌∷◌, none, false}
use limnet.EventLoop.Handlers.{LoopPoller, Bound}
use limnet.EventLoop.{
  Loop, new_loop, push, wake_if_idle, read_wake, Steps, start, and_then, triggers, checks_flag,
  reads_wake, run_on, begin_event, job_panics,
}
use limnet.EventLoop.Progress.{IsDone, run_on-IsDone}
use limnet.EventLoop.Panics.{job_panics-loses}
use limnet.EventLoop.Wakeup.{Awaits, Steps-Awaits}

abbrev woken : Loop ℕ
woken = read_wake (wake_if_idle 0 (push 7 new_loop))

run : Steps new_loop woken
unfolding push wake_if_idle read_wake
run = and_then (and_then (and_then start (triggers 7)) (checks_flag 0 refl)) (reads_wake refl refl)

Steps-Awaits_example :
    (woken.executed ++ woken.jobs ≡ woken.pushed) × (woken.jobs ≢ [] → Awaits woken)
Steps-Awaits_example = Steps-Awaits woken run

run_on-IsDone_example : IsDone (7 ∷ []) (run_on 6 woken)
unfolding push wake_if_idle read_wake
run_on-IsDone_example = run_on-IsDone woken run refl

-- a loop in a handler
abbrev busy : Loop ℕ
busy = begin_event new_loop

-- Handlers are numbers; the world is the handlers that events have gone to.
abbrev logged : LoopPoller ℕ
logged = record {
  World = List ℕ;
  add_read = λ fd w. (false, w);
  del = λ fd w. (false, w);
  close = λ w. (false, w);
  handle = λ h fd events s. (s.0, h ∷ s.1);
  close_handler = λ h w. w;
}

abbrev no_handlers : Bound logged
no_handlers = ((λ x. none), [])

-- a loop with three jobs, and one that is pushed after the second has panicked
abbrev three_jobs : Loop ℕ
three_jobs = record (new_loop {J = ℕ}) { jobs = 5 ∷ 6 ∷ 7 ∷ []; pushed = 5 ∷ 6 ∷ 7 ∷ [] }

abbrev goes_on : Loop ℕ
goes_on = push 8 (job_panics 1 three_jobs)

job_panics-loses_example :
    (later : List ℕ) × (goes_on.pushed ≡ three_jobs.pushed ++ later)
    × (goes_on.executed ++ goes_on.jobs ≡ three_jobs.executed ++ ((5 ∷ []) ++ (6 ∷ later)))
job_panics-loses_example =
    job_panics-loses three_jobs goes_on (5 ∷ []) 6 (7 ∷ []) refl (and_then start (triggers 8))
