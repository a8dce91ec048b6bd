-- ===== src/EventLoop/Run/Examples.antt =====
-- A loop with two jobs, whose handler pushes another, gets an event and a wake-up.
use limnet.Base.{ℕ, refl, Bool, true, some, List, [], ◌∷◌, ◌++◌, ◌==◌, append-nil, sym}
use limnet.PollLoop.{Source, Waited, ready}
use limnet.EventLoop.Run.{Turn, RunHost, State, run_round}
use limnet.EventLoop.Run.Executes.{JobLog, Executed, run_round-Executed}

-- The world is the jobs executed and the jobs pushed.
abbrev Logs : Type 0
Logs = List ℕ × List ℕ

abbrev Numbers : Type 0
Numbers = Turn ℕ ℕ Logs

abbrev pushing : RunHost ℕ ℕ Logs
pushing = record {
  handle = λ h fd events s. (
    s.0,
    record s.1 { jobs = s.1.jobs ++ (h ∷ []); world = (s.1.world.0, s.1.world.1 ++ (h ∷ [])) },
  );
  do_job = λ job s. (s.0, record s.1 { world = (s.1.world.0 ++ (job ∷ []), s.1.world.1) });
}

abbrev zero_wakes : Source ℕ Numbers
zero_wakes = record { is_wake = λ e. e == 0; fd_of = λ e. e; events_of = λ e. 1; drain = λ t. t }

abbrev numbers_log : JobLog pushing zero_wakes
numbers_log = record {
  executed = λ w. w.0;
  pushed = λ w. w.1;
  handle_lem = λ h fd events s. (refl, h ∷ [], refl, refl);
  do_job_lem = λ job s. (refl, [], sym (append-nil s.1.jobs), sym (append-nil s.1.world.1));
  drain_lem = λ t. (refl, refl, refl);
}

abbrev two_jobs : Numbers
two_jobs = record { handlers = λ fd. some 8; jobs = 5 ∷ 6 ∷ []; world = ([], 5 ∷ 6 ∷ []) }

abbrev event_and_wake : ℕ → State pushing → Waited ℕ × Bool × Numbers
event_and_wake len s = (ready (7 ∷ 0 ∷ []), s.0, s.1)

run_round-Executed_example :
    let o = run_round pushing zero_wakes event_and_wake 4 (true, two_jobs) in
    Executed pushing zero_wakes numbers_log (true, two_jobs) (o.1, o.2)
run_round-Executed_example =
    run_round-Executed pushing zero_wakes numbers_log event_and_wake 4 (true, two_jobs) (7 ∷ 0 ∷ [])
      true two_jobs refl (λ e. cc)
