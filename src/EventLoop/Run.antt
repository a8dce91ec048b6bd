-- ===== src/EventLoop/Run.antt =====
-- pkg/eventloop/eventloop.go: `Run`, which is `Poll` of the poller with the whole of `handleEvent`, on
-- the loop's goroutine: the lookup of the handler, the handler, and then `ExecuteJobs`. What other
-- goroutines do meanwhile, a `Trigger` or the poller's `Close`, is in the functions that wait, handle
-- and do a job. No handler and no job panics.
pub mod Executes
mod Examples
use limnet.Base.{ℕ, Bool, Option, none, some, List, [], ◌∷◌}
use limnet.Base.Int.{ℤ, pos, negsuc}
use limnet.PollLoop.{Source, Waited, poll_round, poll}

-- What the loop's goroutine works on: the map of the handlers, the queue of the jobs, and the rest.
pub record Turn (H J World : Type 0) : Type 0 where
  pub handlers : ℕ → Option H
  pub jobs : List J
  pub world : World

-- `handle` is the handler's `Handle`, and `do_job` calls a job; the Boolean is the poller's `running`.
pub record RunHost (H J World : Type 0) : Type 0 where
  pub handle : H → ℕ → ℕ → Bool × Turn H J World → Bool × Turn H J World
  pub do_job : J → Bool × Turn H J World → Bool × Turn H J World

module _ {H J World : Type 0} (host : RunHost H J World) where
  abbrev pub State : Type 0
  State = Bool × Turn H J World

  abbrev pub call_handler : Option H → ℕ → ℕ → State → State
  call_handler none fd events s = s
  call_handler (some h) fd events s = host.handle h fd events s

  -- -1 is a wake-up.
  abbrev pub look_up : ℤ → ℕ → State → State
  look_up (negsuc n) events s = s
  look_up (pos fd) events s = call_handler (s.1.handlers fd) fd events s

  -- the loop of `ExecuteJobs`, over the jobs that it has taken out of the queue
  abbrev pub do_jobs : List J → State → State
  do_jobs [] s = s
  do_jobs (job ∷ jobs) s = do_jobs jobs (host.do_job job s)

  unfoldable pub execute_jobs : State → State
  execute_jobs (running, t) = do_jobs t.jobs (running, record t { jobs = [] })

  unfoldable pub handle_event : ℤ → ℕ → State → State
  handle_event fd events s = execute_jobs (look_up fd events s)

  module _ {E : Type 0} (source : Source E (Turn H J World))
      (wait : ℕ → State → Waited E × Bool × Turn H J World) where
    -- a round of `Poll` in `Run`, with a buffer for so many events
    unfoldable pub run_round : ℕ → State → Option ℕ × Bool × Turn H J World
    run_round len s = poll_round source handle_event wait len s

    -- at most so many rounds
    unfoldable pub run : ℕ → Turn H J World → Option ℕ × Bool × Turn H J World
    run fuel t = poll source handle_event wait fuel t
