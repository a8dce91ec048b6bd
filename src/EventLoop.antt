-- ===== src/EventLoop.antt =====
-- pkg/eventloop/eventloop.go and pkg/eventloop/queue.go: the jobs of an event loop, pushed from any
-- goroutine by `Trigger` and executed on the loop's. A job is of any type; `Push` and the
-- taking of the jobs are one step each, as they hold the spin lock. What a handler or a job does to its
-- connection is not part of it, but each may push jobs. In `Step` no handler and no job panics;
-- `handler_panics` and `job_panics` are what such a panic leaves.
pub mod Wakeup
pub mod Progress
pub mod Panics
pub mod Run
pub mod Handlers
mod Examples
use limnet.Base.{
  Option, none, some, ℕ, suc, zero, Bool, true, false, List, [], ◌∷◌, ◌++◌, ◌≡◌, if◌then◌else◌,
  take,
}

-- Where the loop's goroutine is: in `Poll`; in `handleEvent` with `eventHandling` set; or between
-- its reset and `ExecuteJobs`.
pub data Place : Type 0 where
  polling : Place
  in_handler : Place
  after_handler : Place

-- `jobs` is the queue, `event_handling` the flag, `checks` counts the goroutines in `Trigger`
-- between `Push` and the test of the flag, `signalled` is whether the eventfd has been written and
-- not read, and `wake` is the local of `Poll`. `pushed` and `executed` record the jobs in order.
pub record Loop (J : Type 0) : Type 0 where
  pub jobs : List J
  pub event_handling : Bool
  pub checks : ℕ
  pub signalled : Bool
  pub wake : Bool
  pub place : Place
  pub pushed : List J
  pub executed : List J

module _ {J : Type 0} where
  abbrev pub new_loop : Loop J
  new_loop = record {
    jobs = [];
    event_handling = false;
    checks = 0;
    signalled = false;
    wake = false;
    place = polling;
    pushed = [];
    executed = [];
  }

  -- `Push` in `Trigger`
  unfoldable pub push : J → Loop J → Loop J
  push job l = record l {
    jobs = l.jobs ++ (job ∷ []);
    pushed = l.pushed ++ (job ∷ []);
    checks = suc l.checks;
  }

  -- `if !l.eventHandling.Get() { return l.poller.Wake() }` in `Trigger`
  unfoldable pub wake_if_idle : ℕ → Loop J → Loop J
  wake_if_idle checks l = record l {
    checks = checks;
    signalled = if l.event_handling then l.signalled else true;
  }

  -- `wakeHandlerRead(); wake = true` in `Poll`
  unfoldable pub read_wake : Loop J → Loop J
  read_wake l = record l { signalled = false; wake = true }

  -- `handleEvent` up to the handler, for an event of a descriptor,
  unfoldable pub begin_event : Loop J → Loop J
  begin_event l = record l { event_handling = true; place = in_handler }

  -- and for `handler(-1, 0); wake = false`
  unfoldable pub begin_wake : Loop J → Loop J
  begin_wake l = record l { event_handling = true; place = in_handler; wake = false }

  -- `l.eventHandling.Set(false)`
  unfoldable pub end_handler : Loop J → Loop J
  end_handler l = record l { event_handling = false; place = after_handler }

  -- `ExecuteJobs`
  unfoldable pub execute_jobs : Loop J → Loop J
  execute_jobs l = record l { executed = l.executed ++ l.jobs; jobs = []; place = polling }

  -- `Trigger`, where nothing comes between its two steps
  unfoldable pub trigger : J → Loop J → Loop J
  trigger job l = let m = push job l in wake_if_idle l.checks m

  -- The deferred `recover` of `handleEvent` goes back to `Poll`.
  unfoldable pub handler_panics : Loop J → Loop J
  handler_panics l = record l { place = polling }

  -- `ExecuteJobs`, where the job at this place in the queue panics: the jobs have been taken out of the
  -- queue, the `recover` is that of `handleEvent`, and `executed` gets those that have begun.
  unfoldable pub job_panics : ℕ → Loop J → Loop J
  job_panics i l = record l {
    executed = l.executed ++ take (suc i) l.jobs;
    jobs = [];
    place = polling;
  }

  own_step_at : Place → Loop J → Option (Loop J)
  own_step_at polling l =
      if l.signalled then some (read_wake l) else if l.wake then some (begin_wake l) else none
  own_step_at in_handler l = some (end_handler l)
  own_step_at after_handler l = some (execute_jobs l)

  -- The step that the loop's goroutine takes next where no descriptor has an event: `none` where it
  -- waits in the poller.
  unfoldable pub own_step : Loop J → Option (Loop J)
  unfolding own_step_at
  own_step l = own_step_at l.place l

  -- At most so many such steps.
  unfoldable pub run_on : ℕ → Loop J → Loop J
  run_on zero l = l
  run_on (suc n) l = elim (own_step l) [ none ↦ l | some m ↦ run_on n m ]

  -- Any goroutine may take the first two steps at any time; the loop's takes the others in turn.
  pub data Step (l : Loop J) : Loop J → Type 0 where
    triggers : (job : J) → Step l (push job l)
    checks_flag : (checks : ℕ) → l.checks ≡ suc checks → Step l (wake_if_idle checks l)
    reads_wake : l.place ≡ polling → l.signalled ≡ true → Step l (read_wake l)
    begins_event : l.place ≡ polling → Step l (begin_event l)
    begins_wake : l.place ≡ polling → l.wake ≡ true → Step l (begin_wake l)
    ends_handler : l.place ≡ in_handler → Step l (end_handler l)
    executes : l.place ≡ after_handler → Step l (execute_jobs l)

  pub data Steps (l : Loop J) : Loop J → Type 0 where
    start : Steps l l
    and_then : {m n : Loop J} → Steps l m → Step m n → Steps l n
