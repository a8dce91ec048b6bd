-- ===== src/PollLoop.antt =====
-- pkg/limpoller/epoll.go and pkg/limpoller/kqueue.go: `Poll`, whose text is the same in both but for
-- the events that the kernel gives. What other goroutines do while the loop waits or handles is in the
-- functions that wait and handle. Logging is left out.
pub mod Dispatch
use limnet.Base.{
  ℕ, ◌*◌, zero, suc, Bool, true, false, not, ◌&&◌, Option, none, some, List, [], ◌∷◌, ◌==◌,
  if◌then◌else◌, length,
}
use limnet.Base.Int.{ℤ, pos, negsuc}

-- The kernel's events: whether one is a wake-up, which `drain` takes up, and otherwise the descriptor
-- and the events that the handler gets.
pub record Source (E W : Type 0) : Type 0 where
  pub is_wake : E → Bool
  pub fd_of : E → ℕ
  pub events_of : E → ℕ
  pub drain : W → W

-- The results of epoll_wait(2) or kevent(2): events, EINTR, or another error.
pub data Waited (E : Type 0) : Type 0 where
  ready : List E → Waited E
  interrupted : Waited E
  wait_failed : Waited E

abbrev pub wait_events_begin : ℕ
wait_events_begin = 1024

module _ {E W : Type 0} (source : Source E W) (handler : ℤ → ℕ → Bool × W → Bool × W) where
  open source use {is_wake, fd_of, events_of, drain}

  -- `Poll` over its events, with its `wake`
  unfoldable pub for_events : List E → Bool × Bool × W → Bool × Bool × W
  for_events [] s = s
  for_events (e ∷ es) (woken, running, w) =
      let s = handler (pos (fd_of e)) (events_of e) (running, w) in
      for_events es (if is_wake e then (true, running, drain w) else (woken, s.0, s.1))

  -- How a round of `Poll` ends: by going on with a buffer for so many events, or by returning.
  unfoldable pub end_round : ℕ → ℕ → Bool × Bool × W → Option ℕ × Bool × W
  end_round n len (woken, running, w) =
      let s = if woken then handler (negsuc 0) 0 (running, w) else (running, w) in
      (if woken && not s.0 then none else some (if n == len then n * 2 else len), s.0, s.1)

  module _ (wait : ℕ → Bool × W → Waited E × Bool × W) where
    -- a round of `Poll` after its waiting
    unfoldable pub after_wait : ℕ → Waited E × Bool × W → Option ℕ × Bool × W
    after_wait len (wait_failed, running, w) = (some len, running, w)
    after_wait len (interrupted, running, w) = (some len, running, w)
    after_wait len (ready es, running, w) =
        end_round (length es) len (for_events es (false, running, w))

    unfoldable pub poll_round : ℕ → Bool × W → Option ℕ × Bool × W
    poll_round len s = after_wait len (wait len s)

    -- At most so many rounds of `Poll`: `none` where it has returned.
    unfoldable pub rounds : ℕ → ℕ → Bool × W → Option ℕ × Bool × W
    rounds zero len (running, w) = (some len, running, w)
    rounds (suc fuel) len s =
        let r = poll_round len s in
        elim r.0 [ none ↦ (none, r.1, r.2) | some next ↦ rounds fuel next (r.1, r.2) ]

    unfoldable pub poll : ℕ → W → Option ℕ × Bool × W
    poll fuel w = rounds fuel wait_events_begin (true, w)
