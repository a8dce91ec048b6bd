-- ===== src/Epoll/Examples.antt =====
-- A kernel with three descriptors open, and a poller on it.
use limnet.Base.{
  ℕ, suc, ◌≡◌, refl, Bool, true, false, not, ◌&&◌, ◌||◌, Option, none, some, List, [], ◌∷◌, ◌++◌,
  ltb, ◌==◌, if◌then◌else◌, Bool-cases, inl, inr, ◌↔◌, length, ◌*◌,
}
use limnet.Base.Int.{ℤ}
use limnet.Epoll.{Poller, Kernel, Opens, EpollEvent, create, close, r_events, epoll_source}
use limnet.Epoll.Descriptors.{Closes, create-close}
use limnet.PollLoop.{Waited, ready, poll_round}
use limnet.PollLoop.Dispatch.{Logs, calls, signals, poll_round-calls}

-- `next` is the descriptor that the kernel tries, `calls` the calls of the handler.
record Machine : Type 0 where
  pub open_fd : ℕ → Bool
  pub next : ℕ
  pub called : List (ℤ × ℕ)

abbrev open_next : Machine → Option ℕ × Machine
open_next w =
    if w.open_fd w.next
    then (none, w)
    else (some w.next, record w { open_fd = λ x. (x == w.next) || w.open_fd x; next = suc w.next })

open_next_lem : (w : Machine) → Opens w.open_fd (open_next w).0 (open_next w).1.open_fd
open_next_lem w = elim (Bool-cases (w.open_fd w.next)) [
  | inl q ↦ rw q (λ x. refl)
  | inr q ↦ rw q (q, λ x. refl)
]

abbrev machine : Kernel
machine = record {
  World = Machine;
  is_open = λ w. w.open_fd;
  epoll_create = open_next;
  new_event_fd = open_next;
  epoll_ctl = λ op w. (false, w);
  close_fd = λ fd w. record w { open_fd = λ x. not (x == fd) && w.open_fd x };
  write_event_fd = λ fd w. (false, w);
  read_event_fd = λ fd w. w;
  await_done = λ w. w;
  epoll_create_lem = open_next_lem;
  new_event_fd_lem = open_next_lem;
  epoll_ctl_lem = λ op w x. refl;
  close_fd_lem = λ fd w x. refl;
  await_done_lem = λ w x. refl;
  write_event_fd_lem = λ fd w x. refl;
}

abbrev booted : Machine
booted = record { open_fd = λ x. ltb x 3; next = 3; called = [] }

abbrev made : Machine
made = record { open_fd = λ x. (x == 4) || ((x == 3) || ltb x 3); next = 5; called = [] }

abbrev poller : Poller
poller = record { fd = 3; event_fd = 4 }

created : create machine booted ≡ (some poller, made)
unfolding create limnet.Epoll.after_create limnet.Epoll.after_event_fd limnet.Epoll.add_event_fd
created = refl

create-close_example :
    let r = close machine poller (true, made) in
    Closes machine booted.open_fd made.open_fd r.2.open_fd poller r
create-close_example = create-close machine booted made made poller created (λ x. refl)

abbrev log_call : ℤ → ℕ → Bool × Machine → Bool × Machine
log_call fd events (running, w) = (running, record w { called = w.called ++ ((fd, events) ∷ []) })

call_log : Logs (epoll_source machine poller) log_call
unfolding epoll_source
call_log = record { log = λ w. w.called; handler_lem = λ fd events s. refl; drain_lem = λ w. refl }

-- data on descriptor 7, and a wake-up
abbrev two_events : List EpollEvent
two_events = record { events = 1; fd = 7 } ∷ record { events = 1; fd = 4 } ∷ []

abbrev give_two : ℕ → Bool × Machine → Waited EpollEvent × Bool × Machine
give_two len (running, w) = (ready two_events, running, w)

poll_round-calls_example :
    let r = poll_round (epoll_source machine poller) log_call give_two 1024 (false, made) in
    (call_log.log r.2 ≡ call_log.log made ++ calls (epoll_source machine poller) two_events)
    × ((r.0 ≡ none) ↔ ((signals (epoll_source machine poller) two_events ≡ true) × (r.1 ≡ false)))
    × ((next : ℕ)
        → r.0 ≡ some next
        → next ≡ (if length two_events == 1024 then length two_events * 2 else 1024))
poll_round-calls_example =
    poll_round-calls (epoll_source machine poller) log_call call_log give_two 1024 (false, made)
      two_events false made refl
