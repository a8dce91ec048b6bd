-- ===== src/Kqueue/Examples.antt =====
-- A kernel that does as it is told.
use limnet.Base.{
  ℕ, ◌≡◌, ◌≢◌, refl, Bool, true, false, not, ◌&&◌, ◌||◌, Option, none, some, ltb, ◌==◌,
  if◌then◌else◌, inl, inr, Bool-cases,
}
use limnet.RingBuffer.Examples.{plain, bent}
use limnet.Conn.Examples.{echo, busy, net}
use limnet.Conn.Tcp.{handle_close}
use limnet.Conn.Events.{handle, default_un_packet}
use limnet.Epoll.{Opens}
use limnet.Kqueue.Waiting.{Kernel, KqueueEvent, read_filter, r_events, create, close}
use limnet.Kqueue.Leak.{create-leaks}
use limnet.Kqueue.Eof.{handle-kevent}
use Prim.Native.Nat.{bit_or}
use limnet.Kqueue.{Watched, Kevent, add_read, enable, k_events, event_read, event_write}
use limnet.Kqueue.Changes.{apply, enable-keeps_stored}

abbrev obeys : Kevent
obeys cs f = (false, apply cs f)

abbrev unseen : Watched
unseen = record { stored = none; filters = record { read = false; write = false } }

enable-keeps_stored_example :
    (a b c : Watched) × (add_read obeys unseen ≡ (false, a))
    × (enable obeys (bit_or event_write event_read) a ≡ (false, b))
    × (enable obeys event_read b ≡ (false, c))
    × (b.stored ≡ some event_read)
    × (c.stored ≡ some event_read)
    × (c.filters ≡ record { read = true; write = true })
enable-keeps_stored_example = enable-keeps_stored obeys unseen (λ cs f. refl)

-- A kernel whose world is the open descriptors; it opens 3, and refuses the wake-up or not.
abbrev open_three : (ℕ → Bool) → Option ℕ × (ℕ → Bool)
open_three w = if w 3 then (none, w) else (some 3, λ x. (x == 3) || w x)

open_three_lem : (w : ℕ → Bool) → Opens w (open_three w).0 (open_three w).1
open_three_lem w = elim (Bool-cases (w 3)) [
  | inl q ↦ rw q (λ x. refl)
  | inr q ↦ rw q (q, λ x. refl)
]

abbrev kernel_that : Bool → Kernel
kernel_that refuses = record {
  World = ℕ → Bool;
  is_open = λ w. w;
  kqueue = open_three;
  add_user = λ fd w. (refuses, w);
  trigger_user = λ fd w. (false, w);
  close_fd = λ fd w x. not (x == fd) && w x;
  await_done = λ w. w;
  kqueue_lem = open_three_lem;
  add_user_lem = λ fd w x. refl;
  trigger_user_lem = λ fd w x. refl;
  close_fd_lem = λ fd w x. refl;
  await_done_lem = λ w x. refl;
}

abbrev standard : ℕ → Bool
standard x = ltb x 3

abbrev with_three : ℕ → Bool
with_three x = (x == 3) || standard x

create-leaks_example :
    let r = create (kernel_that true) standard in
    (r.0 ≡ none) × (standard 3 ≡ false) × (r.1 3 ≡ true) × ((x : ℕ) → x ≢ 3 → r.1 x ≡ standard x)
create-leaks_example = create-leaks (kernel_that true) standard with_three 3 refl refl

made : create (kernel_that false) standard ≡ (some 3, with_three)
unfolding create limnet.Kqueue.Waiting.after_kqueue
made = refl

-- the end of the stream, on a connection that waits to read
abbrev last_event : KqueueEvent
last_event = record { ident = 7; filter = read_filter; flags = 0x8000 }

handle-kevent_example :
    handle echo (default_un_packet plain) 0 9 (r_events last_event) (busy, net)
    ≡ handle_close echo (busy, net)
handle-kevent_example =
    handle-kevent echo (default_un_packet plain) 0 9 last_event (busy, net) bent refl
