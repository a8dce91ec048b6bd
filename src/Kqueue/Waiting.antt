-- ===== src/Kqueue/Waiting.antt =====
-- pkg/limpoller/kqueue.go: `Create`, `Wake`, `Close` and the events of `Poll`, over the kernel as
-- functions.
use Prim.Native.Nat.{bit_or}
use limnet.Base.{
  ℕ, ◌≡◌, Bool, true, false, not, ◌&&◌, ◌||◌, Option, none, some, ◌==◌, if◌then◌else◌,
}
use limnet.Base.Int.{ℤ}
use limnet.Conn.Events.{event_read, event_write, event_err}
use limnet.Conn.Events.{has}
use limnet.Epoll.{Opens, CloseResult, closed, err_closed, wake_failed}
use limnet.PollLoop.{Source, Waited, rounds, wait_events_begin}

-- `add_user` and `trigger_user` are the kevent(2) of `Create` and of `Wake`, where `true` is an error;
-- `await_done` is `<-p.waitDone`, and `is_open` are the open descriptors.
pub record Kernel : Type 1 where
  pub World : Type 0
  pub is_open : World → ℕ → Bool
  pub kqueue : World → Option ℕ × World
  pub add_user : ℕ → World → Bool × World
  pub trigger_user : ℕ → World → Bool × World
  pub close_fd : ℕ → World → World
  pub await_done : World → World
  pub kqueue_lem : (w : World) → Opens (is_open w) (kqueue w).0 (is_open (kqueue w).1)
  pub add_user_lem : (fd : ℕ) (w : World) (x : ℕ) → is_open (add_user fd w).1 x ≡ is_open w x
  pub trigger_user_lem :
      (fd : ℕ) (w : World) (x : ℕ) → is_open (trigger_user fd w).1 x ≡ is_open w x
  pub close_fd_lem :
      (fd : ℕ) (w : World) (x : ℕ) → is_open (close_fd fd w) x ≡ (not (x == fd) && is_open w x)
  pub await_done_lem : (w : World) (x : ℕ) → is_open (await_done w) x ≡ is_open w x

-- EV_ERROR and EV_EOF
abbrev pub ev_error : ℕ
ev_error = 0x4000

abbrev pub ev_eof : ℕ
ev_eof = 0x8000

-- EVFILT_READ, EVFILT_WRITE and EVFILT_USER
pub data Filter : Type 0 where
  read_filter : Filter
  write_filter : Filter
  user_filter : Filter

pub record KqueueEvent : Type 0 where
  pub ident : ℕ
  pub filter : Filter
  pub flags : ℕ

abbrev pub is_write : Filter → Bool
is_write write_filter = true
is_write f = false

abbrev pub is_read : Filter → Bool
is_read read_filter = true
is_read f = false

-- the `rEvents` that `Poll` hands on
unfoldable pub r_events : KqueueEvent → ℕ
r_events e =
    bit_or
      (bit_or (if has e.flags ev_error || has e.flags ev_eof then event_err else 0)
        (if is_write e.filter then event_write else 0))
      (if is_read e.filter then event_read else 0)

-- the events of `Poll`, where the identifier 0 is the wake-up
unfoldable pub kqueue_source : {W : Type 0} → Source KqueueEvent W
kqueue_source = record {
  is_wake = λ e. e.ident == 0;
  fd_of = λ e. e.ident;
  events_of = λ e. r_events e;
  drain = λ w. w;
}

module _ (kernel : Kernel) where
  open kernel use {World, kqueue, add_user, trigger_user, close_fd, await_done}

  unfoldable pub after_kqueue : Option ℕ × World → Option ℕ × World
  after_kqueue (none, w) = (none, w)
  after_kqueue (some fd, w) = let r = add_user fd w in (if r.0 then none else some fd, r.1)

  -- `Create`, where an error is no poller
  unfoldable pub create : World → Option ℕ × World
  create w = after_kqueue (kqueue w)

  -- `Wake`
  abbrev pub wake : ℕ → World → Bool × World
  wake fd w = trigger_user fd w

  -- `Close`, with `running`, which other goroutines read
  unfoldable pub close : ℕ → Bool × World → CloseResult × Bool × World
  close fd (running, w) =
      if not running
      then (err_closed, running, w)
      else let r = wake fd w in
        if r.0 then (wake_failed, false, r.1) else (closed, false, close_fd fd (await_done r.1))

  -- `Poll`, for so many rounds
  unfoldable pub poll :
      (ℕ → Bool × World → Waited KqueueEvent × Bool × World)
      → (ℤ → ℕ → Bool × World → Bool × World)
      → ℕ
      → World
      → Option ℕ × Bool × World
  poll kevent handler fuel w = rounds kqueue_source handler kevent fuel wait_events_begin (true, w)
