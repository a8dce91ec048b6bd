-- ===== src/Epoll.antt =====
-- pkg/limpoller/epoll.go: `Create`, `Close`, the methods that change what epoll watches, and `Poll`,
-- over the kernel and the handler as functions. A descriptor is not negative; what other goroutines do
-- while the loop waits or handles is in those functions. Logging is left out.
pub mod Descriptors
pub mod Bits
mod Examples
use Prim.Native.Nat.{bit_or}
use limnet.Base.{
  ℕ, ◌*◌, ◌≡◌, Bool, true, false, not, ◌&&◌, ◌||◌, Option, none, some, List, [], ◌∷◌, ◌==◌,
  if◌then◌else◌, length, zero, suc,
}
use limnet.Base.Int.{ℤ, pos, negsuc}
use limnet.PollLoop.{Source, Waited, rounds, wait_events_begin}
use limnet.Conn.Host.{read_event, write_event}
use limnet.Conn.Events.{event_read, event_write, event_err, has}

pub record Poller : Type 0 where
  pub fd : ℕ
  pub event_fd : ℕ

-- an epoll_ctl(2): the epoll instance, the descriptor, and what to watch
pub data Ctl : Type 0 where
  ctl_add : ℕ → ℕ → ℕ → Ctl
  ctl_mod : ℕ → ℕ → ℕ → Ctl
  ctl_del : ℕ → ℕ → Ctl

-- What a call that may open a descriptor does to the open ones: a new descriptor was not open.
abbrev pub Opens : (ℕ → Bool) → Option ℕ → (ℕ → Bool) → Type 0
Opens before none after = (x : ℕ) → after x ≡ before x
Opens before (some fd) after = (before fd ≡ false) × ((x : ℕ) → after x ≡ ((x == fd) || before x))

-- The kernel: a result of `true` is an error, and `is_open` are the open descriptors. `await_done` is
-- `<-ep.waitDone`.
pub record Kernel : Type 1 where
  pub World : Type 0
  pub is_open : World → ℕ → Bool
  pub epoll_create : World → Option ℕ × World
  pub new_event_fd : World → Option ℕ × World
  pub epoll_ctl : Ctl → World → Bool × World
  pub close_fd : ℕ → World → World
  pub write_event_fd : ℕ → World → Bool × World
  pub read_event_fd : ℕ → World → World
  pub await_done : World → World
  pub epoll_create_lem :
      (w : World) → Opens (is_open w) (epoll_create w).0 (is_open (epoll_create w).1)
  pub new_event_fd_lem :
      (w : World) → Opens (is_open w) (new_event_fd w).0 (is_open (new_event_fd w).1)
  pub epoll_ctl_lem : (op : Ctl) (w : World) (x : ℕ) → is_open (epoll_ctl op w).1 x ≡ is_open w x
  pub close_fd_lem :
      (fd : ℕ) (w : World) (x : ℕ) → is_open (close_fd fd w) x ≡ (not (x == fd) && is_open w x)
  pub await_done_lem : (w : World) (x : ℕ) → is_open (await_done w) x ≡ is_open w x
  pub write_event_fd_lem :
      (fd : ℕ) (w : World) (x : ℕ) → is_open (write_event_fd fd w).1 x ≡ is_open w x

-- The results of `Close`: done, ErrClosed, or the error of `Wake`.
pub data CloseResult : Type 0 where
  closed : CloseResult
  err_closed : CloseResult
  wake_failed : CloseResult

pub record EpollEvent : Type 0 where
  pub events : ℕ
  pub fd : ℕ

-- EPOLLERR, POLLHUP, EPOLLRDHUP; POLLIN is EPOLLIN
abbrev pub epoll_in : ℕ
epoll_in = 1

abbrev pub epoll_pri : ℕ
epoll_pri = 2

abbrev pub epoll_out : ℕ
epoll_out = 4

abbrev pub epoll_err : ℕ
epoll_err = 8

abbrev pub epoll_hup : ℕ
epoll_hup = 16

abbrev pub epoll_rdhup : ℕ
epoll_rdhup = 8192

-- the `rEvents` that `Poll` hands on
unfoldable pub r_events : ℕ → ℕ
r_events events =
    bit_or
      (bit_or (if has events epoll_hup && not (has events epoll_in) then event_err else 0)
        (if has events epoll_err || has events epoll_out then event_write else 0))
      (if has events (bit_or (bit_or epoll_in epoll_pri) epoll_rdhup) then event_read else 0)

module _ (kernel : Kernel) where
  open kernel use {
    World, epoll_create, new_event_fd, epoll_ctl, close_fd, write_event_fd, read_event_fd,
    await_done,
  }

  -- the end of `Create`
  unfoldable pub add_event_fd : ℕ → ℕ → World → Option Poller × World
  add_event_fd fd event_fd w =
      let r = epoll_ctl (ctl_add fd event_fd epoll_in) w in
      if r.0
      then (none, close_fd event_fd (close_fd fd r.1))
      else (some (record { fd = fd; event_fd = event_fd }), r.1)

  unfoldable pub after_event_fd : ℕ → Option ℕ × World → Option Poller × World
  after_event_fd fd (none, w) = (none, close_fd fd w)
  after_event_fd fd (some event_fd, w) = add_event_fd fd event_fd w

  unfoldable pub after_create : Option ℕ × World → Option Poller × World
  after_create (none, w) = (none, w)
  after_create (some fd, w) = after_event_fd fd (new_event_fd w)

  -- `Create`, where an error is no poller
  unfoldable pub create : World → Option Poller × World
  create w = after_create (epoll_create w)

  module _ (ep : Poller) where
    -- `Wake`
    abbrev pub wake : World → Bool × World
    wake w = write_event_fd ep.event_fd w

    -- `Close`, with `running`, which other goroutines read
    unfoldable pub close : Bool × World → CloseResult × Bool × World
    close (running, w) =
        if not running
        then (err_closed, running, w)
        else let r = wake w in
          if r.0
          then (wake_failed, false, r.1)
          else (closed, false, close_fd ep.event_fd (close_fd ep.fd (await_done r.1)))

    unfoldable pub add_read : ℕ → World → Bool × World
    add_read fd w = epoll_ctl (ctl_add ep.fd fd read_event) w

    unfoldable pub add_write : ℕ → World → Bool × World
    add_write fd w = epoll_ctl (ctl_add ep.fd fd write_event) w

    unfoldable pub del : ℕ → World → Bool × World
    del fd w = epoll_ctl (ctl_del ep.fd fd) w

    unfoldable pub enable_read_write : ℕ → World → Bool × World
    enable_read_write fd w = epoll_ctl (ctl_mod ep.fd fd (bit_or read_event write_event)) w

    unfoldable pub enable_write : ℕ → World → Bool × World
    enable_write fd w = epoll_ctl (ctl_mod ep.fd fd write_event) w

    unfoldable pub enable_read : ℕ → World → Bool × World
    enable_read fd w = epoll_ctl (ctl_mod ep.fd fd read_event) w

    -- the events of `Poll`
    unfoldable pub epoll_source : Source EpollEvent World
    epoll_source = record {
      is_wake = λ e. e.fd == ep.event_fd;
      fd_of = λ e. e.fd;
      events_of = λ e. r_events e.events;
      drain = λ w. read_event_fd ep.event_fd w;
    }

    -- `Poll`, for so many rounds
    unfoldable pub poll :
        (ℕ → Bool × World → Waited EpollEvent × Bool × World)
        → (ℤ → ℕ → Bool × World → Bool × World)
        → ℕ
        → World
        → Option ℕ × Bool × World
    poll epoll_wait handler fuel w =
        rounds epoll_source handler epoll_wait fuel wait_events_begin (true, w)
