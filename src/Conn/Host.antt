-- ===== src/Conn/Host.antt =====
-- What conn.go calls outside the connection: the system calls on its descriptor, the user's handler
-- and the pool of ring buffers, as functions on a world. pkg/limpoller/epoll.go is thin enough to
-- stand here: its calls of EpollCtl are written out.
use Prim.Native.Nat.{bit_or}
use limnet.Base.{ℕ, ◌≤◌, ◌≡◌, Bool, false, Option, some, List, [], ◌++◌, length, take}
use limnet.RingBuffer.Defs.{RingBuffer}
use limnet.RingBuffer.Inv.{IsValid, contents}

-- EPOLLIN | EPOLLPRI, and EPOLLOUT
abbrev pub read_event : ℕ
read_event = bit_or 1 2

abbrev pub write_event : ℕ
write_event = 4

-- the results of a write(2): a count, EAGAIN, or another error
pub data WriteOutcome : Type 0 where
  wrote : ℕ → WriteOutcome
  write_again : WriteOutcome
  write_failed : WriteOutcome

-- the results of a read(2): bytes, where none are the end of the stream, EAGAIN, or another error
pub data ReadOutcome : Type 0 where
  got : List ℕ → ReadOutcome
  read_again : ReadOutcome
  read_failed : ReadOutcome

-- `sent` is what write(2) has taken of this connection, and `watched` is what epoll watches its
-- descriptor for, if the descriptor is in epoll's set. write(2) takes a front part of its argument,
-- and nothing where it fails; `epoll_mod` is EPOLL_CTL_MOD, with an error or none: on a
-- descriptor in the set it sets what is watched, and on another, for which it gives ENOENT, nothing is
-- assumed of it but that it sends nothing; nothing else sends or watches; `now` is the time in Unix seconds.
-- `ringbuffer.Get` gives a valid ring buffer with nothing in it, as BufferPool.Recycle shows;
-- `after_func` is `AfterFunc` of the timing wheel with the connection's `closeTimeoutConn`.
pub record Host : Type 1 where
  pub World : Type 0
  pub sent : World → List ℕ
  pub watched : World → Option ℕ
  pub unix_read : World → ReadOutcome × World
  pub unix_write : List ℕ → World → WriteOutcome × World
  pub unix_close : World → World
  pub epoll_mod : ℕ → World → Bool × World
  pub epoll_del : World → World
  pub forget_handler : World → World
  pub on_close : World → World
  pub on_packet : List ℕ → World → List ℕ × World
  pub put_ring : RingBuffer → World → World
  pub get_ring : World → RingBuffer × World
  pub after_func : ℕ → World → World
  pub now : World → ℕ
  pub wrote_lem :
      (p : List ℕ) (w : World) (n : ℕ) (v : World)
      → unix_write p w ≡ (wrote n, v)
      → (n ≤ length p) × (sent v ≡ sent w ++ take n p) × (watched v ≡ watched w)
  pub again_lem :
      (p : List ℕ) (w v : World)
      → unix_write p w ≡ (write_again, v)
      → (sent v ≡ sent w) × (watched v ≡ watched w)
  pub failed_lem : (p : List ℕ) (w v : World) → unix_write p w ≡ (write_failed, v) → sent v ≡ sent w
  pub read_lem :
      (w : World) → (sent (unix_read w).1 ≡ sent w) × (watched (unix_read w).1 ≡ watched w)
  pub on_packet_lem :
      (p : List ℕ) (w : World)
      → (sent (on_packet p w).1 ≡ sent w) × (watched (on_packet p w).1 ≡ watched w)
  pub sent-epoll_mod : (e : ℕ) (w : World) → sent (epoll_mod e w).1 ≡ sent w
  pub watched-epoll_mod :
      (e x : ℕ) (w : World)
      → watched w ≡ some x
      → ((epoll_mod e w).0 ≡ false) × (watched (epoll_mod e w).1 ≡ some e)
  pub sent-epoll_del : (w : World) → sent (epoll_del w) ≡ sent w
  pub sent-forget_handler : (w : World) → sent (forget_handler w) ≡ sent w
  pub sent-on_close : (w : World) → sent (on_close w) ≡ sent w
  pub sent-unix_close : (w : World) → sent (unix_close w) ≡ sent w
  pub get_ring_lem :
      (w : World)
      → IsValid (get_ring w).0 × (contents (get_ring w).0 ≡ []) × (sent (get_ring w).1 ≡ sent w)
  pub sent-after_func : (d : ℕ) (w : World) → sent (after_func d w) ≡ sent w
  pub sent-put_ring : (b : RingBuffer) (w : World) → sent (put_ring b w) ≡ sent w

module _ (host : Host) where
  open host use {World, epoll_mod, epoll_del, forget_handler}

  -- `Poller.EnableRead`, `Poller.EnableReadWrite`, with the error, if any
  unfoldable pub enable_read : World → Bool × World
  enable_read w = epoll_mod read_event w

  unfoldable pub enable_read_write : World → Bool × World
  enable_read_write w = epoll_mod (bit_or read_event write_event) w

  -- `EventLoop.DeleteFdInLoop`
  unfoldable pub delete_fd_in_loop : World → World
  delete_fd_in_loop w = forget_handler (epoll_del w)
