-- ===== src/Lib.antt =====
-- limnet: a verification library beside the Go network library of the same name.
--
-- The program. A server (server.go) accepts connections and gives each to one of its event loops
-- (pkg/eventloop), which waits in a poller (pkg/limpoller: epoll.go or kqueue.go) and calls the
-- connection's handler. A TCP connection (conn.go) keeps what it has received and what it has to send
-- in ring buffers (pkg/ringbuffer/ringbuffer.go) that come from a pool (pkg/ringbuffer/pool.go); a
-- websocket connection (conn_ws.go) has a goroutine and a ring buffer of its own. `unPacket`
-- (options.go) cuts packets off what was received, and the user's handler answers them.
--
-- The files.
--   * Base: lists as slices, tests, machine integers, and their lemmas. Base/Slices has the laws of
--     taking, dropping and copying that the components share.
--   * RingBuffer: pkg/ringbuffer/ringbuffer.go. Ceil is `CeilToPowerOfTwo`, Defs the record with `New`,
--     `Reset` and the sizes, Reading, Writing and Export the methods that read, write and copy out. Inv
--     has the invariant `IsValid` and the abstract view `contents`, the bytes to read, oldest first.
--     The laws are in Peek, Advance, Consume, Read, Place, Grow, Append, Fresh, Ceil/Least and
--     Export/Laws, Queue has the refinement of a queue of bytes, and
--     Abstraction the quotient by what calls can tell.
--   * BufferPool: pkg/ringbuffer/pool.go. Index, Calibrate and the parent have its functions, Cover
--     and Recycle the laws.
--   * Conn: conn.go and conn_ws.go. Inbound has `Read`, `ReadN`, `ShiftN` and `ResetBuffer`; Host what
--     a connection calls outside itself, with the calls of EpollCtl of pkg/limpoller/epoll.go; Tcp
--     `NewTCPConn`, `write`, `handleWrite`, `handleClose` and `release`; Events `handleRead`, `Handle`
--     and the default `unPacket`; Events/Idle the timer; Api the public `Write` and `Close` on the loop
--     of EventLoop; Ws the websocket connection, and Ws/Open how one starts and its public methods. The
--     laws are in Inbound/Laws, Tcp/Delivery, Tcp/Sending, Tcp/Draining, Events/Respond, Events/Serve,
--     Events/Rounds, Events/Arrival, Events/Default, Events/Bits, Api/Order and Ws/Messages; those of a
--     buffer that has been released are in Inbound/Closed, Events/Broken and Ws/Race. Framing says what
--     a protocol is and what it means for an `unPacket` to implement one; Sample is one that does.
--     Handler has the defaults of event_handler.go.
--   * EventLoop: pkg/eventloop, with the wake-up of `Poll` in pkg/limpoller/epoll.go, as steps of any
--     number of goroutines, for jobs of any type; Wakeup has the invariant, Progress what the loop does
--     on its own, and Panics what a job that panics takes with it. Handlers has `BindHandler`,
--     `DeleteFdInLoop`, the lookup of `handleEvent` and `Stop`. Run is `Run`, the loop of PollLoop with
--     the whole of `handleEvent`, and Run/Executes its law.
--   * SpinLock: pkg/limutil/spinlock.go around the queue of pkg/eventloop/queue.go, an access at a time.
--     Exclusion has the invariant of the lock, and Atomicity the reason for which EventLoop makes each
--     call of the queue one step.
--   * PollLoop: the loop of `Poll` that the two pollers share, for any source of events; Dispatch has the
--     laws of a round.
--   * Epoll: pkg/limpoller/epoll.go. Descriptors has the laws of `Create` and `Close`, and Bits what its
--     events make a connection of Conn/Events do.
--   * Kqueue: pkg/limpoller/kqueue.go. The parent has the interests, and Changes what they do in the
--     kernel; Waiting has `Create`, `Wake`, `Close` and the events of `Poll`, with laws in Leak and Eof.
--   * Atomic: pkg/limutil/sync/atomic/atomic.go, with its law in Exact.
--   * WaitGroup: pkg/limutil/sync/waitgroup.go, as steps of the goroutine that waits and of those that it
--     starts. Waiting has the invariant, and Progress how many steps there are. Counted is
--     pkg/limutil/wait_group.go, which nothing uses.
--   * Logging: pkg/limlog/logger.go; Files has what stands where.
--   * Options: options.go, and how `New` applies the options; Last has their laws.
--   * Server: server.go, server_tcp.go and server_ws.go: the event loops, the new connections and their
--     identifiers, with each goroutine in two steps, up to its AddInt64 and from there on, between which
--     others go on. Turns has their laws. Server/Addr is `parseAddr`, with its laws in Addr/Port;
--     Server/SockAddr is `sockAddrToString`, with its law in SockAddr/Text; Server/Listen has the
--     listening socket, Server/Start `New` and `NewTCPServer`, Server/Run `Run` on the steps of WaitGroup,
--     Server/Http the HTTP server's start and end, and Server/Stop `Stop`.
--   * Each Examples module holds tests and the inputs at which the theorems are applied.
--
-- State and failure. A method on a pointer takes the record and returns the one that it leaves. A
-- panic (an index or a slice out of range, a nil pointer, a call of `panic`) is `none`. An error value
-- is part of the result. An `int` is 64 bits wide; where it may be negative the argument is an integer
-- of Base/Int, and elsewhere it is a natural number with the bounds as hypotheses. Bytes are only
-- moved, so a byte is any number. Slices are values: that a slice returned shares memory with a buffer
-- is not modelled.
--
-- Parameters. sync.Pool, sort.Sort and the percentile in floating point (BufferPool), bytebufferpool
-- (RingBuffer/Export), the system calls, gorilla/websocket and the user's handler (Conn/Host, Conn/Ws,
-- Epoll, Kqueue, Server), net/http (Server/Http) and zap (Logging) are arguments, with what the code
-- relies on as laws of a record or as hypotheses. Where Server and EventLoop/Handlers call a
-- component that has a model of its own, the call is an argument too: `BindHandler`, `New` of an
-- event loop, `NewWSConn`, and the poller's methods.
--
-- Bounds and fuel. `max_int_head_bit`, 1 << 62, is the largest capacity that `CeilToPowerOfTwo` can
-- give, so growing is proved for sizes and bytes within it. The loop of `index` has 64 rounds of fuel,
-- more than the bits of a capacity below 1 << 63. The loop over packets of `handleRead` and of
-- `msgLoop` has the fuel that the caller gives, and running out is `none`; with the default `unPacket`
-- two rounds are enough, since the first takes everything, and with one that implements a protocol more
-- fuel than there are bytes, since every packet takes at least one. `limit`, 1 << 61, bounds what such a
-- connection holds. The loop of `Poll` runs for ever, so its fuel is the number of its rounds. The digits
-- of a port n are written with fuel n + 1.
--
-- Not modelled: the timing wheel but for its timers, the fields and the encoding of log messages and the
-- calls of the loggers in the other files, TLS, the aliases of bytebufferpool (pkg/bytebuffer) and of ants
-- (pkg/pool/goroutine), and the benchmarks; of a handler or a job that panics only what it leaves of the
-- event loop. A text of an address is ASCII.
pub mod Base
pub mod RingBuffer
pub mod BufferPool
pub mod Atomic
pub mod Conn
pub mod Epoll
pub mod EventLoop
pub mod Kqueue
pub mod Logging
pub mod Options
pub mod PollLoop
pub mod Server
pub mod SpinLock
pub mod WaitGroup
