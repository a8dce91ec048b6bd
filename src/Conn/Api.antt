-- ===== src/Conn/Api.antt =====
-- conn.go: `Write` and `Close`, which any goroutine may call. They trigger a job on the connection's
-- event loop, which runs it there.
pub mod Order
mod Examples
use limnet.Base.{not, Option, none, some, List, [], ◌∷◌, ◌++◌, if◌then◌else◌, ◌>>=◌}
use limnet.Base.{ℕ}
use limnet.RingBuffer.Export.{ByteBuffers}
use limnet.Conn.Host.{Host}
use limnet.Conn.Tcp.{TcpConn, State, write, handle_write, handle_close}
use limnet.EventLoop.{Loop, trigger}

pub data Job : Type 0 where
  write_job : List ℕ → Job
  close_job : Job

-- What the two return: nil, or ErrConnectionClosed. An error of the wake-up is not modelled.
pub data ApiResult : Type 0 where
  triggered : ApiResult
  err_connection_closed : ApiResult

module _ {lib : ByteBuffers} where
  unfoldable pub tcp_write : List ℕ → TcpConn lib → Loop Job → ApiResult × Loop Job
  tcp_write buf c l =
      if not c.inp.connected
      then (err_connection_closed, l)
      else (triggered, trigger (write_job buf) l)

  unfoldable pub tcp_close : TcpConn lib → Loop Job → ApiResult × Loop Job
  tcp_close c l =
      if not c.inp.connected then (err_connection_closed, l) else (triggered, trigger close_job l)

  -- the call that triggers a job
  unfoldable pub call : Job → TcpConn lib → Loop Job → ApiResult × Loop Job
  call (write_job buf) c l = tcp_write buf c l
  call close_job c l = tcp_close c l

  unfoldable pub call_all : List Job → TcpConn lib → Loop Job → Loop Job
  call_all [] c l = l
  call_all (j ∷ js) c l = call_all js c (call j c l).1

-- What the event loop does to the connection: it runs a job, or it lets it send what waits; a
-- connection that has been closed is no longer on the loop.
pub data Act : Type 0 where
  runs : Job → Act
  drains : Act

module _ {lib : ByteBuffers} (host : Host) where
  -- the two functions that `Write` and `Close` trigger
  unfoldable pub run_job : Job → State lib host → Option (State lib host)
  run_job (write_job buf) s = write host buf s
  run_job close_job s = handle_close host s

  unfoldable pub act : Act → State lib host → Option (State lib host)
  act (runs j) s = run_job j s
  act drains s = if not s.0.inp.connected then some s else handle_write host s

  unfoldable pub act_all : List Act → State lib host → Option (State lib host)
  act_all [] s = some s
  act_all (a ∷ rest) s = do s ← act a s; act_all rest s
