-- ===== src/Conn/Api/Examples.antt =====
-- A write, a close and another write on a connection that has bytes to send.
use limnet.Base.{◌≡◌, refl, true, some, List, [], ◌∷◌, ◌++◌, arith}
use limnet.RingBuffer.Defs.{ring_length}
use limnet.RingBuffer.Inv.{contents}
use limnet.RingBuffer.Examples.{plain, bent}
use limnet.Conn.Tcp.{State}
use limnet.Conn.Examples.{echo, busy, net, busy-IsOpen}
use limnet.EventLoop.{Loop, new_loop, run_on}
use limnet.EventLoop.Progress.{IsDone}
use limnet.Conn.Api.{Job, write_job, close_job, call_all, Act, runs, drains, act_all}
use limnet.Conn.Api.Order.{Does, jobs_of, call_all-Does}

abbrev goodbye : List Job
goodbye = write_job (5 ∷ 6 ∷ []) ∷ close_job ∷ write_job (8 ∷ []) ∷ []

abbrev acts : List Act
acts =
    drains
    ∷ runs (write_job (5 ∷ 6 ∷ []))
    ∷ drains
    ∷ runs close_job
    ∷ runs (write_job (8 ∷ []))
    ∷ []

acts-jobs : jobs_of acts ≡ (run_on 6 (call_all goodbye busy new_loop)).executed
unfolding jobs_of run_on call_all limnet.Conn.Api.call limnet.Conn.Api.tcp_write
    limnet.Conn.Api.tcp_close limnet.EventLoop.trigger limnet.EventLoop.push
    limnet.EventLoop.wake_if_idle limnet.EventLoop.own_step limnet.EventLoop.read_wake
    limnet.EventLoop.begin_wake limnet.EventLoop.end_handler limnet.EventLoop.execute_jobs
acts-jobs = refl

call_all-Does_example :
    IsDone goodbye (run_on 6 (call_all goodbye busy new_loop))
    × (t : State plain echo) × (act_all echo acts (busy, net) ≡ some t)
    × Does plain echo true ((net.taken ++ contents bent) ++ (5 ∷ 6 ∷ [])) t
unfolding limnet.Conn.Api.Order.until_close limnet.Conn.Api.Order.closes ring_length
call_all-Does_example =
    call_all-Does plain echo goodbye busy net bent acts busy-IsOpen (omega arith) (omega arith)
      acts-jobs
