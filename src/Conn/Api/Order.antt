-- ===== src/Conn/Api/Order.antt =====
-- What is written with `Write` is sent in the order of the calls, up to the first `Close`.
use limnet.Base.{
  ℕ, ◌+◌, ◌≤◌, ◌≡◌, refl, sym, ap, subst, ◌∙◌, Bool, true, false, some, List, [], ◌∷◌, ◌++◌, ◌⊎◌,
  inl, inr, arith, length, length-append, append-nil, append_assoc,
}
use limnet.RingBuffer.Defs.{RingBuffer}
use limnet.RingBuffer.Inv.{contents}
use limnet.RingBuffer.Export.{ByteBuffers}
use limnet.Conn.Inbound.{Inbound}
use limnet.Conn.Host.{Host}
use limnet.Conn.Tcp.{TcpConn, State, write, handle_close}
use limnet.Conn.Tcp.Delivery.{IsOpen, IsClosed, Fails, Delivers, going, stopped, handle_close_lem}
use limnet.Conn.Tcp.Sending.{write-Delivers}
use limnet.Conn.Tcp.Draining.{handle_write-Delivers}
use limnet.Conn.Events.Serve.{limit}
use limnet.EventLoop.{
  Loop, Steps, start, and_then, triggers, checks_flag, new_loop, push, wake_if_idle, trigger,
  run_on,
}
use limnet.EventLoop.Progress.{IsDone, run_on-IsDone}
use limnet.Conn.Api.{
  Job, write_job, close_job, call, call_all, tcp_write, tcp_close, Act, runs, drains, run_job, act,
  act_all,
}

-- the bytes of the writes before the first close
unfoldable pub until_close : List Job → List ℕ
until_close [] = []
until_close (write_job p ∷ js) = p ++ until_close js
until_close (close_job ∷ js) = []

unfoldable pub closes : List Job → Bool
closes [] = false
closes (write_job p ∷ js) = closes js
closes (close_job ∷ js) = true

unfoldable pub jobs_of : List Act → List Job
jobs_of [] = []
jobs_of (runs j ∷ acts) = j ∷ jobs_of acts
jobs_of (drains ∷ acts) = jobs_of acts

module _ (lib : ByteBuffers) (host : Host) where
  open host use {World, sent}

  -- The connection is open, was not closed, and has sent a front part of all the bytes and holds the
  -- rest; or it is closed, by a close or since a write(2) has failed, and has sent a front part.
  pub data Does (closing : Bool) (all : List ℕ) (s : State lib host) : Type 0 where
    still_open :
        (o : RingBuffer)
        → closing ≡ false
        → IsOpen host s o
        → sent s.1 ++ contents o ≡ all
        → Does closing all s
    ended :
        (lost : List ℕ)
        → (closing ≡ true) ⊎ Fails host
        → IsClosed host s
        → sent s.1 ++ lost ≡ all
        → Does closing all s

  act_all-closed :
      (acts : List Act) (s : State lib host) → IsClosed host s → act_all host acts s ≡ some s
  unfolding act_all act run_job write handle_close
  act_all-closed [] s y = refl
  act_all-closed (runs (write_job p) ∷ acts) s y = simp (y.disconnected) (act_all-closed acts s y)
  act_all-closed (runs close_job ∷ acts) s y = simp (y.disconnected) (act_all-closed acts s y)
  act_all-closed (drains ∷ acts) s y = simp (y.disconnected) (act_all-closed acts s y)

  -- what is to come of some acts, on a connection that has accepted these bytes
  Ends : List Act → List ℕ → State lib host → Type 0
  Ends acts accepted s =
      (t : State lib host) × (act_all host acts s ≡ some t)
      × Does (closes (jobs_of acts)) (accepted ++ until_close (jobs_of acts)) t

  Going : List Act → Type 0
  Going acts =
      (s : State lib host) (o : RingBuffer)
      → IsOpen host s o
      → o.size ≤ limit
      → length (contents o) + length (until_close (jobs_of acts)) ≤ limit
      → Ends acts (sent s.1 ++ contents o) s

  then_Ends :
      (acts : List Act) {inp : Inbound lib} {old total : ℕ} {accepted : List ℕ} (s : State lib host)
      → Going acts
      → Delivers host inp old total accepted s
      → old ≤ limit
      → total + length (until_close (jobs_of acts)) ≤ limit
      → Ends acts accepted s
  unfolding Going Ends
  then_Ends acts s rest (going o same y fits e) small room =
      subst (λ t. Ends acts t s) e
        (rest s o y (fits.0 61 (omega arith) small (omega arith)) (let b = fits.1 in omega arith))
  then_Ends acts {accepted = accepted} s rest (stopped lost fails y e) small room = (
    s,
    act_all-closed acts s y,
    ended (lost ++ until_close (jobs_of acts)) (inr fails) y (
        sym (append_assoc (sent s.1) lost (until_close (jobs_of acts)))
        ∙ ap (λ t. t ++ until_close (jobs_of acts)) e),
  )

  act_all-Ends : (acts : List Act) → Going acts
  unfolding Going Ends act_all act run_job until_close jobs_of closes
  act_all-Ends [] s o y small room =
      (s, refl, still_open o refl y (sym (append-nil (sent s.1 ++ contents o))))
  act_all-Ends (runs (write_job p) ∷ acts) (c, w) o y small room =
      let more = length-append p (until_close (jobs_of acts)) in
      let (s, ok, d) = write-Delivers host p c w o y (omega arith) in
      let (t, ends, e) = then_Ends acts s (act_all-Ends acts) d small (omega arith) in
      (
        t,
        simp (ok, ends),
        subst (λ (x : List ℕ). Does (closes (jobs_of acts)) x t)
            (append_assoc (sent w ++ contents o) p (until_close (jobs_of acts))) e,
      )
  act_all-Ends (runs close_job ∷ acts) (c, w) o y small room =
      let (i, h) = y.received in
      let (s, ok, closed, _, _, same) = handle_close_lem host c w i o y.connected h y.held in
      (
        s,
        simp ok (act_all-closed acts s closed),
        ended (contents o) (inl refl) closed
            (ap (λ t. t ++ contents o) same ∙ sym (append-nil (sent w ++ contents o))),
      )
  act_all-Ends (drains ∷ acts) (c, w) o y small room =
      let (s, ok, d) = handle_write-Delivers host c w o y in
      let (t, ends, e) = then_Ends acts s (act_all-Ends acts) d small room in
      (t, simp (y.connected, ok, ends), e)

  trigger-Steps :
      (j : Job) (l : Loop Job)
      → Steps new_loop l
      → Steps new_loop (trigger j l)
        × ((trigger j l).checks ≡ l.checks)
        × ((trigger j l).pushed ≡ l.pushed ++ (j ∷ []))
  unfolding trigger push wake_if_idle
  trigger-Steps j l steps =
      (and_then (and_then steps (triggers j)) (checks_flag l.checks refl), refl, refl)

  call-triggers :
      (j : Job) (c : TcpConn lib) (l : Loop Job)
      → c.inp.connected ≡ true
      → (call j c l).1 ≡ trigger j l
  unfolding call tcp_write tcp_close
  call-triggers (write_job p) c l up = simp up
  call-triggers close_job c l up = simp up

  -- the calls of a connection that is connected
  call_all-Steps :
      (js : List Job) (c : TcpConn lib) (l : Loop Job)
      → c.inp.connected ≡ true
      → Steps new_loop l
      → Steps new_loop (call_all js c l)
        × ((call_all js c l).checks ≡ l.checks)
        × ((call_all js c l).pushed ≡ l.pushed ++ js)
  unfolding call_all
  call_all-Steps [] c l up steps = (steps, refl, sym (append-nil l.pushed))
  call_all-Steps (j ∷ js) c l up steps =
      let (more, checks, pushed) = trigger-Steps j l steps in
      let (all, same, order) = call_all-Steps js c (trigger j l) up more in
      subst
        (λ (m : Loop Job).
          Steps new_loop (call_all js c m)
          × ((call_all js c m).checks ≡ l.checks)
          × ((call_all js c m).pushed ≡ l.pushed ++ (j ∷ js)))
        (sym (call-triggers j c l up))
        (all, same ∙ checks, order ∙ ap (λ t. t ++ js) pushed ∙ append_assoc l.pushed (j ∷ []) js)

  -- Calls of `Write` and `Close` on an open connection whose descriptor is in the poller, before a loop
  -- with no jobs runs: the loop, on its own, where no bytes arrive, runs a job for each, in the order of the calls, and then waits. However it lets the
  -- connection send what waits between those jobs, where the ring buffer may grow to hold the bytes,
  -- nothing panics, and what has been sent and what waits, or is lost by closing, are the bytes
  -- accepted before and those of the writes before the first close, in order; the connection is then
  -- closed if there is a close, and is otherwise open unless a write(2) has failed.
  pub call_all-Does :
      (js : List Job) (c : TcpConn lib) (w : World) (o : RingBuffer) (acts : List Act)
      → IsOpen host (c, w) o
      → o.size ≤ limit
      → length (contents o) + length (until_close js) ≤ limit
      → jobs_of acts ≡ (run_on 6 (call_all js c new_loop)).executed
      → IsDone js (run_on 6 (call_all js c new_loop))
        × (t : State lib host) × (act_all host acts (c, w) ≡ some t)
        × Does (closes js) ((sent w ++ contents o) ++ until_close js) t
  unfolding Going Ends
  call_all-Does js c w o acts y small room e =
      let (steps, checks, pushed) = call_all-Steps js c new_loop y.connected start in
      let done =
        subst (λ t. IsDone t (run_on 6 (call_all js c new_loop))) pushed
          (run_on-IsDone (call_all js c new_loop) steps checks) in
      let same = e ∙ done.all_executed in
      let (t, ok, d) =
        act_all-Ends acts (c, w) o y small
          (subst (λ x. length (contents o) + length (until_close x) ≤ limit) (sym same) room) in
      (done, t, ok, subst (λ x. Does (closes x) ((sent w ++ contents o) ++ until_close x) t) same d)
