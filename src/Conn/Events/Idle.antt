-- ===== src/Conn/Events/Idle.antt =====
-- conn.go: the timer of `closeTimeoutConn`, which conn_ws.go has too.
use limnet.Base.{
  ℕ, ◌+◌, ◌-◌, ◌*◌, ◌/◌, ◌≤◌, ◌<◌, ◌≡◌, ◌↔◌, Bool, true, not, arith, leb, if◌then◌else◌,
}

-- What the timer does when it fires: nothing, close the connection, or fire again after some time.
pub data TimerStep : Type 0 where
  ignore : TimerStep
  close_idle : TimerStep
  fire_after : ℕ → TimerStep

-- `time.Now().Unix()` at so many nanoseconds
abbrev pub seconds : ℕ → ℕ
seconds t = t / 1000000000

-- Durations and `now` are in nanoseconds, the time of the last activity in seconds. The code's
-- `intervals`, which is `now - active`, may be negative; both its uses are written without it.
unfoldable pub close_timeout_conn : ℕ → ℕ → ℕ → Bool → TimerStep
close_timeout_conn conn_idle_time active_time now connected =
    let active = active_time * 1000000000 in
    if not connected
    then ignore
    else if leb (active + conn_idle_time) now
    then close_idle
    else fire_after (active + conn_idle_time - now)

-- The connection keeps the second of its last activity, at `act` nanoseconds. On an open connection
-- the timer closes it exactly if the idle time has passed since that second began: surely if it has
-- passed since the activity, and at most one second early. Otherwise it fires again, after more than
-- nothing, just when the idle time will have passed since the second began; it then closes the
-- connection where no later second of activity was kept, though there was activity in the same second,
-- and else fires again as many whole seconds later as lie between the two seconds kept.
pub close_timeout_conn_lem :
    (idle act now : ℕ)
    → 0 < idle
    → ((close_timeout_conn idle (seconds act) now true ≡ close_idle)
        ↔ (seconds act * 1000000000 + idle ≤ now))
      × (act + idle ≤ now → close_timeout_conn idle (seconds act) now true ≡ close_idle)
      × (close_timeout_conn idle (seconds act) now true ≡ close_idle
          → act + idle < now + 1000000000)
      × ((d : ℕ)
          → close_timeout_conn idle (seconds act) now true ≡ fire_after d
          → (0 < d)
            × (now + d ≡ seconds act * 1000000000 + idle)
            × ((later : ℕ)
                → seconds later ≡ seconds act
                → close_timeout_conn idle (seconds later) (now + d) true ≡ close_idle)
            × ((later : ℕ)
                → seconds act < seconds later
                → close_timeout_conn idle (seconds later) (now + d) true
                  ≡ fire_after ((seconds later - seconds act) * 1000000000)))
unfolding close_timeout_conn
close_timeout_conn_lem idle act now h =
    let kept : seconds act * 1000000000 ≤ act = omega arith in
    let near : act < seconds act * 1000000000 + 1000000000 = omega arith in
    (
      ground arith,
      λ e. ground arith,
      λ e. ground arith,
      λ d e.
          let left : d ≡ seconds act * 1000000000 + idle - now = ground arith in
          let early : now < seconds act * 1000000000 + idle = ground arith in
          (ground arith, omega arith, λ later same. ground arith, λ later more. ground arith),
    )
