-- ===== src/Kqueue.antt =====
-- pkg/limpoller/kqueue.go: what the poller stores of one descriptor in `sockets`, and what it tells
-- the kernel by kevent(2). The three methods that enable events differ in the events only.
pub mod Changes
pub mod Waiting
pub mod Leak
pub mod Eof
mod Examples
use limnet.Conn.Events.{has}
use limnet.Base.{
  ℕ, Bool, true, false, not, Option, none, some, List, [], ◌∷◌, ◌++◌, ◌==◌, if◌then◌else◌,
}

-- EventRead, EventWrite and EventNone
abbrev pub event_read : ℕ
event_read = 1

abbrev pub event_write : ℕ
event_write = 2

abbrev pub event_none : ℕ
event_none = 0

-- a Kevent_t: EV_ADD or EV_DELETE of EVFILT_READ or EVFILT_WRITE
pub data Change : Type 0 where
  add_read_filter : Change
  delete_read_filter : Change
  add_write_filter : Change
  delete_write_filter : Change

-- the filters of the descriptor in the kernel
pub record Filters : Type 0 where
  pub read : Bool
  pub write : Bool

unfoldable pub k_events : ℕ → ℕ → List Change
k_events old new =
    (if has new event_read
      then if not (has old event_read) then add_read_filter ∷ [] else []
      else if has old event_read
      then delete_read_filter ∷ []
      else [])
    ++ (if has new event_write
        then if not (has old event_write) then add_write_filter ∷ [] else []
        else if has old event_write
        then delete_write_filter ∷ []
        else [])

-- `stored` is the entry in `sockets`.
pub record Watched : Type 0 where
  pub stored : Option ℕ
  pub filters : Filters

-- kevent(2): whether there is an error, and the filters after
abbrev pub Kevent : Type 0
Kevent = List Change → Filters → Bool × Filters

module _ (kevent : Kevent) where
  unfoldable pub add_read : Watched → Bool × Watched
  add_read w =
      let r = kevent (k_events event_none event_read) w.filters in
      (r.0, record { stored = some event_read; filters = r.1 })

  -- `Del`, where a descriptor that is not stored is an error
  unfoldable pub del : Watched → Bool × Watched
  del w = elim w.stored [
    | none ↦ (true, w)
    | some old ↦
        let r = kevent (k_events old event_none) w.filters in
        (r.0, record { stored = if r.0 then none else some old; filters = r.1 })
  ]

  -- `EnableReadWrite`, `EnableRead` and `EnableWrite`, with their `newEvents`
  unfoldable pub enable : ℕ → Watched → Bool × Watched
  enable new w = elim w.stored [
    | none ↦ (true, w)
    | some old ↦
        let r = kevent (k_events old new) w.filters in
        (r.0, record { stored = if r.0 then some new else some old; filters = r.1 })
  ]
