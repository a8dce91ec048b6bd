-- ===== src/Kqueue/Changes.antt =====
-- What the changes of `kEvents` do to the kernel's filters.
use Prim.Native.Nat.{bit_or}
use limnet.Base.{ℕ, ◌≡◌, refl, true, false, some, List, [], ◌∷◌, arith}
use limnet.Conn.Events.{has}
use limnet.Kqueue.{
  Change, add_read_filter, delete_read_filter, add_write_filter, delete_write_filter, Filters,
  k_events, Watched, Kevent, add_read, enable, event_read, event_write,
}

-- EV_ADD sets a filter and EV_DELETE clears it.
abbrev pub change_filter : Change → Filters → Filters
change_filter add_read_filter f = record f { read = true }
change_filter delete_read_filter f = record f { read = false }
change_filter add_write_filter f = record f { write = true }
change_filter delete_write_filter f = record f { write = false }

abbrev pub apply : List Change → Filters → Filters
apply [] f = f
apply (c ∷ cs) f = apply cs (change_filter c f)

-- the filters for some events
abbrev pub filters_of : ℕ → Filters
filters_of events = record { read = has events event_read; write = has events event_write }

-- The changes that `kEvents` gives for an old and a new set of events take the filters of the old
-- one to those of the new one, and if the filters are the same there are no changes.
pub k_events_lem :
    (old new : ℕ)
    → (apply (k_events old new) (filters_of old) ≡ filters_of new)
      × (filters_of old ≡ filters_of new → k_events old new ≡ [])
unfolding k_events
k_events_lem old new = (ground arith, λ e. ground arith)

-- Where every call of kevent(2) succeeds, `AddRead`, then `EnableReadWrite`, then `EnableRead` report
-- no error, the interest stored is the first one throughout, and the kernel is left with the filter
-- for writing as well as the one for reading.
pub enable-keeps_stored :
    (kevent : Kevent) (w : Watched)
    → ((cs : List Change) (f : Filters) → kevent cs f ≡ (false, apply cs f))
    → (a b c : Watched) × (add_read kevent w ≡ (false, a))
      × (enable kevent (bit_or event_write event_read) a ≡ (false, b))
      × (enable kevent event_read b ≡ (false, c))
      × (b.stored ≡ some event_read)
      × (c.stored ≡ some event_read)
      × (c.filters ≡ record { read = true; write = true })
unfolding add_read enable k_events
enable-keeps_stored kevent w h = (
  record { stored = some event_read; filters = record w.filters { read = true } },
  record { stored = some event_read; filters = record { read = true; write = true } },
  record { stored = some event_read; filters = record { read = true; write = true } },
  simp h,
  simp h,
  simp h,
  refl,
  refl,
  refl,
)
