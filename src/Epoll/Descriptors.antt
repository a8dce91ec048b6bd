-- ===== src/Epoll/Descriptors.antt =====
-- pkg/limpoller/epoll.go: what `Create` opens `Close` closes.
use native.Mathlib.Decide.{ℕ_discrete}
use limnet.Base.{
  ℕ, ◌≡◌, ◌≢◌, refl, sym, ap, subst, ◌∙◌, Bool, true, false, not, ◌&&◌, ◌||◌, Option, none, some,
  ◌==◌, arith, inl, inr, Bool-cases, eq→==, ne→not-==,
}
use limnet.Epoll.{
  Poller, ctl_add, Opens, Kernel, CloseResult, closed, err_closed, wake_failed, add_event_fd,
  after_event_fd, after_create, create, close, epoll_in,
}

-- `Create` opens two descriptors that were not open, or it leaves the open ones as they were.
abbrev pub Creates : (ℕ → Bool) → (ℕ → Bool) → Option Poller → Type 0
Creates before after none = (x : ℕ) → after x ≡ before x
Creates before after (some ep) =
    (before ep.fd ≡ false)
    × (before ep.event_fd ≡ false)
    × (ep.fd ≢ ep.event_fd)
    × ((x : ℕ) → after x ≡ ((x == ep.event_fd) || ((x == ep.fd) || before x)))

-- A descriptor that is opened and closed again is not open, as before.
pub close-open :
    (before : ℕ → Bool) (fd x : ℕ)
    → before fd ≡ false
    → (not (x == fd) && ((x == fd) || before x)) ≡ before x
close-open before fd x e = elim (ℕ_discrete x fd) [
  | yes q ↦ rw (eq→== x fd q) (sym (ap before q ∙ e))
  | no q ↦ rw (ne→not-== x fd q) refl
]

close-open_both :
    (before : ℕ → Bool) (fd event_fd x : ℕ)
    → before fd ≡ false
    → before event_fd ≡ false
    → (not (x == event_fd) && (not (x == fd) && ((x == event_fd) || ((x == fd) || before x))))
      ≡ before x
close-open_both before fd event_fd x e f = elim (ℕ_discrete x event_fd) [
  | yes q ↦ rw (eq→== x event_fd q) (sym (ap before q ∙ f))
  | no q ↦ rw (ne→not-== x event_fd q) (close-open before fd x e)
]

module _ (kernel : Kernel) where
  open kernel use {
    World, is_open, epoll_create, new_event_fd, epoll_ctl, close_fd, write_event_fd, await_done,
  }

  is_open-closes :
      (fd event_fd : ℕ) (w : World) (x : ℕ)
      → is_open (close_fd event_fd (close_fd fd w)) x
        ≡ (not (x == event_fd) && (not (x == fd) && is_open w x))
  is_open-closes fd event_fd w x =
      kernel.close_fd_lem event_fd (close_fd fd w) x
      ∙ ap (λ t. not (x == event_fd) && t) (kernel.close_fd_lem fd w x)

  -- Closing both leaves what was open before they were opened.
  closes_both :
      (before : ℕ → Bool) (fd event_fd : ℕ) (w : World)
      → before fd ≡ false
      → before event_fd ≡ false
      → ((x : ℕ) → is_open w x ≡ ((x == event_fd) || ((x == fd) || before x)))
      → (x : ℕ) → is_open (close_fd event_fd (close_fd fd w)) x ≡ before x
  closes_both before fd event_fd w e f h x =
      is_open-closes fd event_fd w x
      ∙ ap (λ t. not (x == event_fd) && (not (x == fd) && t)) (h x)
      ∙ close-open_both before fd event_fd x e f

  add_event_fd-Creates :
      (before : ℕ → Bool) (fd event_fd : ℕ) (w : World)
      → before fd ≡ false
      → before event_fd ≡ false
      → fd ≢ event_fd
      → ((x : ℕ) → is_open w x ≡ ((x == event_fd) || ((x == fd) || before x)))
      → Creates before
          (is_open (add_event_fd kernel fd event_fd w).1)
          (add_event_fd kernel fd event_fd w).0
  unfolding add_event_fd
  add_event_fd-Creates before fd event_fd w e f ne h =
      elim (Bool-cases (epoll_ctl (ctl_add fd event_fd epoll_in) w).0) [
        | inl q ↦ rw q (
            closes_both before fd event_fd (epoll_ctl (ctl_add fd event_fd epoll_in) w).1 e f
              watched)
        | inr q ↦ rw q (e, f, ne, watched)
      ]
    where
      watched :
          (x : ℕ)
          → is_open (epoll_ctl (ctl_add fd event_fd epoll_in) w).1 x
            ≡ ((x == event_fd) || ((x == fd) || before x))
      watched x = kernel.epoll_ctl_lem (ctl_add fd event_fd epoll_in) w x ∙ h x

  after_event_fd-Creates :
      (before : ℕ → Bool) (fd : ℕ) (w : World)
      → before fd ≡ false
      → ((x : ℕ) → is_open w x ≡ ((x == fd) || before x))
      → (r : Option ℕ × World) → Opens (is_open w) r.0 (is_open r.1)
      → Creates before (is_open (after_event_fd kernel fd r).1) (after_event_fd kernel fd r).0
  unfolding after_event_fd
  after_event_fd-Creates before fd w e h (none, v) o = λ x.
      kernel.close_fd_lem fd v x
      ∙ ap (λ t. not (x == fd) && t) (o x ∙ h x)
      ∙ close-open before fd x e
  after_event_fd-Creates before fd w e h (some event_fd, v) (f, o) =
      add_event_fd-Creates before fd event_fd v e (unopened.1) unopened.0
        (λ x. o x ∙ ap (λ t. (x == event_fd) || t) (h x))
    where
      unopened : (fd ≢ event_fd) × (before event_fd ≡ false)
      unopened =
          let z = sym (h event_fd) ∙ f in
          elim (ℕ_discrete event_fd fd) [
            | yes q ↦ (absurd (ground (arith, z, eq→== event_fd fd q)))
            | no q ↦ ((λ r. q (sym r)), rw (ne→not-== event_fd fd q) at z)
          ]

  after_create-Creates :
      (w : World) (r : Option ℕ × World)
      → Opens (is_open w) r.0 (is_open r.1)
      → Creates (is_open w) (is_open (after_create kernel r).1) (after_create kernel r).0
  unfolding after_create
  after_create-Creates w (none, v) o = o
  after_create-Creates w (some fd, v) (e, o) =
      after_event_fd-Creates (is_open w) fd v e o (new_event_fd v) (kernel.new_event_fd_lem v)

  -- `Create` opens two descriptors that were not open, or, whatever call fails, leaves the open
  -- descriptors as they were.
  pub create-Creates :
      (w : World) → Creates (is_open w) (is_open (create kernel w).1) (create kernel w).0
  unfolding create
  create-Creates w = after_create-Creates w (epoll_create w) (kernel.epoll_create_lem w)

  -- What `Close` leaves of a poller: its descriptors are closed and those that were open before
  -- `Create` are left, or, if `Wake` has failed, all are still open; `running` is not set, and to
  -- close it again does nothing.
  pub record Closes (before now_open after : ℕ → Bool) (ep : Poller)
      (r : CloseResult × Bool × World) : Type 0 where
    pub stopped : r.1 ≡ false
    pub freed : r.0 ≡ closed → (x : ℕ) → after x ≡ before x
    pub kept : r.0 ≡ wake_failed → (x : ℕ) → after x ≡ now_open x
    pub was_running : r.0 ≢ err_closed
    pub again : close kernel ep (r.1, r.2) ≡ (err_closed, false, r.2)

  close-running :
      (before : ℕ → Bool) (ep : Poller) (v : World)
      → before ep.fd ≡ false
      → before ep.event_fd ≡ false
      → ((x : ℕ) → is_open v x ≡ ((x == ep.event_fd) || ((x == ep.fd) || before x)))
      → let r = close kernel ep (true, v) in Closes before (is_open v) (is_open r.2) ep r
  unfolding close
  close-running before ep v e f h = elim (Bool-cases (write_event_fd ep.event_fd v).0) [
    | inl q ↦ rw q (record {
      stopped = refl;
      freed = λ z. absurd (cc);
      kept = λ z x. kernel.write_event_fd_lem ep.event_fd v x;
      was_running = λ z. cc;
      again = refl;
    })
    | inr q ↦ rw q (record {
      stopped = refl;
      freed = λ z x.
          closes_both before ep.fd ep.event_fd (await_done (write_event_fd ep.event_fd v).1) e f
            still x;
      kept = λ z. absurd (cc);
      was_running = λ z. cc;
      again = refl;
    })
  ]
    where
      still :
          (x : ℕ)
          → is_open (await_done (write_event_fd ep.event_fd v).1) x
            ≡ ((x == ep.event_fd) || ((x == ep.fd) || before x))
      still x =
          kernel.await_done_lem (write_event_fd ep.event_fd v).1 x
          ∙ kernel.write_event_fd_lem ep.event_fd v x
          ∙ h x

  -- A poller that `Create` has made, running, with the same descriptors open: `Close` stops it, closes
  -- both of its descriptors and no other, or, if `Wake` fails, none; and a second `Close` is
  -- ErrClosed and does nothing.
  pub create-close :
      (w v u : World) (ep : Poller)
      → create kernel w ≡ (some ep, v)
      → ((x : ℕ) → is_open u x ≡ is_open v x)
      → let r = close kernel ep (true, u) in Closes (is_open w) (is_open u) (is_open r.2) ep r
  create-close w v u ep e same =
      let (f, g, _, h) = subst (λ r. Creates (is_open w) (is_open r.1) r.0) e (create-Creates w) in
      close-running (is_open w) ep u f g (λ x. same x ∙ h x)
