-- ===== src/Kqueue/Leak.antt =====
-- pkg/limpoller/kqueue.go: what `Create` opens `Close` closes, but for a `Create` that fails halfway.
use limnet.Base.{
  ℕ, ◌≡◌, ◌≢◌, refl, sym, ap, subst, ◌∙◌, true, false, not, ◌&&◌, ◌||◌, Option, none, some, ◌==◌,
  inl, inr, Bool-cases, eq→==, ne→not-==,
}
use limnet.Epoll.{Opens, closed, err_closed, wake_failed}
use limnet.Epoll.Descriptors.{close-open}
use limnet.Kqueue.Waiting.{Kernel, after_kqueue, create, close}

module _ (kernel : Kernel) where
  open kernel use {World, is_open, kqueue, add_user, trigger_user, close_fd, await_done}

  -- Where kqueue(2) has opened a descriptor and the kevent(2) that follows fails, `Create` gives no
  -- poller and leaves the descriptor open, which was not before; no other is opened or closed.
  pub create-leaks :
      (w v : World) (fd : ℕ)
      → kqueue w ≡ (some fd, v)
      → (add_user fd v).0 ≡ true
      → ((create kernel w).0 ≡ none)
        × (is_open w fd ≡ false)
        × (is_open (create kernel w).1 fd ≡ true)
        × ((x : ℕ) → x ≢ fd → is_open (create kernel w).1 x ≡ is_open w x)
  unfolding create after_kqueue
  create-leaks w v fd e failed =
      let o = subst (λ r. Opens (is_open w) r.0 (is_open r.1)) e (kernel.kqueue_lem w) in
      let added = kernel.add_user_lem fd v in
      rw e (
        rw failed (
          refl,
          o.0,
          added fd ∙ o.1 fd ∙ simp (eq→== fd fd refl),
          λ x ne. added x ∙ o.1 x ∙ simp (ne→not-== x fd ne),
        ))

  after_kqueue-Opens :
      (w v : World) (fd : ℕ) (r : Option ℕ × World)
      → Opens (is_open w) r.0 (is_open r.1)
      → after_kqueue kernel r ≡ (some fd, v)
      → (is_open w fd ≡ false) × ((x : ℕ) → is_open v x ≡ ((x == fd) || is_open w x))
  unfolding after_kqueue
  after_kqueue-Opens w v fd (none, u) o e = absurd (cc)
  after_kqueue-Opens w v fd (some k, u) (f, o) e = elim (Bool-cases (add_user k u).0) [
    | inl q ↦ absurd (let z = simp q at e in cc)
    | inr q ↦
        let z = simp q at e in
        let same : k ≡ fd = cc in
        let after : (add_user k u).1 ≡ v = cc in
        subst (λ n. (is_open w n ≡ false) × ((x : ℕ) → is_open v x ≡ ((x == n) || is_open w x)))
          same (f, λ x. ap (λ t. is_open t x) (sym after) ∙ kernel.add_user_lem k u x ∙ o x)
  ]

  -- A poller that `Create` has made, running, with the same descriptors open: `Close` closes its
  -- descriptor and no other, or, if `Wake` fails, none; and a second `Close` is ErrClosed and does
  -- nothing.
  pub create-close :
      (w v u : World) (fd : ℕ)
      → create kernel w ≡ (some fd, v)
      → ((x : ℕ) → is_open u x ≡ is_open v x)
      → let r = close kernel fd (true, u) in
        (r.0 ≡ closed → (x : ℕ) → is_open r.2 x ≡ is_open w x)
        × (r.0 ≡ wake_failed → (x : ℕ) → is_open r.2 x ≡ is_open v x)
        × (r.0 ≢ err_closed)
        × (close kernel fd (r.1, r.2) ≡ (err_closed, false, r.2))
  unfolding create close
  create-close w v u fd e same = elim (Bool-cases (trigger_user fd u).0) [
    | inl q ↦
        rw q ((λ z. absurd (cc)), (λ z x. kernel.trigger_user_lem fd u x ∙ same x), (λ z. cc), refl)
    | inr q ↦ rw q ((λ z x. freed x), (λ z. absurd (cc)), (λ z. cc), refl)
  ]
    where
      opened : (is_open w fd ≡ false) × ((x : ℕ) → is_open v x ≡ ((x == fd) || is_open w x))
      opened = after_kqueue-Opens w v fd (kqueue w) (kernel.kqueue_lem w) e

      freed : (x : ℕ) → is_open (close_fd fd (await_done (trigger_user fd u).1)) x ≡ is_open w x
      freed x =
          kernel.close_fd_lem fd (await_done (trigger_user fd u).1) x
          ∙ ap (λ t. not (x == fd) && t)
              (kernel.await_done_lem (trigger_user fd u).1 x
                ∙ kernel.trigger_user_lem fd u x
                ∙ same x
                ∙ opened.1 x)
          ∙ close-open (is_open w) fd x opened.0
