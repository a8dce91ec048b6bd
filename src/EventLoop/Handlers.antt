-- ===== src/EventLoop/Handlers.antt =====
-- pkg/eventloop/eventloop.go: which handler an event of a descriptor goes to: `BindHandler`,
-- `DeleteFdInLoop`, the lookup of `handleEvent`, and `Stop`. The map from descriptors to handlers is a
-- function. A result of `true` is an error.
use limnet.Base.{
  ℕ, ◌≡◌, ◌≢◌, refl, Bool, true, false, Option, none, some, List, [], ◌∷◌, ◌==◌, if◌then◌else◌, inl,
  inr, Bool-cases, eq→==, ne→not-==,
}
use limnet.Base.Int.{ℤ, pos, negsuc}

-- `Store` of the map, and with `none` its `Delete`
abbrev pub store {ℓ} : {H : Type ℓ} → ℕ → Option H → (ℕ → Option H) → ℕ → Option H
store fd h handlers x = if x == fd then h else handlers x

-- The poller of the loop, and what handlers do: `handle` may bind and delete others.
pub record LoopPoller (H : Type 0) : Type 1 where
  pub World : Type 0
  pub add_read : ℕ → World → Bool × World
  pub del : ℕ → World → Bool × World
  pub close : World → Bool × World
  pub handle : H → ℕ → ℕ → (ℕ → Option H) × World → (ℕ → Option H) × World
  pub close_handler : H → World → World

module _ {H : Type 0} (poller : LoopPoller H) where
  abbrev pub Bound : Type 0
  Bound = (ℕ → Option H) × poller.World

  unfoldable pub bind_handler : ℕ → H → Bound → Bool × (ℕ → Option H) × poller.World
  bind_handler fd h (handlers, w) =
      let handlers = store fd (some h) handlers in
      let r = poller.add_read fd w in
      if r.0 then (true, store fd none handlers, r.1) else (false, handlers, r.1)

  -- `DeleteFdInLoop`, where an error of the poller is only logged
  unfoldable pub unbind : ℕ → Bound → Bound
  unbind fd (handlers, w) = (store fd none handlers, (poller.del fd w).1)

  abbrev pub handle_with : Option H → ℕ → ℕ → Bound → Bound
  handle_with none fd events s = s
  handle_with (some h) fd events s = poller.handle h fd events s

  -- `handleEvent` between the two settings of `eventHandling`; -1 is a wake-up.
  unfoldable pub handle_event : ℤ → ℕ → Bound → Bound
  handle_event (negsuc n) events s = s
  handle_event (pos fd) events s = handle_with (s.0 fd) fd events s

  -- `Stop`, over the handlers in the order in which `Range` gives them, whose errors are only logged
  unfoldable pub stop : List H → poller.World → Bool × poller.World
  stop [] w = poller.close w
  stop (h ∷ hs) w = stop hs (poller.close_handler h w)

  -- After `BindHandler` an event of the descriptor goes to the handler, or, if the poller refuses the
  -- descriptor, to none; after `DeleteFdInLoop` it goes to none. The handlers of the other
  -- descriptors are as before.
  pub bind_handler-Routes :
      (fd events : ℕ) (h : H) (s : Bound)
      → let r = bind_handler fd h s in
        let bound : Bound = (r.1, r.2) in
        (r.0 ≡ false → handle_event (pos fd) events bound ≡ poller.handle h fd events bound)
        × (r.0 ≡ true → handle_event (pos fd) events bound ≡ bound)
        × (handle_event (pos fd) events (unbind fd bound) ≡ unbind fd bound)
        × ((x : ℕ) → x ≢ fd → (r.1 x ≡ s.0 x) × ((unbind fd bound).0 x ≡ s.0 x))
  unfolding bind_handler unbind handle_event
  bind_handler-Routes fd events h (handlers, w) = elim (Bool-cases (poller.add_read fd w).0) [
    | inl q ↦ rw q (
      (λ e. absurd (cc)),
      (λ e. rw (eq→== fd fd refl) refl),
      rw (eq→== fd fd refl) refl,
      (λ x ne. (rw (ne→not-== x fd ne) refl, rw (ne→not-== x fd ne) refl)),
    )
    | inr q ↦ rw q (
      (λ e. rw (eq→== fd fd refl) refl),
      (λ e. absurd (cc)),
      rw (eq→== fd fd refl) refl,
      (λ x ne. (rw (ne→not-== x fd ne) refl, rw (ne→not-== x fd ne) refl)),
    )
  ]
