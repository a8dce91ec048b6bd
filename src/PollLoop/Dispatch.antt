-- ===== src/PollLoop/Dispatch.antt =====
-- `Poll` hands every event of a descriptor on, in order.
use limnet.Base.{
  ℕ, ◌*◌, ◌≡◌, refl, sym, subst, ◌∙◌, Bool, true, false, ◌||◌, none, some, List, [], ◌∷◌, ◌++◌,
  ◌==◌, if◌then◌else◌, length, append_assoc, append-nil, ◌↔◌, arith, Bool-cases, inl, inr,
}
use limnet.Base.Int.{ℤ, pos, negsuc}
use limnet.PollLoop.{Source, Waited, ready, for_events, end_round, after_wait, poll_round}

module _ {E W : Type 0} (source : Source E W) where
  -- the events of descriptors, as the handler gets them
  pub descriptor_calls : List E → List (ℤ × ℕ)
  descriptor_calls [] = []
  descriptor_calls (e ∷ es) =
      (if source.is_wake e then [] else (pos (source.fd_of e), source.events_of e) ∷ [])
      ++ descriptor_calls es

  -- Is an event a wake-up?
  pub signals : List E → Bool
  signals [] = false
  signals (e ∷ es) = source.is_wake e || signals es

  -- the calls of the handler that a round of `Poll` makes
  abbrev pub calls : List E → List (ℤ × ℕ)
  calls es = descriptor_calls es ++ (if signals es then (negsuc 0, 0) ∷ [] else [])

  -- A log of the handler's calls, which nothing else writes.
  pub record Logs (handler : ℤ → ℕ → Bool × W → Bool × W) : Type 0 where
    pub log : W → List (ℤ × ℕ)
    pub handler_lem :
        (fd : ℤ) (events : ℕ) (s : Bool × W)
        → log (handler fd events s).1 ≡ log s.1 ++ ((fd, events) ∷ [])
    pub drain_lem : (w : W) → log (source.drain w) ≡ log w

or_false : (b : Bool) → b ≡ (b || false)
or_false true = refl
or_false false = refl

module _ {E W : Type 0} (source : Source E W) (handler : ℤ → ℕ → Bool × W → Bool × W)
    (logs : Logs source handler) where
  open logs use {log}

  for_events-calls :
      (es : List E) (woken running : Bool) (w : W)
      → let r = for_events source handler es (woken, running, w) in
        (r.0 ≡ (woken || signals source es)) × (log r.2 ≡ log w ++ descriptor_calls source es)
  unfolding for_events signals descriptor_calls
  for_events-calls [] woken running w = (or_false woken, sym (append-nil (log w)))
  for_events-calls (e ∷ es) woken running w = elim (Bool-cases (source.is_wake e)) [
    | inl q ↦
        let ih = for_events-calls es true running (source.drain w) in
        (simp (q, ih.0) (ground arith), simp (q, ih.1, logs.drain_lem))
    | inr q ↦
        let s = handler (pos (source.fd_of e)) (source.events_of e) (running, w) in
        let ih = for_events-calls es woken s.0 s.1 in
        (simp (q, ih.0), simp (q, ih.1, logs.handler_lem, append_assoc))
  ]

  end_round-calls :
      (n len : ℕ) (woken running : Bool) (w : W)
      → let r = end_round source handler n len (woken, running, w) in
        (log r.2 ≡ log w ++ (if woken then (negsuc 0, 0) ∷ [] else []))
        × ((r.0 ≡ none) ↔ ((woken ≡ true) × (r.1 ≡ false)))
        × ((next : ℕ) → r.0 ≡ some next → next ≡ (if n == len then n * 2 else len))
  unfolding end_round
  end_round-calls n len true running w =
      (logs.handler_lem (negsuc 0) 0 (running, w), ground arith, λ next e. ground arith)
  end_round-calls n len false running w =
      (sym (append-nil (log w)), ground arith, λ next e. ground arith)

  -- A round of `Poll` in which the kernel gives events calls the handler for each event of a
  -- descriptor, in order, and once more, at the end, if one of them is a wake-up. It returns
  -- exactly if there is one and `running` is then not set; otherwise it goes on, with twice the buffer
  -- if that was full.
  pub poll_round-calls :
      (wait : ℕ → Bool × W → Waited E × Bool × W) (len : ℕ) (s : Bool × W) (es : List E)
      (running : Bool) (w : W)
      → wait len s ≡ (ready es, running, w)
      → let r = poll_round source handler wait len s in
        (log r.2 ≡ log w ++ calls source es)
        × ((r.0 ≡ none) ↔ ((signals source es ≡ true) × (r.1 ≡ false)))
        × ((next : ℕ) → r.0 ≡ some next → next ≡ (if length es == len then length es * 2 else len))
  unfolding poll_round after_wait
  poll_round-calls wait len s es running w e =
      let r = for_events source handler es (false, running, w) in
      let (woken, made) = for_events-calls es false running w in
      let (last, ends, grows) = end_round-calls (length es) len r.0 r.1 r.2 in
      rw e (
        last ∙ simp (made, woken, append_assoc),
        subst
            (λ b.
              ((end_round source handler (length es) len r).0 ≡ none)
              ↔ ((b ≡ true) × ((end_round source handler (length es) len r).1 ≡ false)))
            woken ends,
        grows,
      )
