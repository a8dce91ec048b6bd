-- ===== src/EventLoop/Run/Executes.antt =====
-- Every round of `Run` in which something happens executes the jobs that were queued.
use limnet.Base.{
  ℕ, ◌≡◌, ◌≢◌, refl, sym, ap, ap₂, ◌∙◌, Bool, true, false, none, some, Option, List, [], ◌∷◌, ◌++◌,
  append_assoc, append-nil, length, Bool-cases, inl, inr, ◌⊎◌,
}
use limnet.Base.Int.{ℤ, pos, negsuc}
use limnet.PollLoop.{Source, Waited, ready, for_events, end_round, after_wait, poll_round}
use limnet.EventLoop.Run.{
  Turn, RunHost, State, call_handler, look_up, do_jobs, execute_jobs, handle_event, run_round,
}

-- The jobs that have been executed, to which only `do_job` adds, and the jobs that have been pushed; whatever
-- happens, others only push jobs behind those that are queued.
pub record JobLog {H J World E : Type 0} (host : RunHost H J World)
    (source : Source E (Turn H J World)) : Type 0 where
  pub executed : World → List J
  pub pushed : World → List J
  pub handle_lem :
      (h : H) (fd events : ℕ) (s : State host)
      → let t = (host.handle h fd events s).1 in
        (executed t.world ≡ executed s.1.world)
        × (new : List J) × (t.jobs ≡ s.1.jobs ++ new)
        × (pushed t.world ≡ pushed s.1.world ++ new)
  pub do_job_lem :
      (job : J) (s : State host)
      → let t = (host.do_job job s).1 in
        (executed t.world ≡ executed s.1.world ++ (job ∷ []))
        × (new : List J) × (t.jobs ≡ s.1.jobs ++ new)
        × (pushed t.world ≡ pushed s.1.world ++ new)
  pub drain_lem :
      (t : Turn H J World)
      → (executed (source.drain t).world ≡ executed t.world)
        × ((source.drain t).jobs ≡ t.jobs)
        × (pushed (source.drain t).world ≡ pushed t.world)

module _ {H J World E : Type 0} (host : RunHost H J World) (source : Source E (Turn H J World))
    (log : JobLog host source) where
  open log use {executed, pushed}

  done_by : State host → List J
  done_by s = executed s.1.world

  -- the jobs executed, and behind them those that are queued
  known_by : State host → List J
  known_by s = done_by s ++ s.1.jobs

  -- Nothing is taken back, and what is new has been pushed.
  record Grows (s t : State host) : Type 0 where
    more : List J
    known_lem : known_by t ≡ known_by s ++ more
    pushed_lem : pushed t.1.world ≡ pushed s.1.world ++ more
    since : List J
    since_lem : done_by t ≡ done_by s ++ since

  -- What was queued has been executed, and behind it some of the jobs that have been pushed since; what
  -- has not been executed of them is queued, and each job is in one of the two places, once.
  pub record Executed (s t : State host) : Type 0 where
    pub more : List J
    pub done_lem : executed t.1.world ≡ (executed s.1.world ++ s.1.jobs) ++ more
    pub new : List J
    pub pushed_lem : pushed t.1.world ≡ pushed s.1.world ++ new
    pub once_lem : executed t.1.world ++ t.1.jobs ≡ (executed s.1.world ++ s.1.jobs) ++ new

  Grows-refl : (s : State host) → Grows s s
  Grows-refl s = record {
    more = [];
    known_lem = sym (append-nil (known_by s));
    pushed_lem = sym (append-nil (pushed s.1.world));
    since = [];
    since_lem = sym (append-nil (done_by s));
  }

  Grows-trans : (s t u : State host) → Grows s t → Grows t u → Grows s u
  Grows-trans s t u g h = record {
    more = g.more ++ h.more;
    known_lem =
        h.known_lem ∙ ap (λ x. x ++ h.more) g.known_lem ∙ append_assoc (known_by s) g.more h.more;
    pushed_lem =
        h.pushed_lem
        ∙ ap (λ x. x ++ h.more) g.pushed_lem
        ∙ append_assoc (pushed s.1.world) g.more h.more;
    since = g.since ++ h.since;
    since_lem =
        h.since_lem ∙ ap (λ x. x ++ h.since) g.since_lem ∙ append_assoc (done_by s) g.since h.since;
  }

  same-Grows :
      (s t : State host) (new : List J)
      → done_by t ≡ done_by s
      → t.1.jobs ≡ s.1.jobs ++ new
      → pushed t.1.world ≡ pushed s.1.world ++ new
      → Grows s t
  unfolding known_by
  same-Grows s t new e f g = record {
    more = new;
    known_lem =
        ap (λ x. x ++ t.1.jobs) e
        ∙ ap (λ x. done_by s ++ x) f
        ∙ sym (append_assoc (done_by s) s.1.jobs new);
    pushed_lem = g;
    since = [];
    since_lem = e ∙ sym (append-nil (done_by s));
  }

  Executed-Grows : (s t : State host) → Executed s t → Grows s t
  unfolding known_by done_by
  Executed-Grows s t x = record {
    more = x.new;
    known_lem = x.once_lem;
    pushed_lem = x.pushed_lem;
    since = s.1.jobs ++ x.more;
    since_lem = x.done_lem ∙ append_assoc (executed s.1.world) s.1.jobs x.more;
  }

  Executed-later : (s t u : State host) → Executed s t → Grows t u → Executed s u
  unfolding done_by known_by
  Executed-later s t u x g = record {
    more = x.more ++ g.since;
    done_lem =
        g.since_lem
        ∙ ap (λ y. y ++ g.since) x.done_lem
        ∙ append_assoc (executed s.1.world ++ s.1.jobs) x.more g.since;
    new = x.new ++ g.more;
    pushed_lem =
        g.pushed_lem
        ∙ ap (λ y. y ++ g.more) x.pushed_lem
        ∙ append_assoc (pushed s.1.world) x.new g.more;
    once_lem =
        g.known_lem
        ∙ ap (λ y. y ++ g.more) x.once_lem
        ∙ append_assoc (executed s.1.world ++ s.1.jobs) x.new g.more;
  }

  Grows-Executed : (s t u : State host) → Grows s t → Executed t u → Executed s u
  unfolding known_by done_by
  Grows-Executed s t u g x = record {
    more = g.more ++ x.more;
    done_lem =
        x.done_lem
        ∙ ap (λ y. y ++ x.more) g.known_lem
        ∙ append_assoc (executed s.1.world ++ s.1.jobs) g.more x.more;
    new = g.more ++ x.new;
    pushed_lem =
        x.pushed_lem
        ∙ ap (λ y. y ++ x.new) g.pushed_lem
        ∙ append_assoc (pushed s.1.world) g.more x.new;
    once_lem =
        x.once_lem
        ∙ ap (λ y. y ++ x.new) g.known_lem
        ∙ append_assoc (executed s.1.world ++ s.1.jobs) g.more x.new;
  }

  look_up-Grows : (fd : ℤ) (events : ℕ) (s : State host) → Grows s (look_up host fd events s)
  unfolding done_by
  look_up-Grows (negsuc n) events s = Grows-refl s
  look_up-Grows (pos fd) events s = called (s.1.handlers fd)
    where
      called : (h : Option H) → Grows s (call_handler host h fd events s)
      called none = Grows-refl s
      called (some h) =
          let (e, new, f, g) = log.handle_lem h fd events s in
          same-Grows s (host.handle h fd events s) new e f g

  done-do_jobs :
      (jobs : List J) (s : State host) → done_by (do_jobs host jobs s) ≡ done_by s ++ jobs
  unfolding done_by
  done-do_jobs [] s = sym (append-nil (done_by s))
  done-do_jobs (job ∷ jobs) s =
      done-do_jobs jobs (host.do_job job s)
      ∙ ap (λ x. x ++ jobs) (log.do_job_lem job s).0
      ∙ append_assoc (done_by s) (job ∷ []) jobs

  pushed-do_jobs :
      (jobs : List J) (s : State host)
      → let t = (do_jobs host jobs s).1 in
        (new : List J) × (t.jobs ≡ s.1.jobs ++ new) × (pushed t.world ≡ pushed s.1.world ++ new)
  pushed-do_jobs [] s = ([], sym (append-nil s.1.jobs), sym (append-nil (pushed s.1.world)))
  pushed-do_jobs (job ∷ jobs) s =
      let (_, one, e, f) = log.do_job_lem job s in
      let (more, g, h) = pushed-do_jobs jobs (host.do_job job s) in
      (
        one ++ more,
        g ∙ ap (λ x. x ++ more) e ∙ append_assoc s.1.jobs one more,
        h ∙ ap (λ x. x ++ more) f ∙ append_assoc (pushed s.1.world) one more,
      )

  execute_jobs-Executed : (s : State host) → Executed s (execute_jobs host s)
  unfolding execute_jobs done_by
  execute_jobs-Executed (running, t) =
      let (new, queued, told) = pushed-do_jobs t.jobs (running, record t { jobs = [] }) in
      let all = done-do_jobs t.jobs (running, record t { jobs = [] }) in
      record {
        more = [];
        done_lem = all ∙ sym (append-nil (executed t.world ++ t.jobs));
        new = new;
        pushed_lem = told;
        once_lem = ap₂ ◌++◌ all queued;
      }

  handle_event-Executed :
      (fd : ℤ) (events : ℕ) (s : State host) → Executed s (handle_event host fd events s)
  unfolding handle_event
  handle_event-Executed fd events s =
      let t = look_up host fd events s in
      Grows-Executed s t (execute_jobs host t) (look_up-Grows fd events s) (execute_jobs-Executed t)

  drain-Grows : (running : Bool) (t : Turn H J World) → Grows (running, t) (running, source.drain t)
  unfolding done_by
  drain-Grows running t =
      let (e, f, g) = log.drain_lem t in
      same-Grows (running, t) (running, source.drain t) [] e (f ∙ sym (append-nil t.jobs))
        (g ∙ sym (append-nil (pushed t.world)))

  -- the loop over the events: something has been executed, or there is a wake-up
  record Ahead (es : List E) (woken : Bool) (s : State host) (r : Bool × Bool × Turn H J World)
      : Type 0 where
    kept : Grows s (r.1, r.2)
    still_woken : woken ≡ true → r.0 ≡ true
    some_event : es ≢ [] → (r.0 ≡ true) ⊎ Executed s (r.1, r.2)

  for_events-Ahead :
      (es : List E) (woken running : Bool) (t : Turn H J World)
      → Ahead es woken (running, t) (for_events source (handle_event host) es (woken, running, t))
  unfolding for_events
  for_events-Ahead [] woken running t = record {
    kept = Grows-refl (running, t);
    still_woken = λ e. e;
    some_event = λ ne. absurd (ne refl);
  }
  for_events-Ahead (e ∷ es) woken running t = elim (Bool-cases (source.is_wake e)) [
    | inl q ↦
        let ih = for_events-Ahead es true running (source.drain t) in
        let r = for_events source (handle_event host) es (true, running, source.drain t) in
        simp q (record {
          kept =
              Grows-trans (running, t) (running, source.drain t) (r.1, r.2) (drain-Grows running t)
                ih.kept;
          still_woken = λ _. ih.still_woken refl;
          some_event = λ _. inl (ih.still_woken refl);
        })
    | inr q ↦
        let s = handle_event host (pos (source.fd_of e)) (source.events_of e) (running, t) in
        let x = handle_event-Executed (pos (source.fd_of e)) (source.events_of e) (running, t) in
        let ih = for_events-Ahead es woken s.0 s.1 in
        let r = for_events source (handle_event host) es (woken, s.0, s.1) in
        simp q (record {
          kept = Grows-trans (running, t) s (r.1, r.2) (Executed-Grows (running, t) s x) ih.kept;
          still_woken = ih.still_woken;
          some_event = λ _. inr (Executed-later (running, t) s (r.1, r.2) x ih.kept);
        })
  ]

  end_round-Executed :
      (n len : ℕ) (s : State host) (r : Bool × Bool × Turn H J World)
      → Grows s (r.1, r.2)
      → (r.0 ≡ true) ⊎ Executed s (r.1, r.2)
      → let o = end_round source (handle_event host) n len r in Executed s (o.1, o.2)
  unfolding end_round
  end_round-Executed n len s (true, running, t) g x =
      let u : State host = (running, t) in
      Grows-Executed s u (handle_event host (negsuc 0) 0 u) g (handle_event-Executed (negsuc 0) 0 u)
  end_round-Executed n len s (false, running, t) g (inl e) = absurd (cc)
  end_round-Executed n len s (false, running, t) g (inr x) = x

  -- Every round of `Run` in which the poller gives an event, be it only a wake-up, executes the jobs
  -- that are queued when it has given it, first of all and in their order, where handlers, jobs and
  -- other goroutines add to the queue only at its end, and handlers execute no job themselves. With
  -- the jobs that are pushed meanwhile, behind those, each has then been executed once or is queued
  -- once, in the order of the pushes.
  pub run_round-Executed :
      (wait : ℕ → State host → Waited E × Bool × Turn H J World) (len : ℕ) (s : State host)
      (es : List E) (running : Bool) (t : Turn H J World)
      → wait len s ≡ (ready es, running, t)
      → es ≢ []
      → let o = run_round host source wait len s in Executed (running, t) (o.1, o.2)
  unfolding run_round poll_round after_wait
  run_round-Executed wait len s es running t e ne =
      let a = for_events-Ahead es false running t in
      let r = for_events source (handle_event host) es (false, running, t) in
      rw e (end_round-Executed (length es) len (running, t) r a.kept (a.some_event ne))
