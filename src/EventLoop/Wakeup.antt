-- ===== src/EventLoop/Wakeup.antt =====
-- No job is lost or executed twice, jobs are executed in their order, and no wake-up is lost.
use limnet.Base.{
  ℕ, true, [], ◌∷◌, ◌++◌, ◌≡◌, ◌≢◌, inl, inr, refl, ap, ◌∙◌, sym, append_assoc, append-nil, arith,
  ◌<◌, Bool-cases,
}
use limnet.EventLoop.{
  in_handler, after_handler, Loop, new_loop, push, wake_if_idle, read_wake, begin_event, begin_wake,
  end_handler, execute_jobs, Step, triggers, checks_flag, reads_wake, begins_event, begins_wake,
  ends_handler, executes, Steps, start, and_then,
}

module _ {J : Type 0} where
  -- Something is bound to make the loop execute the jobs.
  pub data Awaits (l : Loop J) : Type 0 where
    will_check : 0 < l.checks → Awaits l
    is_signalled : l.signalled ≡ true → Awaits l
    has_read : l.wake ≡ true → Awaits l
    handles : l.place ≡ in_handler → Awaits l
    will_execute : l.place ≡ after_handler → Awaits l

  pub record IsSound (l : Loop J) : Type 0 where
    pub in_order : l.executed ++ l.jobs ≡ l.pushed
    pub handling : l.event_handling ≡ true → l.place ≡ in_handler
    pub awaited : l.jobs ≢ [] → Awaits l

  new_loop-IsSound : IsSound new_loop
  new_loop-IsSound = record {
    in_order = refl;
    handling = λ e. absurd (cc);
    awaited = λ ne. absurd (ne refl);
  }

  after_check : (n : ℕ) (l : Loop J) → IsSound l → Awaits l → Awaits (wake_if_idle n l)
  unfolding wake_if_idle
  after_check n l v a = elim (Bool-cases l.event_handling) [
    | inl e ↦ handles (v.handling e)
    | inr e ↦ is_signalled (rw e refl)
  ]

  Step-IsSound : (l m : Loop J) → Step l m → IsSound l → IsSound m
  unfolding push wake_if_idle read_wake begin_event begin_wake end_handler execute_jobs
  Step-IsSound l _ (triggers job) v = record {
    in_order =
        sym (append_assoc l.executed l.jobs (job ∷ [])) ∙ ap (λ t. t ++ (job ∷ [])) v.in_order;
    handling = v.handling;
    awaited = λ _. will_check (omega arith);
  }
  Step-IsSound l _ (checks_flag n e) v = record {
    in_order = v.in_order;
    handling = v.handling;
    awaited = λ ne. after_check n l v (v.awaited ne);
  }
  Step-IsSound l _ (reads_wake p e) v = record {
    in_order = v.in_order;
    handling = v.handling;
    awaited = λ ne. has_read refl;
  }
  Step-IsSound l _ (begins_event p) v = record {
    in_order = v.in_order;
    handling = λ _. refl;
    awaited = λ ne. handles refl;
  }
  Step-IsSound l _ (begins_wake p e) v = record {
    in_order = v.in_order;
    handling = λ _. refl;
    awaited = λ ne. handles refl;
  }
  Step-IsSound l _ (ends_handler p) v = record {
    in_order = v.in_order;
    handling = λ e. absurd (cc);
    awaited = λ ne. will_execute refl;
  }
  Step-IsSound l _ (executes p) v = record {
    in_order = append-nil (l.executed ++ l.jobs) ∙ v.in_order;
    handling = λ e. absurd (let q = v.handling e in cc);
    awaited = λ ne. absurd (ne refl);
  }

  pub Steps-IsSound : (l : Loop J) → Steps new_loop l → IsSound l
  Steps-IsSound _ start = new_loop-IsSound
  Steps-IsSound _ (and_then {m} {n} ss s) = Step-IsSound m n s (Steps-IsSound m ss)

  -- However the goroutines interleave, where no handler and no job panics, the jobs executed and those still queued are the jobs pushed,
  -- each once and in their order; and where jobs are queued, a goroutine is about to test the flag,
  -- or the eventfd is signalled or has been read, or the loop is on its way to `ExecuteJobs`.
  pub Steps-Awaits :
      (l : Loop J) → Steps new_loop l → (l.executed ++ l.jobs ≡ l.pushed) × (l.jobs ≢ [] → Awaits l)
  Steps-Awaits l ss = let v = Steps-IsSound l ss in (v.in_order, v.awaited)
