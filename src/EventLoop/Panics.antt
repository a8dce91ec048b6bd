-- ===== src/EventLoop/Panics.antt =====
-- What a job that panics takes with it.
use limnet.Base.{
  suc, ◌≡◌, refl, sym, ap, ◌∙◌, List, [], ◌∷◌, ◌++◌, append_assoc, append-nil, length, take,
}
use limnet.EventLoop.{
  Loop, push, wake_if_idle, read_wake, begin_event, begin_wake, end_handler, execute_jobs,
  job_panics, Step, triggers, checks_flag, reads_wake, begins_event, begins_wake, ends_handler,
  executes, Steps, start, and_then,
}

module _ {J : Type 0} where
  take-begun :
      (xs : List J) (job : J) (ys : List J)
      → take (suc (length xs)) (xs ++ (job ∷ ys)) ≡ xs ++ (job ∷ [])
  take-begun [] job ys = refl
  take-begun (x ∷ xs) job ys = ap (λ t. x ∷ t) (take-begun xs job ys)

  -- the jobs that are pushed on the way, in both records
  record Grows (l m : Loop J) : Type 0 where
    pub later : List J
    pub pushed_lem : m.pushed ≡ l.pushed ++ later
    pub all_lem : m.executed ++ m.jobs ≡ (l.executed ++ l.jobs) ++ later

  same-Grows :
      (l m : Loop J) → m.pushed ≡ l.pushed → m.executed ++ m.jobs ≡ l.executed ++ l.jobs → Grows l m
  same-Grows l m e f = record {
    later = [];
    pushed_lem = e ∙ sym (append-nil l.pushed);
    all_lem = f ∙ sym (append-nil (l.executed ++ l.jobs));
  }

  Step-Grows : (l m : Loop J) → Step l m → Grows l m
  unfolding push wake_if_idle read_wake begin_event begin_wake end_handler execute_jobs
  Step-Grows l m (triggers job) = record {
    later = job ∷ [];
    pushed_lem = refl;
    all_lem = sym (append_assoc l.executed l.jobs (job ∷ []));
  }
  Step-Grows l m (checks_flag n e) = same-Grows l m refl refl
  Step-Grows l m (reads_wake p e) = same-Grows l m refl refl
  Step-Grows l m (begins_event p) = same-Grows l m refl refl
  Step-Grows l m (begins_wake p e) = same-Grows l m refl refl
  Step-Grows l m (ends_handler p) = same-Grows l m refl refl
  Step-Grows l m (executes p) = same-Grows l m refl (append-nil (l.executed ++ l.jobs))

  Grows-trans : (l m n : Loop J) → Grows l m → Grows m n → Grows l n
  Grows-trans l m n a b = record {
    later = a.later ++ b.later;
    pushed_lem =
        b.pushed_lem ∙ ap (λ t. t ++ b.later) a.pushed_lem ∙ append_assoc l.pushed a.later b.later;
    all_lem =
        b.all_lem
        ∙ ap (λ t. t ++ b.later) a.all_lem
        ∙ append_assoc (l.executed ++ l.jobs) a.later b.later;
  }

  Steps-Grows : (l m : Loop J) → Steps l m → Grows l m
  Steps-Grows l m start = same-Grows l l refl refl
  Steps-Grows l n (and_then {m} run step) =
      Grows-trans l m n (Steps-Grows l m run) (Step-Grows m n step)

  -- Where a job panics in `ExecuteJobs`, the jobs behind it in the queue are lost: however the loop goes
  -- on, where nothing else panics, the jobs that have begun and those that wait are those that had begun
  -- before, then the jobs up to the one that panics, then only jobs that have been pushed since.
  pub job_panics-loses :
      (l m : Loop J) (xs : List J) (job : J) (ys : List J)
      → l.jobs ≡ xs ++ (job ∷ ys)
      → Steps (job_panics (length xs) l) m
      → (later : List J) × (m.pushed ≡ l.pushed ++ later)
        × (m.executed ++ m.jobs ≡ l.executed ++ (xs ++ (job ∷ later)))
  unfolding job_panics
  job_panics-loses l m xs job ys e run =
      let g = Steps-Grows (job_panics (length xs) l) m run in
      let begun = ap (take (suc (length xs))) e ∙ take-begun xs job ys in
      (
        g.later,
        g.pushed_lem,
        g.all_lem
            ∙ ap (λ t. t ++ g.later) (append-nil (l.executed ++ take (suc (length xs)) l.jobs))
            ∙ ap (λ t. (l.executed ++ t) ++ g.later) begun
            ∙ append_assoc l.executed (xs ++ (job ∷ [])) g.later
            ∙ ap (λ t. l.executed ++ t) (append_assoc xs (job ∷ []) g.later),
      )
