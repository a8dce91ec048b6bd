-- ===== src/SpinLock/Atomicity.antt =====
-- Under the lock `Push` and the taking of the jobs are one step each, as in the model of the event loop.
use limnet.Base.{◌≡◌, refl, sym, ap, ◌∙◌, subst, List, [], ◌∷◌, ◌++◌, append-nil, append_assoc}
use limnet.SpinLock.{
  Op, push, take, Queue, Pc, store, Move, calls, wins, loses, loads, stores, unlocks, System, pick,
  Reach, start, later,
}
use limnet.SpinLock.Exclusion.{IsSafe, IsFresh, Reach-IsSafe}

-- A queue that is not shared, with the jobs that have been put in and taken out
pub record View (J : Type 0) : Type 0 where
  pub jobs : List J
  pub pushed : List J
  pub taken : List J

module _ {J : Type 0} where
  abbrev pub view : Queue J → View J
  view m = record { jobs = m.jobs; pushed = m.pushed; taken = m.taken }

  abbrev pub no_view : View J
  no_view = record { jobs = []; pushed = []; taken = [] }

  -- A job goes to the end of the queue, or all of them are taken out.
  pub data Atomic (v : View J) : View J → Type 0 where
    pushes :
        (job : J)
        → Atomic v (record v { jobs = v.jobs ++ (job ∷ []); pushed = v.pushed ++ (job ∷ []) })
    takes : Atomic v (record v { jobs = []; taken = v.taken ++ v.jobs })

  pub data Runs (v : View J) : View J → Type 0 where
    stays : Runs v v
    runs : {u w : View J} → Runs v u → Atomic u w → Runs v w

  Runs-kept : (v : View J) → Runs no_view v → v.taken ++ v.jobs ≡ v.pushed
  Runs-kept v stays = refl
  Runs-kept v (runs {u} run (pushes job)) =
      sym (append_assoc u.taken u.jobs (job ∷ [])) ∙ ap (λ t. t ++ (job ∷ [])) (Runs-kept u run)
  Runs-kept v (runs {u} run takes) = append-nil (u.taken ++ u.jobs) ∙ Runs-kept u run

  -- The store is the whole of `Push` or of the taking; it needs that what was read is still there.
  store-Runs :
      (v : View J) (op : Op J) (js : List J) (m : Queue J)
      → m.jobs ≡ js
      → Runs v (view m)
      → Runs v (view (store op js m))
  store-Runs v (push job) js m e run =
      subst
        (λ x.
          Runs v
            (record { jobs = x ++ (job ∷ []); pushed = m.pushed ++ (job ∷ []); taken = m.taken }))
        e (runs run (pushes job))
  store-Runs v take js m e run =
      subst (λ x. Runs v (record { jobs = []; pushed = m.pushed; taken = m.taken ++ x })) e
        (runs run takes)

  Move-Runs :
      (v : View J) {m m' : Queue J} {p p' : Pc J}
      → Move m p m' p'
      → IsFresh m p
      → Runs v (view m)
      → Runs v (view m')
  Move-Runs v (calls op) h run = run
  Move-Runs v (wins e) h run = run
  Move-Runs v (loses e) h run = run
  Move-Runs v loads h run = run
  Move-Runs v {m} (stores {op} {js}) h run = store-Runs v op js m h run
  Move-Runs v unlocks h run = run

  -- Whatever any number of goroutines in `Push` and `ExecuteJobs` have come to, a step at a time, the
  -- queue is what whole calls of the two, one after another, make of it; so the jobs taken out and
  -- then those in the queue are the jobs put in, each once and in order.
  pub Reach-Runs :
      (s : System J)
      → Reach s
      → Runs no_view (view s.mem) × (s.mem.taken ++ s.mem.jobs ≡ s.mem.pushed)
  Reach-Runs s reach = let run = go s reach in (run, Runs-kept (view s.mem) run)
    where
      go : (s : System J) → Reach s → Runs no_view (view s.mem)
      go s start = stays
      go s (later {s = r} before (pick i mv)) =
          Move-Runs no_view mv (IsSafe.fresh (Reach-IsSafe r before) i) (go r before)
