-- ===== src/SpinLock.antt =====
-- pkg/limutil/spinlock.go and pkg/eventloop/queue.go: any number of goroutines in `Push` and
-- `ExecuteJobs`, a shared access at a time. `calls` to come back and the jobs that `ExecuteJobs` runs
-- after it has let go of the lock are not part of it.
pub mod Exclusion
pub mod Atomicity
mod Examples
use native.Mathlib.Decide.{ℕ_discrete}
use mathlib.Core.Logic.{ite}
use limnet.Base.{ℕ, ◌≡◌, ◌≢◌, Bool, true, false, List, [], ◌∷◌, ◌++◌}

-- What a goroutine does: `Push` of a job, or the part of `ExecuteJobs` under the lock.
pub data Op (J : Type 0) : Type 0 where
  push : J → Op J
  take : Op J

-- The word of the lock and the queue. `pushed` and `taken` record the jobs that have been put in and
-- taken out.
pub record Queue (J : Type 0) : Type 0 where
  pub lock : ℕ
  pub jobs : List J
  pub pushed : List J
  pub taken : List J

-- Where a goroutine stands, with the value of `q.jobs` that it has read.
pub data Pc (J : Type 0) : Type 0 where
  outside : Pc J
  locking : Op J → Pc J
  entered : Op J → Pc J
  loaded : Op J → List J → Pc J
  stored : Op J → List J → Pc J

pub record System (J : Type 0) : Type 0 where
  pub mem : Queue J
  pub pc : ℕ → Pc J

-- between the return of `Lock` and `Unlock`
abbrev pub critical : {J : Type 0} → Pc J → Bool
critical outside = false
critical (locking op) = false
critical (entered op) = true
critical (loaded op js) = true
critical (stored op js) = true

module _ {J : Type 0} where
  -- `q.jobs = append(q.jobs, job)` and `q.jobs = nil`, with the value that was read
  abbrev pub store : Op J → List J → Queue J → Queue J
  store (push j) js m = record m { jobs = js ++ (j ∷ []); pushed = m.pushed ++ (j ∷ []) }
  store take js m = record m { jobs = []; taken = m.taken ++ js }

  -- `Lock` spins over the compare-and-swap, which wins or loses.
  pub data Move (m : Queue J) : Pc J → Queue J → Pc J → Type 0 where
    calls : (op : Op J) → Move m outside m (locking op)
    wins : {op : Op J} → m.lock ≡ 0 → Move m (locking op) (record m { lock = 1 }) (entered op)
    loses : {op : Op J} → m.lock ≢ 0 → Move m (locking op) m (locking op)
    loads : {op : Op J} → Move m (entered op) m (loaded op m.jobs)
    stores : {op : Op J} {js : List J} → Move m (loaded op js) (store op js m) (stored op js)
    unlocks : {op : Op J} {js : List J} → Move m (stored op js) (record m { lock = 0 }) outside

  abbrev pub update : (ℕ → Pc J) → ℕ → Pc J → ℕ → Pc J
  update pc i p k = ite (ℕ_discrete i k) p (pc k)

  -- Goroutine `i` makes a step.
  pub data Step (s : System J) : System J → Type 0 where
    pick :
        (i : ℕ) {m : Queue J} {p : Pc J}
        → Move s.mem (s.pc i) m p
        → Step s (record { mem = m; pc = update s.pc i p })

  abbrev pub init : System J
  init = record { mem = record { lock = 0; jobs = []; pushed = []; taken = [] }; pc = λ i. outside }

  pub data Reach : System J → Type 0 where
    start : Reach init
    later : {s t : System J} → Reach s → Step s t → Reach t
