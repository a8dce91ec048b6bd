-- ===== src/SpinLock/Exclusion.antt =====
-- At most one goroutine is between `Lock` and `Unlock`.
use native.Mathlib.Decide.{ℕ_discrete}
use mathlib.Core.Logic.{ite}
use limnet.Base.{ℕ, ◌≡◌, ◌≢◌, refl, ap, ◌∙◌, true, false, arith, Bool-cases, inl, inr}
use limnet.SpinLock.{
  push, take, Queue, Pc, outside, locking, entered, loaded, stored, critical, store, Move, calls,
  wins, loses, loads, stores, unlocks, System, update, pick, Reach, start, later,
}

module _ {J : Type 0} where
  -- What a goroutine has read of the queue is still there.
  abbrev pub IsFresh : Queue J → Pc J → Type 0
  IsFresh m outside = Unit
  IsFresh m (locking op) = Unit
  IsFresh m (entered op) = Unit
  IsFresh m (loaded op js) = m.jobs ≡ js
  IsFresh m (stored op js) = Unit

  pub record IsSafe (m : Queue J) (pc : ℕ → Pc J) : Type 0 where
    pub free : m.lock ≡ 0 → (i : ℕ) → critical (pc i) ≡ false
    pub one : (i j : ℕ) → critical (pc i) ≡ true → critical (pc j) ≡ true → i ≡ j
    pub fresh : (i : ℕ) → IsFresh m (pc i)

  outside-IsFresh : (m : Queue J) (p : Pc J) → critical p ≡ false → IsFresh m p
  outside-IsFresh m outside e = tt
  outside-IsFresh m (locking op) e = tt
  outside-IsFresh m (entered op) e = tt
  outside-IsFresh m (loaded op js) e = absurd (cc)
  outside-IsFresh m (stored op js) e = tt

  same-IsFresh : (m m' : Queue J) (p : Pc J) → m'.jobs ≡ m.jobs → IsFresh m p → IsFresh m' p
  same-IsFresh m m' outside e h = tt
  same-IsFresh m m' (locking op) e h = tt
  same-IsFresh m m' (entered op) e h = tt
  same-IsFresh m m' (loaded op js) e h = e ∙ h
  same-IsFresh m m' (stored op js) e h = tt

  module _ (m : Queue J) (pc : ℕ → Pc J) (v : IsSafe m pc) (i : ℕ) where
    Move-free :
        {p p' : Pc J} {m' : Queue J}
        → Move m p m' p'
        → pc i ≡ p
        → m'.lock ≡ 0
        → (k : ℕ) → critical (update pc i p' k) ≡ false
    Move-free (calls op) e z k = ground (arith, v.free z k)
    Move-free (wins h) e z k = absurd (omega arith)
    Move-free (loses h) e z k = absurd (h z)
    Move-free loads e z k = ground (arith, v.free z i, e)
    Move-free (stores {op = push j}) e z k = ground (arith, v.free z i, e)
    Move-free (stores {op = take}) e z k = ground (arith, v.free z i, e)
    Move-free unlocks e z k = ground (arith, v.one i k, e)

    Move-one :
        {p p' : Pc J} {m' : Queue J}
        → Move m p m' p'
        → pc i ≡ p
        → (j k : ℕ) → critical (update pc i p' j) ≡ true
        → critical (update pc i p' k) ≡ true
        → j ≡ k
    Move-one (calls op) e j k x y = ground (arith, v.one j k)
    Move-one (wins {op} h) e j k x y = ground (arith, v.free h j, v.free h k, e)
    Move-one (loses h) e j k x y = ground (arith, v.one j k)
    Move-one loads e j k x y = ground (arith, v.one j k, v.one i k, v.one j i, e)
    Move-one stores e j k x y = ground (arith, v.one j k, v.one i k, v.one j i, e)
    Move-one unlocks e j k x y = ground (arith, v.one j k)

    -- another goroutine, where this one is inside and writes
    other-IsFresh : (m' : Queue J) (k : ℕ) → critical (pc i) ≡ true → (i ≢ k) → IsFresh m' (pc k)
    other-IsFresh m' k inside ne = outside-IsFresh m' (pc k) (elim (Bool-cases (critical (pc k))) [
      | inl q ↦ absurd (ne (v.one i k inside q))
      | inr q ↦ q
    ])

    Move-IsFresh :
        {p p' : Pc J} {m' : Queue J}
        → Move m p m' p'
        → pc i ≡ p
        → IsFresh m' p' × ((k : ℕ) → i ≢ k → IsFresh m' (pc k))
    Move-IsFresh (calls op) e = (tt, λ k ne. v.fresh k)
    Move-IsFresh (wins {op} h) e =
        (tt, λ k ne. same-IsFresh m (record m { lock = 1 }) (pc k) refl (v.fresh k))
    Move-IsFresh (loses h) e = (tt, λ k ne. v.fresh k)
    Move-IsFresh loads e = (refl, λ k ne. v.fresh k)
    Move-IsFresh (stores {op} {js}) e =
        (tt, λ k ne. other-IsFresh (store op js m) k (ap critical e) ne)
    Move-IsFresh unlocks e =
        (tt, λ k ne. same-IsFresh m (record m { lock = 0 }) (pc k) refl (v.fresh k))

    Move-IsSafe : (p' : Pc J) (m' : Queue J) → Move m (pc i) m' p' → IsSafe m' (update pc i p')
    Move-IsSafe p' m' mv =
        let (mine, others) = Move-IsFresh mv refl in
        record {
          free = Move-free mv refl;
          one = Move-one mv refl;
          fresh = λ k. elim (ℕ_discrete i k) as (λ d. IsFresh m' (ite d p' (pc k))) [
            | yes q ↦ mine
            | no q ↦ others k q
          ];
        }

  pub Reach-IsSafe : (s : System J) → Reach s → IsSafe s.mem s.pc
  Reach-IsSafe s start = record {
    free = λ z i. refl;
    one = λ i j e f. absurd (cc);
    fresh = λ i. tt;
  }
  Reach-IsSafe s (later {s = r} run (pick i {m} {p} mv)) =
      Move-IsSafe r.mem r.pc (Reach-IsSafe r run) i p m mv

  -- However any number of goroutines interleave in `Push` and `ExecuteJobs`, at most one of them is
  -- between `Lock` and `Unlock`, and none is while the word of the lock is 0.
  pub Reach-excludes :
      (s : System J)
      → Reach s
      → ((i j : ℕ) → critical (s.pc i) ≡ true → critical (s.pc j) ≡ true → i ≡ j)
        × (s.mem.lock ≡ 0 → (i : ℕ) → critical (s.pc i) ≡ false)
  Reach-excludes s run = let v = Reach-IsSafe s run in (v.one, v.free)
