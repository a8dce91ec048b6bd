-- ===== src/RingBuffer/Queue.antt =====
-- Any sequence of calls on a ring buffer, against a queue of bytes.
use limnet.Base.{
  ℕ, ◌+◌, ◌^◌, ◌≤◌, ◌≡◌, refl, ap, ap₂, ◌∙◌, Bool, true, false, List, [], ◌∷◌, ◌++◌, length, take,
  drop, copy, min, inl, inr, arith, Option, none, some, if◌then◌else◌, ◌==◌, ◌>>=◌, length-append,
  length-drop, Bool-cases, ◌↔◌,
}
use limnet.Base.Int.{ℤ, pos_part}
use limnet.RingBuffer.Defs.{RingBuffer, RingError, err_is_empty, reset}
use limnet.RingBuffer.Reading.{lazy_read, shift, read, read_byte}
use limnet.RingBuffer.Writing.{write, write_byte}
use limnet.RingBuffer.Inv.{IsValid, contents}
use limnet.RingBuffer.Peek.{lazy_read-Slices}
use limnet.RingBuffer.Consume.{
  size-shift, shift-IsValid, contents-shift, reset-IsValid, contents-reset,
}
use limnet.RingBuffer.Read.{read-Reads, read_byte-Takes}
use limnet.RingBuffer.Fresh.{sizes}
use limnet.RingBuffer.Append.{write-Appends, write_byte-write}

-- A call, with what it is given.
pub data Call : Type 0 where
  writes : List ℕ → Call
  writes_byte : ℕ → Call
  reads : List ℕ → Call
  reads_byte : Call
  peeks : ℤ → Call
  shifts : ℤ → Call
  resets : Call

-- What the caller sees of it: bytes, a count, an error.
pub record Reply : Type 0 where
  pub bytes : List ℕ
  pub count : ℕ
  pub error : Option RingError

abbrev reply : List ℕ → ℕ → Option RingError → Reply
reply bytes count error = record { bytes = bytes; count = count; error = error }

unfoldable pub step : Call → RingBuffer → Option (Reply × RingBuffer)
step (writes p) b = write p b >>= λ o. some (reply [] o.0 o.1, o.2)
step (writes_byte c) b = write_byte c b >>= λ o. some (reply [] 1 o.0, o.1)
step (reads p) b = read p b >>= λ o. some (reply o.p o.n o.err, o.rest)
step reads_byte b = read_byte b >>= λ o. some (reply (o.0 ∷ []) 1 o.1, o.2)
step (peeks n) b = lazy_read n b >>= λ o. some (reply (o.0 ++ o.1) 0 none, b)
step (shifts n) b = some (reply [] 0 none, shift n b)
step resets b = some (reply [] 0 none, reset b)

unfoldable pub run : List Call → RingBuffer → Option (List Reply × RingBuffer)
run [] b = some ([], b)
run (c ∷ cs) b = step c b >>= λ o. run cs o.1 >>= λ rest. some (o.0 ∷ rest.0, rest.1)

-- The same calls on the queue of the bytes, oldest first.
abbrev empty_queue : List ℕ → Bool
empty_queue [] = true
empty_queue (x ∷ q) = false

unfoldable pub queue_step : Call → List ℕ → Reply × List ℕ
queue_step (writes p) q = (reply [] (length p) none, q ++ p)
queue_step (writes_byte c) q = (reply [] 1 none, q ++ (c ∷ []))
queue_step (reads p) q = (
  reply (copy p q) (min (length p) (length q))
      (if length p == 0 then none else if empty_queue q then some err_is_empty else none),
  drop (length p) q,
)
queue_step reads_byte [] = (reply (0 ∷ []) 1 (some err_is_empty), [])
queue_step reads_byte (x ∷ q) = (reply (x ∷ []) 1 none, q)
queue_step (peeks n) q = (reply (take (pos_part n) q) 0 none, q)
queue_step (shifts n) q = (reply [] 0 none, drop (pos_part n) q)
queue_step resets q = (reply [] 0 none, [])

unfoldable pub queue_run : List Call → List ℕ → List Reply × List ℕ
queue_run [] q = ([], q)
queue_run (c ∷ cs) q =
    let (r, q') = queue_step c q in let (rs, q'') = queue_run cs q' in (r ∷ rs, q'')

-- the bytes that a call writes
unfoldable pub written_by : Call → ℕ
written_by (writes p) = length p
written_by (writes_byte c) = 1
written_by other = 0

unfoldable pub total_written : List Call → ℕ
total_written [] = 0
total_written (c ∷ cs) = written_by c + total_written cs

empty_flag : (b : RingBuffer) → IsValid b → b.is_empty ≡ empty_queue (contents b)
empty_flag b v = flag (contents b) (sizes b v).empty_iff
  where
    flag : (q : List ℕ) → (b.is_empty ≡ true) ↔ (q ≡ []) → b.is_empty ≡ empty_queue q
    flag [] e = e.1 refl
    flag (x ∷ q) e = elim (Bool-cases b.is_empty) [ inl t ↦ absurd (cc (e.0 t)) | inr f ↦ f ]

size-reset : (b : RingBuffer) → (reset b).size ≡ b.size
unfolding reset
size-reset b = refl

-- A call does not panic, answers as the queue does, and leaves the queue's bytes.
record Refines (c : Call) (b : RingBuffer) (o : Reply × RingBuffer) : Type 0 where
  runs : step c b ≡ some o
  valid : IsValid o.1
  small : o.1.size ≤ 2 ^ 61
  same_reply : o.0 ≡ (queue_step c (contents b)).0
  same_bytes : contents o.1 ≡ (queue_step c (contents b)).1

step-Refines :
    (c : Call) (b : RingBuffer)
    → IsValid b
    → b.size ≤ 2 ^ 61
    → length (contents b) + written_by c ≤ 2 ^ 61
    → (o : Reply × RingBuffer) × Refines c b o
unfolding step queue_step written_by
step-Refines (writes p) b v s h =
    let (out, ok, a) = write-Appends p b v (omega arith) in
    (
      (reply [] (length p) none, out),
      record {
        runs = rw ok refl;
        valid = a.valid;
        small = a.capacity 61 (omega arith) s h;
        same_reply = refl;
        same_bytes = a.bytes;
      },
    )
step-Refines (writes_byte c) b v s h =
    let (out, ok, _, a) = write_byte-write c b v (omega arith) in
    (
      (reply [] 1 none, out),
      record {
        runs = rw ok refl;
        valid = a.valid;
        small = a.capacity 61 (omega arith) s h;
        same_reply = refl;
        same_bytes = a.bytes;
      },
    )
step-Refines (reads p) b v s h =
    let (res, ok, d) = read-Reads p b v in
    (
      (reply res.p res.n res.err, res.rest),
      record {
        runs = rw ok refl;
        valid = d.valid;
        small = rw d.size_kept s;
        same_reply = cc (d.filled, d.count, d.error, empty_flag b v);
        same_bytes = d.left;
      },
    )
step-Refines reads_byte b v s h = elim (read_byte-Takes b v) [
  | inl (e, ok) ↦ (
    (reply (0 ∷ []) 1 (some err_is_empty), b),
    record {
      runs = rw ok refl;
      valid = v;
      small = s;
      same_reply = rw e refl;
      same_bytes = rw e refl;
    },
  )
  | inr (c, rest, ok, valid, size, e) ↦ (
    (reply (c ∷ []) 1 none, rest),
    record {
      runs = rw ok refl;
      valid = valid;
      small = rw size s;
      same_reply = rw e refl;
      same_bytes = rw e refl;
    },
  )
]
step-Refines (peeks n) b v s h =
    let (ht, ok, e) = lazy_read-Slices n b v in
    (
      (reply (ht.0 ++ ht.1) 0 none, b),
      record {
        runs = rw ok refl;
        valid = v;
        small = s;
        same_reply = ap (λ t. reply t 0 none) e;
        same_bytes = refl;
      },
    )
step-Refines (shifts n) b v s h = (
  (reply [] 0 none, shift n b),
  record {
    runs = refl;
    valid = shift-IsValid n b v;
    small = rw size-shift s;
    same_reply = refl;
    same_bytes = contents-shift n b v;
  },
)
step-Refines resets b v s h = (
  (reply [] 0 none, reset b),
  record {
    runs = refl;
    valid = reset-IsValid b v;
    small = rw size-reset s;
    same_reply = refl;
    same_bytes = contents-reset b;
  },
)

length-queue_step : (c : Call) (q : List ℕ) → length (queue_step c q).1 ≤ length q + written_by c
unfolding queue_step written_by
length-queue_step (writes p) q = omega (arith, length-append q p)
length-queue_step (writes_byte c) q = omega (arith, length-append q (c ∷ []))
length-queue_step (reads p) q = omega (arith, length-drop (length p) q)
length-queue_step reads_byte [] = omega arith
length-queue_step reads_byte (x ∷ q) = omega arith
length-queue_step (peeks n) q = omega arith
length-queue_step (shifts n) q = omega (arith, length-drop (pos_part n) q)
length-queue_step resets q = omega arith

-- What a run of the calls leaves.
pub record RunRefines (cs : List Call) (b : RingBuffer) (o : List Reply × RingBuffer) : Type 0 where
  pub runs : run cs b ≡ some o
  pub valid : IsValid o.1
  pub same_replies : o.0 ≡ (queue_run cs (contents b)).0
  pub same_bytes : contents o.1 ≡ (queue_run cs (contents b)).1

-- No sequence of calls tells a ring buffer from a queue of bytes, and none panics, while the bytes
-- stored and to be written are at most `1 << 61`: the replies are the queue's, and so are the bytes
-- left.
pub run-RunRefines :
    (cs : List Call) (b : RingBuffer)
    → IsValid b
    → b.size ≤ 2 ^ 61
    → length (contents b) + total_written cs ≤ 2 ^ 61
    → (o : List Reply × RingBuffer) × RunRefines cs b o
unfolding run queue_run total_written
run-RunRefines [] b v s h =
    (([], b), record { runs = refl; valid = v; same_replies = refl; same_bytes = refl })
run-RunRefines (c ∷ cs) b v s h =
    let (o, f) = step-Refines c b v s (omega arith) in
    let (rest, g) =
      run-RunRefines cs o.1 f.valid f.small
        (omega (arith, ap length f.same_bytes, length-queue_step c (contents b))) in
    (
      (o.0 ∷ rest.0, rest.1),
      record {
        runs = rw f.runs (rw g.runs refl);
        valid = g.valid;
        same_replies =
            ap₂ ◌∷◌ f.same_reply (g.same_replies ∙ ap (λ t. (queue_run cs t).0) f.same_bytes);
        same_bytes = g.same_bytes ∙ ap (λ t. (queue_run cs t).1) f.same_bytes;
      },
    )
