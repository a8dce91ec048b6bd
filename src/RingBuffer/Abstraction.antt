-- ===== src/RingBuffer/Abstraction.antt =====
-- The abstract view of a ring buffer as a queue: ring buffers that no calls of its queue operations
-- (Write, WriteByte, Read, ReadByte, LazyRead, Shift, Reset) tell apart are one, and then there is one for
-- each list of bytes. What shows the capacity (Cap, Free, IsFull) and Pool.Put are not among the calls.
use mathlib.Core.HLevel.{Σ_prop_path}
use mathlib.Core.Equiv.{IsEquiv, Iso, iso_to_equiv}
use mathlib.Core.Quot
use mathlib.Core.Quot.{Quot, Quot-set}
use native.Mathlib.Bridge.{le_prop}
use limnet.Base.{
  ℕ, ◌+◌, ◌^◌, ◌≤◌, ◌≡◌, sym, ap, ◌∙◌, Option, some, List, [], ◌∷◌, length, ◌>>=◌, arith,
  take_of_length-le,
}
use limnet.Base.Int.{pos}
use limnet.RingBuffer.Defs.{RingBuffer, unallocated, ring_length}
use limnet.RingBuffer.Inv.{IsValid, contents, length-contents, ring_length-le-size}
use limnet.RingBuffer.Fresh.{unallocated-IsValid}
use limnet.RingBuffer.Append.{write-Appends}
use limnet.RingBuffer.Queue.{
  Call, peeks, Reply, run, queue_run, queue_step, total_written, written_by, run-RunRefines,
}

abbrev pub Buffer : Type 0
Buffer = (b : RingBuffer) × IsValid b × (b.size ≤ 2 ^ 61)

abbrev replies : List Call → RingBuffer → Option (List Reply)
replies cs b = run cs b >>= λ o. some o.0

-- No calls of the queue operations that both have room for tell two ring buffers apart.
abbrev pub Same : Buffer → Buffer → Type 0
Same x y =
    (cs : List Call)
    → length (contents x.0) + total_written cs ≤ 2 ^ 61
    → length (contents y.0) + total_written cs ≤ 2 ^ 61
    → replies cs x.0 ≡ replies cs y.0

abbrev pub Bytes : Type 0
Bytes = (q : List ℕ) × (length q ≤ 2 ^ 61)

pub Bytes-set : IsSet Bytes
Bytes-set = hlevel (le_prop)

replies_lem :
    (cs : List Call) (x : Buffer)
    → length (contents x.0) + total_written cs ≤ 2 ^ 61
    → replies cs x.0 ≡ some (queue_run cs (contents x.0)).0
replies_lem cs (b, v, s) h = let (o, f) = run-RunRefines cs b v s h in simp (f.runs, f.same_replies)

pub small_contents : (x : Buffer) → length (contents x.0) ≤ 2 ^ 61
small_contents (b, v, s) = omega (arith, length-contents b v, ring_length-le-size b v)

first_bytes : List Reply → List ℕ
first_bytes [] = []
first_bytes (r ∷ rs) = r.bytes

-- One look at all the bytes is enough.
looked : (n : ℕ) (q : List ℕ) → length q ≤ n → first_bytes (queue_run (peeks (pos n) ∷ []) q).0 ≡ q
unfolding first_bytes queue_run queue_step
looked n q h = take_of_length-le n q h

pub Same-contents : (x y : Buffer) → Same x y → contents x.0 ≡ contents y.0
unfolding total_written written_by
Same-contents x y h =
    let n = length (contents x.0) + length (contents y.0) in
    let cs : List Call = peeks (pos n) ∷ [] in
    let hx = small_contents x in
    let hy = small_contents y in
    let a = replies_lem cs x (omega (arith, hx)) in
    let b = replies_lem cs y (omega (arith, hy)) in
    let e : some (queue_run cs (contents x.0)).0 ≡ some (queue_run cs (contents y.0)).0 =
      sym a ∙ h cs (omega (arith, hx)) (omega (arith, hy)) ∙ b in
    let f : (queue_run cs (contents x.0)).0 ≡ (queue_run cs (contents y.0)).0 = cc in
    sym (looked n (contents x.0) (omega arith))
    ∙ ap first_bytes f
    ∙ looked n (contents y.0) (omega arith)

pub contents-Same : (x y : Buffer) → contents x.0 ≡ contents y.0 → Same x y
contents-Same x y e cs hx hy =
    replies_lem cs x hx ∙ ap (λ q. some (queue_run cs q).0) e ∙ sym (replies_lem cs y hy)

-- Ring buffers, as far as calls can tell.
abbrev pub Observed : Type 0
Observed = Quot Same

bytes_of : Buffer → Bytes
bytes_of x = (contents x.0, small_contents x)

unfoldable pub contents_of : Observed → Bytes
unfolding bytes_of
contents_of =
    Quot.lift Bytes-set bytes_of (λ x y h. Σ_prop_path (λ q. le_prop) (Same-contents x y h))

-- a ring buffer that is new and into which the bytes have been written
stored : (q : Bytes) → (x : Buffer) × (contents x.0 ≡ q.0)
unfolding ring_length
stored (q, h) =
    let (out, ok, a) = write-Appends q unallocated unallocated-IsValid (omega arith) in
    ((out, a.valid, a.capacity 61 (omega arith) (omega arith) (omega (arith, h))), a.bytes)

-- The bytes to read are what the queue operations show of a ring buffer, all of it and no more: ring
-- buffers that no sequence of calls of Write, WriteByte, Read, ReadByte, LazyRead, Shift and Reset, with room
-- for what it writes, tells apart by what the calls return, among those of at most 1 << 61 bytes, are in
-- one-to-one correspondence with the lists of at most as many bytes. Cap, Len, Free and IsFull are not
-- among the calls: two ring buffers that are taken as one may differ in their capacity.
pub contents_of-IsEquiv : IsEquiv contents_of
unfolding contents_of bytes_of
contents_of-IsEquiv = (iso_to_equiv correspondence).1
  where
    correspondence : Iso Observed Bytes
    correspondence = record {
      fun = contents_of;
      inv = λ q. Quot.mk (stored q).0;
      rinv = λ q. Σ_prop_path (λ p. le_prop) (stored q).1;
      linv =
          Quot.ind (λ o. Quot-set _ _)
            (λ x. Quot.sound (contents-Same (stored (bytes_of x)).0 x (stored (bytes_of x)).1));
    }
