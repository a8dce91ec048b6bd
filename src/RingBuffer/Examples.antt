-- ===== src/RingBuffer/Examples.antt =====
-- Ring buffers of a few bytes, as tests and as inputs of the theorems.
use limnet.Base.{ℕ, ◌≤◌, ◌≡◌, refl, false, none, some, List, [], ◌∷◌, ◌++◌, inr, arith}
use limnet.Base.Lists.{copy_at}
use limnet.Base.Int.{pos, negsuc}
use limnet.RingBuffer.Ceil.{ceil_to_power_of_two, max_int_head_bit}
use limnet.RingBuffer.Ceil.Least.{IsCeil, ceil_to_power_of_two-IsCeil}
use limnet.RingBuffer.Defs.{RingBuffer, ring_length, free}
use limnet.RingBuffer.Writing.{make_room, place, write}
use limnet.RingBuffer.Inv.{IsValid, contents}
use limnet.RingBuffer.Append.{Appends, write-Appends}
use limnet.RingBuffer.Queue.{Call, Reply, RunRefines, run-RunRefines}
use limnet.RingBuffer.Queue
use limnet.RingBuffer.Export.{ByteBuffers}

-- 7, then 8, 9 round the end of four bytes
abbrev pub bent : RingBuffer
bent = record { buf = 8 ∷ 9 ∷ 5 ∷ 7 ∷ []; size = 4; mask = 3; r = 3; w = 2; is_empty = false }

pub bent-IsValid : IsValid bent
bent-IsValid = record {
  storage = refl;
  power = inr (2, refl);
  mask_lem = refl;
  small = omega arith;
  r_in = omega arith;
  w_in = omega arith;
  at_rest = λ e. absurd (cc);
  none_stored = λ e. absurd (omega arith);
}

bent-contents : contents bent ≡ 7 ∷ 8 ∷ 9 ∷ []
unfolding ring_length
bent-contents = refl

-- a write that fills the buffer, and one that makes it grow
bent_full : write (1 ∷ []) bent ≡ some (1, none, record bent { buf = 8 ∷ 9 ∷ 1 ∷ 7 ∷ []; w = 3 })
unfolding write make_room place free copy_at
bent_full = refl

write-Appends_example :
    (out : RingBuffer) × (write (1 ∷ 2 ∷ []) bent ≡ some (2, none, out))
    × Appends (1 ∷ 2 ∷ []) bent out
write-Appends_example = write-Appends (1 ∷ 2 ∷ []) bent bent-IsValid (omega arith)

abbrev script : List Call
script =
    Call.writes (1 ∷ 2 ∷ 3 ∷ [])
    ∷ Call.reads (0 ∷ 0 ∷ [])
    ∷ Call.peeks (negsuc 0)
    ∷ Call.reads_byte
    ∷ Call.shifts (pos 9)
    ∷ Call.reads_byte
    ∷ Call.writes_byte 6
    ∷ []

run-RunRefines_example : (o : List Reply × RingBuffer) × RunRefines script bent o
unfolding ring_length Queue.total_written Queue.written_by
run-RunRefines_example = run-RunRefines script bent bent-IsValid (omega arith) (omega arith)

ceil_to_power_of_two-IsCeil_example :
    (p : ℕ) × (ceil_to_power_of_two (pos 100) ≡ some p) × IsCeil 100 p × (p ≤ max_int_head_bit)
ceil_to_power_of_two-IsCeil_example = ceil_to_power_of_two-IsCeil 100 (omega arith)

ceil_100 : ceil_to_power_of_two (pos 100) ≡ some 128
unfolding ceil_to_power_of_two
ceil_100 = refl

-- buffers that are their bytes
abbrev pub plain : ByteBuffers
plain = record {
  ByteBuffer = List ℕ;
  get = [];
  append = λ bb p. bb ++ p;
  of_bytes = λ p. p;
  bytes = λ bb. bb;
  bytes-get = refl;
  bytes-append = λ bb p. refl;
  bytes-of_bytes = λ p. refl;
}
