-- ===== src/RingBuffer/Place.antt =====
-- The copies of `Write`.
use native.Mathlib.Decide.{dec_le}
use limnet.Base.{
  ℕ, ◌+◌, ◌-◌, ◌≤◌, ◌<◌, ◌≡◌, refl, ◌∙◌, false, List, ◌++◌, length, take, drop, copy, arith, some,
  list_ext, if◌then◌else◌, le→leb, lt→not-leb, get_or, ltb, get_or-copy_at, get_or-append,
  get_or-take, get_or-drop, get_or-copy, copy_at_lem, length-copy_at, length-copy, length-drop,
  length-take, length-append,
}
use limnet.RingBuffer.Defs.{RingBuffer}
use limnet.RingBuffer.Writing.{place, written}
use limnet.RingBuffer.Inv.{around, window, length-window, get_or-window}

-- `b` holds `stored` bytes from the read pointer on, and has room for `p` behind them. (`isEmpty` is
-- not asked for: `malloc` leaves it set.)
pub record HasRoom (p : List ℕ) (stored : ℕ) (b : RingBuffer) : Type 0 where
  pub storage : length b.buf ≡ b.size
  pub r_in : b.r < b.size
  pub w_lem : b.w ≡ around b.size (b.r + stored)
  pub something : 0 < length p
  pub fits : stored + length p ≤ b.size

-- the buffer after one copy, and after a copy to the end and one to the start
abbrev one_copy : List ℕ → RingBuffer → List ℕ
one_copy p b = take b.w b.buf ++ copy (drop b.w b.buf) p

abbrev two_copies : List ℕ → RingBuffer → List ℕ
two_copies p b = copy (one_copy (take (b.size - b.w) p) b) (drop (b.size - b.w) p)

-- `buf` holds the stored bytes of `b` where they were, and `p` behind them.
abbrev pub Holds : List ℕ → ℕ → RingBuffer → List ℕ → Type 0
Holds p stored b buf =
    (j : ℕ)
    → j < stored + length p
    → get_or buf (around b.size (b.r + j)) 0
      ≡ (if ltb j stored then get_or b.buf (around b.size (b.r + j)) 0 else get_or p (j - stored) 0)

module _ (p : List ℕ) (stored : ℕ) (b : RingBuffer) (h : HasRoom p stored b) where
  length-one_copy : (q : List ℕ) → length (one_copy q b) ≡ b.size
  length-one_copy q = length-copy_at b.w b.buf q (ground arith) ∙ h.storage

  length-two_copies : length (two_copies p b) ≡ b.size
  length-two_copies =
      length-copy (one_copy (take (b.size - b.w) p) b) (drop (b.size - b.w) p)
      ∙ length-one_copy (take (b.size - b.w) p)

  get_or-one_copy :
      (q : List ℕ) (i : ℕ)
      → i < b.size
      → get_or (one_copy q b) i 0 ≡ (
          if ltb i b.w
          then get_or b.buf i 0
          else if ltb (i - b.w) (length q)
          then get_or q (i - b.w) 0
          else get_or b.buf i 0)
  get_or-one_copy q i k = get_or-copy_at 0 b.w b.buf q i (ground arith) (ground arith)

  one_copy-Holds : (b.r ≤ b.w → length p ≤ b.size - b.w) → Holds p stored b (one_copy p b)
  one_copy-Holds ends j k =
      let i = around b.size (b.r + j) in ground (arith, get_or-one_copy p i, ends)

  two_copies-Holds : b.r ≤ b.w → b.size - b.w < length p → Holds p stored b (two_copies p b)
  two_copies-Holds order past j k =
      let i = around b.size (b.r + j) in
      let c1 = b.size - b.w in
      ground (
        arith,
        get_or-one_copy (take c1 p) i,
        get_or-copy 0 (one_copy (take c1 p) b) (drop c1 p) i,
        length-one_copy (take c1 p),
        length-drop c1 p,
        length-take c1 p,
        get_or-drop 0 c1 p i,
        get_or-take 0 c1 p (i - b.w),
      )

  -- What `Write` leaves once there is room, but for the bytes.
  abbrev pub filled : List ℕ → RingBuffer
  filled buf = record b { buf = buf; w = around b.size (b.w + length p); is_empty = false }

  -- The copies do not panic; they leave a buffer of the same length that holds the stored bytes and
  -- `p`, and the write pointer behind `p`.
  pub record Placed (buf : List ℕ) (out : RingBuffer) : Type 0 where
    pub done : place p b ≡ some out
    pub state : written out ≡ filled buf
    pub size_kept : length buf ≡ b.size
    pub holds : Holds p stored b buf

  pub place-Placed : (buf : List ℕ) × (out : RingBuffer) × Placed buf out
  unfolding place
  place-Placed = elim (dec_le b.r b.w) [
    | yes order ↦ elim (dec_le (length p) (b.size - b.w)) [
      | yes ends ↦ (
        one_copy p b,
        record b { buf = one_copy p b; w = b.w + length p },
        record {
          done =
              rw (le→leb b.r b.w order, le→leb (length p) (b.size - b.w) ends)
                (rw (copy_at_lem b.w b.buf p (ground arith)) refl);
          state = ground arith;
          size_kept = length-one_copy p;
          holds = one_copy-Holds (λ _. ends);
        },
      )
      | no past ↦ (
        two_copies p b,
        record b { buf = two_copies p b; w = length p - (b.size - b.w) },
        record {
          done =
              rw (le→leb b.r b.w order, lt→not-leb (length p) (b.size - b.w) (omega arith))
                (rw (copy_at_lem b.w b.buf (take (b.size - b.w) p) (ground arith)) refl);
          state = ground arith;
          size_kept = length-two_copies;
          holds = two_copies-Holds order (omega arith);
        },
      )
    ]
    | no order ↦ (
      one_copy p b,
      record b { buf = one_copy p b; w = b.w + length p },
      record {
        done =
            rw (lt→not-leb b.r b.w (omega arith))
              (rw (copy_at_lem b.w b.buf p (ground arith)) refl);
        state = ground arith;
        size_kept = length-one_copy p;
        holds = one_copy-Holds (λ q. absurd (order q));
      },
    )
  ]

  -- The window grows by `p`.
  pub window-Holds :
      (buf : List ℕ)
      → length buf ≡ b.size
      → Holds p stored b buf
      → window buf b.r (stored + length p) ≡ window b.buf b.r stored ++ p
  window-Holds buf e held =
      list_ext 0 (window buf b.r (stored + length p)) (window b.buf b.r stored ++ p)
        (omega (
          arith,
          length-window buf b.r (stored + length p),
          length-append (window b.buf b.r stored) p,
          length-window b.buf b.r stored,
        ))
        (λ i k. same i (omega (arith, length-window buf b.r (stored + length p))))
    where
      same :
          (i : ℕ)
          → i < stored + length p
          → get_or (window buf b.r (stored + length p)) i 0
            ≡ get_or (window b.buf b.r stored ++ p) i 0
      same i k = ground (
        arith,
        get_or-window buf b.r (stored + length p) i,
        get_or-append 0 (window b.buf b.r stored) p i,
        length-window b.buf b.r stored,
        get_or-window b.buf b.r stored i,
        held i,
      )
