-- ===== src/Conn/Sample.antt =====
-- A protocol to run the model with: the first byte of a packet is the number of bytes behind it. Its
-- `unPacket` looks at what `Read` gives and takes a packet off by `ShiftN`.
mod Examples
use limnet.Base.{
  ℕ, suc, ◌+◌, ◌-◌, ◌≤◌, ◌<◌, ◌≡◌, refl, sym, ap, ◌∙◌, true, false, Option, none, some, List, [],
  ◌∷◌, ◌++◌, arith, inl, inr, length, take, drop, leb, if◌then◌else◌, ◌>>=◌, length-append,
  length-take, take-append, drop-append, append-nil, take_of_length-le, le→leb, leb→le, Bool-cases,
  subst,
}
use limnet.Base.Int.{pos}
use limnet.RingBuffer.Defs.{RingBuffer}
use limnet.RingBuffer.Inv.{contents}
use limnet.RingBuffer.Export.{ByteBuffers}
use limnet.Conn.Inbound.{Inbound, amount, read_all, shift_n}
use limnet.Conn.Inbound.Laws.{Holds, stream, read_all_lem, shift_n_lem}
use limnet.Conn.Events.{UnPacket}
use limnet.Conn.Framing.{Protocol, IsProtocol, Implements}
use limnet.Conn.Events.Arrival.{Frames}

pub counted : Protocol
counted [] = none
counted (k ∷ xs) = if leb k (length xs) then some (take k xs, suc k) else none

pub count_frame : List ℕ → List ℕ
count_frame m = length m ∷ m

counted_lem :
    (k : ℕ) (xs p : List ℕ) (n : ℕ)
    → counted (k ∷ xs) ≡ some (p, n)
    → (k ≤ length xs) × (p ≡ take k xs) × (n ≡ suc k)
unfolding counted
counted_lem k xs p n e = ground arith

pub counted-IsProtocol : IsProtocol counted
unfolding counted
counted-IsProtocol = record { consumes = consumes; stable = stable }
  where
    consumes : (xs p : List ℕ) (n : ℕ) → counted xs ≡ some (p, n) → (0 < n) × (n ≤ length xs)
    consumes [] p n e = cc
    consumes (k ∷ xs) p n e = omega (arith, counted_lem k xs p n e)

    stable :
        (xs ys p : List ℕ) (n : ℕ) → counted xs ≡ some (p, n) → counted (xs ++ ys) ≡ some (p, n)
    stable [] ys p n e = cc
    stable (k ∷ xs) ys p n e =
        let (fits, same, size) = counted_lem k xs p n e in
        let cut : take k (xs ++ ys) ≡ p =
          take-append k xs ys
          ∙ ap (λ t. take k xs ++ take t ys) {y = 0} (omega arith)
          ∙ append-nil (take k xs)
          ∙ sym same in
        rw (le→leb k (length (xs ++ ys)) (omega (arith, length-append xs ys))) (rw (cut, size) refl)

pub count_frame-Frames : Frames counted count_frame
unfolding counted count_frame
count_frame-Frames m xs =
    let cut : take (length m) (m ++ xs) ≡ m =
      take-append (length m) m xs
      ∙ ap (λ t. take (length m) m ++ take t xs) {y = 0} (omega arith)
      ∙ append-nil (take (length m) m)
      ∙ take_of_length-le (length m) m (omega arith) in
    rw (le→leb (length m) (length (m ++ xs)) (omega (arith, length-append m xs))) (rw cut refl)

module _ (lib : ByteBuffers) where
  take_off : Option (List ℕ × ℕ) → Inbound lib → Option (Option (List ℕ) × Inbound lib)
  take_off none c = some (none, c)
  take_off (some (p, n)) c = do s ← shift_n lib (pos n) c; some (some p, s.1)

  pub counted_un_packet : UnPacket lib
  counted_un_packet c = do r ← read_all lib c; take_off (counted r.0) r.1

  amount_lem : (total n : ℕ) → 0 < n → n ≤ total → amount total (pos n) ≡ n
  amount_lem total n a b = ground arith

  pub counted-Implements : Implements counted lib counted_un_packet
  unfolding counted_un_packet take_off read_all counted
  counted-Implements = record { closed = closed; waits = waits; takes = takes }
    where
      closed : (c : Inbound lib) → c.connected ≡ false → counted_un_packet c ≡ some (none, c)
      closed c e = simp e

      waits :
          (c : Inbound lib) (i : RingBuffer)
          → c.connected ≡ true
          → Holds c i
          → counted (stream i c) ≡ none
          → (out : Inbound lib) × (j : RingBuffer) × (counted_un_packet c ≡ some (none, out))
            × (out.connected ≡ true)
            × Holds out j
            × (stream j out ≡ stream i c)
            × (j.size ≤ i.size)
      waits c i up h e =
          let (out, ok, keeps) = read_all_lem lib c i h up in
          (
            out,
            i,
            simp (ok, e),
            keeps.same_connected ∙ up,
            record { held = keeps.same_inbound ∙ h.held; valid = h.valid },
            ap (λ t. contents i ++ t) keeps.same_buffer,
            omega arith,
          )

      takes :
          (c : Inbound lib) (i : RingBuffer) (p : List ℕ) (n : ℕ)
          → c.connected ≡ true
          → Holds c i
          → counted (stream i c) ≡ some (p, n)
          → (out : Inbound lib) × (j : RingBuffer) × (counted_un_packet c ≡ some (some p, out))
            × (out.connected ≡ true)
            × Holds out j
            × (stream j out ≡ drop n (stream i c))
            × (j.size ≤ i.size)
      takes c i p n up h e =
          let (mid, ok, keeps) = read_all_lem lib c i h up in
          let held : Holds mid i = record { held = keeps.same_inbound ∙ h.held; valid = h.valid } in
          let same : stream i mid ≡ stream i c = ap (λ t. contents i ++ t) keeps.same_buffer in
          let (some_bytes, fits) = counted-IsProtocol.consumes (stream i c) p n e in
          let all : amount (length (stream i mid)) (pos n) ≡ n =
            amount_lem (length (stream i mid)) n some_bytes (omega (arith, ap length same)) in
          let (out, done, s) = shift_n_lem lib mid i held (pos n) in
          (
            out,
            s.ring,
            simp (ok, e, done),
            s.same_connected ∙ keeps.same_connected ∙ up,
            s.holds,
            s.rest ∙ ap (λ t. drop t (stream i mid)) all ∙ ap (drop n) same,
            s.capacity,
          )
