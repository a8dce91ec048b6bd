-- ===== src/Conn/Handler.antt =====
-- event_handler.go: `DefaultEventHandler` and `DefaultPacket`, and a connection with that handler.
mod Examples
use limnet.Base.{
  ℕ, suc, zero, ◌+◌, ◌≤◌, ◌<◌, ◌≡◌, refl, sym, ap, ◌∙◌, true, false, Option, none, some, List, [],
  ◌++◌, arith, length, inl, inr, Option-cases, Bool-cases, ◌==◌, bind_lem, ne→not-==, subst,
}
use limnet.RingBuffer.Ceil.{max_int_head_bit}
use limnet.RingBuffer.Defs.{RingBuffer}
use limnet.RingBuffer.Inv.{contents}
use limnet.RingBuffer.Export.{ByteBuffers}
use limnet.Conn.Inbound.{Inbound}
use limnet.Conn.Inbound.Laws.{Holds, stream}
use limnet.Conn.Host.{Host, got}
use limnet.Conn.Tcp.{TcpConn, State, append_to}
use limnet.Conn.Tcp.Delivery.{IsOpen, Delivers, going, stopped}
use limnet.Conn.Events.{
  UnPacket, default_un_packet, respond, packets, keep_rest, after_read, handle_read,
}
use limnet.Conn.Events.Default.{Handled, handle_read-Handled}

-- The methods of `DefaultEventHandler`, in any world; a nil slice has no bytes.
abbrev pub default_on_connect : {C World : Type 0} → C → World → C × World
default_on_connect c w = (c, w)

abbrev pub default_on_packet : {World : Type 0} → List ℕ → World → List ℕ × World
default_on_packet packet w = ([], w)

abbrev pub default_on_close : {World : Type 0} → World → World
default_on_close w = w

-- `Packet` of `DefaultPacket`
abbrev pub default_packet : List ℕ → List ℕ
default_packet packet = packet

-- A connection's surroundings, with that handler.
abbrev pub quiet : Host → Host
quiet host = record host {
  on_packet = default_on_packet;
  on_close = default_on_close;
  on_packet_lem = λ p w. (refl, refl);
  sent-on_close = λ w. refl;
}

module _ {lib : ByteBuffers} (host : Host) where
  open host use {World, sent, unix_read}

  -- The world and what waits to be sent stay.
  abbrev SameOut : State lib (quiet host) → State lib (quiet host) → Type 0
  SameOut s t = (t.1 ≡ s.1) × (t.0.outbound_buffer ≡ s.0.outbound_buffer)

  packets-SameOut :
      (un_packet : UnPacket lib) (fuel : ℕ) (c : TcpConn lib) (w : World)
      (t : State lib (quiet host))
      → packets (quiet host) un_packet fuel (c, w) ≡ some t
      → SameOut (c, w) t
  unfolding packets respond
  packets-SameOut un_packet zero c w t e = absurd (cc)
  packets-SameOut un_packet (suc fuel) c w t e = elim (Option-cases (un_packet c.inp)) [
    | inl q ↦ absurd (let z = simp q at e in cc)
    | inr ((none, inp), q) ↦
        let z = simp q at e in
        let out : State lib (quiet host) = (record c { inp = inp }, w) in
        let f : out ≡ t = cc in (sym (ap (λ s. s.1) f), sym (ap (λ s. s.0.outbound_buffer) f))
    | inr ((some packet, inp), q) ↦
        packets-SameOut un_packet fuel (record c { inp = inp }) w t (let z = simp q at e in z)
  ]

  keep_rest-SameOut :
      (un_packet : UnPacket lib) (s t : State lib (quiet host))
      → keep_rest (quiet host) un_packet s ≡ some t
      → SameOut s t
  unfolding keep_rest
  keep_rest-SameOut un_packet (c, w) t e = elim (Bool-cases (length c.inp.buffer == 0)) [
    | inl q ↦
        let z = simp q at e in
        let s : State lib (quiet host) = (c, w) in
        let f : s ≡ t = cc in (sym (ap (λ s. s.1) f), sym (ap (λ s. s.0.outbound_buffer) f))
    | inr q ↦
        let z = simp q at e in
        let (i, q2, e2) = bind_lem c.inp.inbound_buffer _ t z in
        let (j, q3, e3) = bind_lem (append_to c.inp.buffer i) _ t e2 in
        let s : State lib (quiet host) =
          (record c { inp = record c.inp { inbound_buffer = some j } }, w) in
        let f : s ≡ t = cc in (sym (ap (λ s. s.1) f), sym (ap (λ s. s.0.outbound_buffer) f))
  ]

  handle_read-SameOut :
      (un_packet : UnPacket lib) (fuel : ℕ) (c : TcpConn lib) (w : World) (buf : List ℕ) (v : World)
      (t : State lib (quiet host))
      → unix_read w ≡ (got buf, v)
      → 0 < length buf
      → handle_read (quiet host) un_packet fuel (c, w) ≡ some t
      → SameOut (c, v) t
  unfolding handle_read after_read
  handle_read-SameOut un_packet fuel c w buf v t e some_bytes ok =
      let z = simp (e, ne→not-== (length buf) 0 (omega arith)) at ok in
      let read : State lib (quiet host) = (record c { inp = record c.inp { buffer = buf } }, v) in
      let (s, q, kept) = bind_lem (packets (quiet host) un_packet fuel read) _ t z in
      let (one, two) = packets-SameOut un_packet fuel read.0 v s q in
      let (three, four) = keep_rest-SameOut un_packet s t kept in (three ∙ one, four ∙ two)

  still-IsOpen :
      (inp : Inbound lib) (j : RingBuffer) (old total : ℕ) (accepted : List ℕ)
      (t : State lib (quiet host)) (o : RingBuffer)
      → t.0.outbound_buffer ≡ some o
      → Holds inp j
      → stream j inp ≡ []
      → Delivers (quiet host) inp old total accepted t
      → IsOpen (quiet host) t o × Holds t.0.inp j × (stream j t.0.inp ≡ [])
  still-IsOpen inp j old total accepted t o out h e (going o' same y _ _) =
      let f : o' ≡ o = let g = y.held in cc in
      (
        subst (IsOpen (quiet host) t) f y,
        subst (λ k. Holds k j) (sym same) h,
        ap (stream j) same ∙ e,
      )
  still-IsOpen inp j old total accepted t o out h e (stopped lost failed y all) =
      absurd (let g = y.no_outbound in cc)

  -- An open connection, its descriptor in the poller, with `DefaultEventHandler` and the default
  -- `unPacket`, and fuel for two rounds, takes
  -- what arrives and stays open: nothing stays received, nothing is sent, and what waits to be sent
  -- waits still.
  pub handle_read-silent :
      (fuel : ℕ) (c : TcpConn lib) (w : World) (o i : RingBuffer) (buf : List ℕ) (v : World)
      → IsOpen (quiet host) (c, w) o
      → Holds c.inp i
      → unix_read w ≡ (got buf, v)
      → 0 < length buf
      → (t : State lib (quiet host)) × (handle_read
            (quiet host)
            (default_un_packet lib)
            (suc (suc fuel))
            (c, w)
          ≡ some t)
        × IsOpen (quiet host) t o
        × (sent t.1 ≡ sent w)
        × (j : RingBuffer) × Holds t.0.inp j
        × (stream j t.0.inp ≡ [])
  handle_read-silent fuel c w o i buf v y h e some_bytes =
      let (t, ok, x) =
        handle_read-Handled (quiet host) fuel c w o i buf v y h e some_bytes
          (omega (arith, y.valid.small)) in
      let (same_world, same_out) =
        handle_read-SameOut (default_un_packet lib) (suc (suc fuel)) c w buf v t e some_bytes ok in
      let (open_still, holds, nothing) =
        still-IsOpen x.inp x.ring _ _ _ t o (same_out ∙ y.held) x.holds x.nothing x.delivers in
      (
        t,
        ok,
        open_still,
        ap sent same_world ∙ sym (ap (λ r. sent r.1) e) ∙ (host.read_lem w).0,
        x.ring,
        holds,
        nothing,
      )
