-- ===== src/Conn/Events/Default.antt =====
-- With the default `unPacket`, `handleRead` gives OnPacket what has been received, once.
use limnet.Base.{
  ℕ, suc, ◌+◌, ◌≤◌, ◌<◌, ◌≡◌, refl, sym, ap, ◌∙◌, subst, true, false, none, some, List, [], ◌++◌,
  arith, length, eq→==, ne→not-==, length-append, drop_of_length-le,
}
use limnet.RingBuffer.Ceil.{max_int_head_bit}
use limnet.RingBuffer.Defs.{RingBuffer}
use limnet.RingBuffer.Inv.{contents}
use limnet.RingBuffer.Export.{ByteBuffers}
use limnet.Conn.Inbound.{Inbound, read_all}
use limnet.Conn.Inbound.Laws.{Holds, stream, Keeps, read_all_lem, reset_buffer_lem}
use limnet.Conn.Host.{Host, got}
use limnet.Conn.Tcp.{TcpConn, State}
use limnet.Conn.Tcp.Delivery.{Watching-seen, IsOpen, Delivers, going, stopped}
use limnet.Conn.Events.Respond.{parsed-IsOpen, respond-Delivers}
use limnet.Conn.Events.{default_un_packet, packets, keep_rest, after_read, handle_read}

module _ {lib : ByteBuffers} where
  -- A closed connection has no packet,
  pub default_un_packet-closed :
      (c : Inbound lib) → c.connected ≡ false → default_un_packet lib c ≡ some (none, c)
  unfolding default_un_packet read_all
  default_un_packet-closed c e = simp e

  -- nor has one that has received nothing;
  pub default_un_packet-nothing :
      (c : Inbound lib) (i : RingBuffer)
      → c.connected ≡ true
      → Holds c i
      → stream i c ≡ []
      → (out : Inbound lib) × (default_un_packet lib c ≡ some (none, out)) × Keeps c out
  unfolding default_un_packet
  default_un_packet-nothing c i up h e =
      let (out, ok, keeps) = read_all_lem lib c i h up in (out, simp (ok, e), keeps)

  -- otherwise the packet is all that has been received.
  pub default_un_packet-all :
      (c : Inbound lib) (i : RingBuffer)
      → c.connected ≡ true
      → Holds c i
      → 0 < length (stream i c)
      → (out : Inbound lib) × (j : RingBuffer) × (default_un_packet lib c
          ≡ some (some (stream i c), out))
        × (out.connected ≡ true)
        × Holds out j
        × (stream j out ≡ [])
  unfolding default_un_packet
  default_un_packet-all c i up h some_bytes =
      let (mid, ok, keeps) = read_all_lem lib c i h up in
      let held : Holds mid i = record { held = keeps.same_inbound ∙ h.held; valid = h.valid } in
      let (out, done, s) = reset_buffer_lem lib mid i held in
      (
        out,
        s.ring,
        simp (ok, ne→not-== (length (stream i c)) 0 (omega arith), done),
        s.same_connected ∙ keeps.same_connected ∙ up,
        s.holds,
        s.rest ∙ drop_of_length-le (length (stream i mid)) (stream i mid) (omega arith),
      )

module _ {lib : ByteBuffers} (host : Host) where
  open host use {World, sent, on_packet, unix_read}

  -- What a run of the loop over packets leaves: no byte that has been received, and the replies
  -- accepted.
  pub record Handled (old total : ℕ) (accepted : List ℕ) (s : State lib host) : Type 0 where
    pub inp : Inbound lib
    pub ring : RingBuffer
    pub holds : Holds inp ring
    pub nothing : stream ring inp ≡ []
    pub delivers : Delivers host inp old total accepted s

  -- The loop ends at the second round.
  second_round :
      (fuel : ℕ) (inp : Inbound lib) (j : RingBuffer) (old total : ℕ) (accepted : List ℕ)
      (s : State lib host)
      → Holds inp j
      → stream j inp ≡ []
      → Delivers host inp old total accepted s
      → (out : State lib host) × (packets host (default_un_packet lib) (suc fuel) s ≡ some out)
        × Handled old total accepted out
  unfolding packets
  second_round fuel inp j old total accepted s h e (going o same y b all) =
      let held : Holds s.0.inp j = record {
        held = ap (λ i. i.inbound_buffer) same ∙ h.held;
        valid = h.valid;
      } in
      let nothing : stream j s.0.inp ≡ [] = ap (stream j) same ∙ e in
      let (out, ok, keeps) = default_un_packet-nothing s.0.inp j y.connected held nothing in
      let kept : Holds out j = record { held = keeps.same_inbound ∙ held.held; valid = h.valid } in
      (
        (record s.0 { inp = out }, s.1),
        simp ok,
        record {
          inp = out;
          ring = j;
          holds = kept;
          nothing = ap (λ t. contents j ++ t) keeps.same_buffer ∙ nothing;
          delivers =
              going o refl
                (parsed-IsOpen host s.0 s.1 o j out y (keeps.same_connected ∙ y.connected) kept) b
                all;
        },
      )
  second_round fuel inp j old total accepted s h e (stopped lost failed y all) = (
    s,
    simp (default_un_packet-closed s.0.inp y.disconnected),
    record { inp = inp; ring = j; holds = h; nothing = e; delivers = stopped lost failed y all },
  )

  keep_rest_lem :
      (old total : ℕ) (accepted : List ℕ) (s : State lib host)
      → Handled old total accepted s
      → keep_rest host (default_un_packet lib) s ≡ some s
  unfolding keep_rest
  keep_rest_lem old total accepted s x =
      simp (eq→== (length s.0.inp.buffer) 0 (no_buffer x.delivers))
    where
      no_buffer : Delivers host x.inp old total accepted s → length s.0.inp.buffer ≡ 0
      no_buffer (going o same y b all) = omega (
        arith,
        ap length (ap (stream x.ring) same ∙ x.nothing),
        length-append (contents x.ring) s.0.inp.buffer,
      )
      no_buffer (stopped lost failed y all) = ap length y.no_buffer

  -- `handleRead` of an open connection, with the default `unPacket` and fuel for two rounds, where
  -- read(2) gives bytes and there is room for the reply: it does not panic, nothing stays received,
  -- and what is accepted is what was accepted before and OnPacket's reply to all that has been
  -- received; of it a front part has been sent and the rest waits, or, if a write(2) has failed, the
  -- connection is closed.
  pub handle_read-Handled :
      (fuel : ℕ) (c : TcpConn lib) (w : World) (o i : RingBuffer) (buf : List ℕ) (v : World)
      → IsOpen host (c, w) o
      → Holds c.inp i
      → unix_read w ≡ (got buf, v)
      → 0 < length buf
      → o.size + length (on_packet (contents i ++ buf) v).0 ≤ max_int_head_bit
      → (s : State lib host) × (handle_read host (default_un_packet lib) (suc (suc fuel)) (c, w)
          ≡ some s)
        × Handled o.size
            (length (contents o) + length (on_packet (contents i ++ buf) v).0)
            ((sent w ++ contents o) ++ (on_packet (contents i ++ buf) v).0)
            s
  unfolding handle_read after_read packets
  handle_read-Handled fuel c w o i buf v y h e some_bytes room =
      let (kept, seen) = host.read_lem w in
      let inp : Inbound lib = record c.inp { buffer = buf } in
      let held : Holds inp i = record { held = h.held; valid = h.valid } in
      let (out, j, first, up, empty, nothing) =
        default_un_packet-all inp i y.connected held
          (omega (arith, length-append (contents i) buf)) in
      let after : IsOpen host (record c { inp = out }, v) o = record {
        connected = up;
        received = (j, empty);
        held = y.held;
        valid = y.valid;
        watching = Watching-seen host o (sym (ap (λ t. host.watched t.1) e) ∙ seen) y.watching;
      } in
      let (mid, replied, d) =
        respond-Delivers host (default_un_packet lib) (contents i ++ buf) (record c { inp = out }) v
          o after room in
      let (s, done, x) = second_round fuel out j _ _ _ mid empty nothing d in
      (
        s,
        simp (
          e,
          ne→not-== (length buf) 0 (omega arith),
          first,
          replied,
          done,
          keep_rest_lem _ _ _ s x,
        ),
        subst
            (λ t.
              Handled o.size (length (contents o) + length (on_packet (contents i ++ buf) v).0)
                ((t ++ contents o) ++ (on_packet (contents i ++ buf) v).0) s)
            (sym (ap (λ t. sent t.1) e) ∙ kept) x,
      )
