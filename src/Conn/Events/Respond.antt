-- ===== src/Conn/Events/Respond.antt =====
-- A packet's reply is delivered, whatever `unPacket` the connection has.
use limnet.Base.{
  ℕ, ◌+◌, ◌≤◌, ◌≡◌, refl, sym, ap, ◌∙◌, subst, true, some, List, [], ◌∷◌, ◌++◌, inl, inr,
  Bool-cases, ◌==◌, arith, length, eq→==, ne→not-==, append-nil, drop_of_length-le,
}
use native.Mathlib.Decide.{ℕ_discrete}
use limnet.RingBuffer.Ceil.{max_int_head_bit}
use limnet.RingBuffer.Defs.{RingBuffer}
use limnet.RingBuffer.Inv.{contents}
use limnet.RingBuffer.Export.{ByteBuffers}
use limnet.Conn.Inbound.{Inbound}
use limnet.Conn.Inbound.Laws.{Holds}
use limnet.Conn.Host.{Host}
use limnet.Conn.Tcp.{TcpConn, State}
use limnet.Conn.Tcp.Calls.{CallLog, Logged, write-Logged}
use limnet.Conn.Tcp.Delivery.{Watching-seen, Fits-self, IsOpen, Delivers, going}
use limnet.Conn.Tcp.Sending.{write-Delivers}
use limnet.Conn.Events.{UnPacket, respond}

module _ {lib : ByteBuffers} (host : Host) where
  open host use {World}

  -- the connection after its received bytes were parsed
  pub parsed-IsOpen :
      (c : TcpConn lib) (w : World) (o j : RingBuffer) (inp : Inbound lib)
      → IsOpen host (c, w) o
      → inp.connected ≡ true
      → Holds inp j
      → IsOpen host (record c { inp = inp }, w) o
  parsed-IsOpen c w o j inp y up h = record {
    connected = up;
    received = (j, h);
    held = y.held;
    valid = y.valid;
    watching = y.watching;
  }

module _ {lib : ByteBuffers} (host : Host) (log : CallLog host) (un_packet : UnPacket lib) where
  open host use {World, on_packet}
  open log use {calls}

  -- `respond` calls OnPacket once.
  pub respond-Logged :
      (packet : List ℕ) (c : TcpConn lib) (w : World)
      → Logged host log
          (calls w ++ ((packet, (on_packet packet w).0) ∷ []))
          (respond host un_packet packet (c, w))
  unfolding respond
  respond-Logged packet c w = elim (Bool-cases (length (on_packet packet w).0 == 0)) [
    | inl e ↦ simp e (log.on_packet_lem packet w)
    | inr e ↦ simp e (
        write-Logged host log _ (on_packet packet w).0 c (on_packet packet w).1
          (log.on_packet_lem packet w))
  ]

module _ {lib : ByteBuffers} (host : Host) (un_packet : UnPacket lib) where
  open host use {World, sent, on_packet}

  pub respond-Delivers :
      (packet : List ℕ) (c : TcpConn lib) (w : World) (o : RingBuffer)
      → IsOpen host (c, w) o
      → o.size + length (on_packet packet w).0 ≤ max_int_head_bit
      → (s : State lib host) × (respond host un_packet packet (c, w) ≡ some s)
        × Delivers host c.inp o.size
            (length (contents o) + length (on_packet packet w).0)
            ((sent w ++ contents o) ++ (on_packet packet w).0)
            s
  unfolding respond
  respond-Delivers packet c w o y room =
      let (kept, seen) = host.on_packet_lem packet w in
      let out = on_packet packet w in
      let after : IsOpen host (c, out.1) o = record {
        connected = y.connected;
        received = y.received;
        held = y.held;
        valid = y.valid;
        watching = Watching-seen host o seen y.watching;
      } in
      elim (ℕ_discrete (length out.0) 0) [
        | yes z ↦ (
          (c, out.1),
          simp (eq→== (length out.0) 0 z),
          going o refl after (Fits-self (length (contents o) + length out.0) o (omega arith)) (
              ap (λ t. t ++ contents o) kept
              ∙ sym (append-nil (sent w ++ contents o))
              ∙ ap (λ t. (sent w ++ contents o) ++ t)
                  (sym (drop_of_length-le 0 out.0 (omega arith)))),
        )
        | no z ↦
            let (s, ok, d) = write-Delivers host out.0 c out.1 o after room in
            (
              s,
              simp (ne→not-== (length out.0) 0 z, ok),
              subst
                  (λ t.
                    Delivers host c.inp o.size (length (contents o) + length out.0)
                      ((t ++ contents o) ++ out.0) s)
                  kept d,
            )
      ]
