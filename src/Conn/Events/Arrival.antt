-- ===== src/Conn/Events/Arrival.antt =====
-- What a peer writes as frames arrives as the messages that it has framed.
use limnet.Base.{
  ℕ, ◌+◌, ◌-◌, ◌*◌, ◌≤◌, ◌<◌, ◌≡◌, refl, sym, ap, ◌∙◌, subst, true, none, some, List, [], ◌∷◌, ◌++◌,
  map, arith, length, drop, append-nil, append_assoc, drop-append, drop_of_length-le,
}
use limnet.RingBuffer.Defs.{RingBuffer}
use limnet.RingBuffer.Inv.{contents}
use limnet.RingBuffer.Export.{ByteBuffers}
use limnet.Conn.Inbound.Laws.{Holds}
use limnet.Conn.Host.{Host}
use limnet.Conn.Tcp.{TcpConn, State}
use limnet.Conn.Tcp.Calls.{Call, packets_of, replies_of, CallLog}
use limnet.Conn.Tcp.Delivery.{IsOpen}
use limnet.Conn.Events.{UnPacket}
use limnet.Conn.Events.Serve.{limit, Ends, goes_on, breaks_off, Served}
use limnet.Conn.Events.Rounds.{Rounds, rounds-Served}
use limnet.Conn.Framing.{Protocol, IsProtocol, Parses, nothing, packet, Implements, Parses-prefix}

abbrev pub concat : List (List ℕ) → List ℕ
concat [] = []
concat (xs ∷ xss) = xs ++ concat xss

-- The protocol reads back what a frame holds.
abbrev pub Frames : Protocol → (List ℕ → List ℕ) → Type 0
Frames parse frame = (m xs : List ℕ) → parse (frame m ++ xs) ≡ some (m, length (frame m))

Parses-frames :
    {parse : Protocol} (frame : List ℕ → List ℕ)
    → Frames parse frame
    → (ms : List (List ℕ)) (rest : List ℕ) → Parses parse (concat (map frame ms) ++ rest) ms rest
Parses-frames frame law [] rest = nothing refl
Parses-frames {parse} frame law (m ∷ ms) rest =
    let later = concat (map frame ms) ++ rest in
    let regroup = append_assoc (frame m) (concat (map frame ms)) rest in
    let behind : drop (length (frame m)) (frame m ++ later) ≡ later =
      drop-append (length (frame m)) (frame m) later
      ∙ ap (λ s. s ++ drop (length (frame m) - length (frame m)) later)
          (drop_of_length-le (length (frame m)) (frame m) (omega arith))
      ∙ ap (λ n. drop n later) {y = 0} (omega arith) in
    subst (λ t. Parses parse t (m ∷ ms) rest) (sym regroup)
      (packet m (length (frame m)) (law m later)
        (subst (λ t. Parses parse t ms rest) (sym behind) (Parses-frames frame law ms rest)))

at_end :
    {parse : Protocol} (rest : List ℕ) (ps : List (List ℕ)) (left : List ℕ)
    → parse rest ≡ none
    → Parses parse rest ps left
    → (ps ≡ []) × (rest ≡ left)
at_end rest _ left e (nothing f) = (refl, f)
at_end {parse} rest _ left e (packet p n f more) = absurd (cc)

module _ {lib : ByteBuffers} (host : Host) (log : CallLog host) (un_packet : UnPacket lib)
    {parse : Protocol} (law : IsProtocol parse) (un : Implements parse lib un_packet) (most : ℕ)
    (short : (p : List ℕ) (w : host.World) → length (host.on_packet p w).0 ≤ most)
    (frame : List ℕ → List ℕ) (framing : Frames parse frame) where
  open host use {World, sent}
  open log use {calls}

  -- Of the messages the handler has been called with the first ones, each once and in order, all of them if the connection is still open,
  -- and then an incomplete frame stays received.
  pub record Arrives (budget : ℕ) (ms : List (List ℕ)) (partial before : List ℕ) (asked : List Call)
      (s : State lib host) : Type 0 where
    pub answers : List Call
    pub called : calls s.1 ≡ asked ++ answers
    pub unseen : List (List ℕ)
    pub split : ms ≡ packets_of answers ++ unseen
    pub rest : List ℕ
    pub ends :
        Ends host log un_packet law un most short budget rest (before ++ replies_of answers) s
    pub complete : s.0.inp.connected ≡ true → (packets_of answers ≡ ms) × (rest ≡ partial)

  ended :
      {budget : ℕ} (rest accepted : List ℕ) (s : State lib host)
      → Ends host log un_packet law un most short budget rest accepted s
      → s.0.inp.connected ≡ true
      → parse rest ≡ none
  ended rest accepted s (goes_on o i y h same none_left a b d f) up = none_left
  ended rest accepted s (breaks_off lost failed y f) up = absurd (let g = y.disconnected in cc)

  -- On an open connection, its descriptor in the poller, that has received nothing yet, with more fuel than bytes and room for them and
  -- for a reply of `most` bytes to each byte, where the peer's bytes are the frames of some messages
  -- and then an incomplete one: however read(2) cuts the bytes up, and whenever between the reads
  -- what waits is sent, the calls of OnPacket since are with the messages in order, each once, with all of them unless a
  -- write(2) has failed; the incomplete frame stays received, and the bytes accepted before and the answers
  -- of just these calls have been sent or wait, in order.
  pub rounds-Arrives :
      (fuel : ℕ) (c : TcpConn lib) (w : World) (o i : RingBuffer) (all : List ℕ)
      (u : State lib host) (ms : List (List ℕ)) (partial : List ℕ)
      → IsOpen host (c, w) o
      → Holds c.inp i
      → contents i ≡ []
      → parse [] ≡ none
      → parse partial ≡ none
      → i.size ≤ limit
      → o.size ≤ limit
      → length all < fuel
      → length all ≤ limit
      → length (contents o) + length all * most ≤ limit
      → all ≡ concat (map frame ms) ++ partial
      → Rounds host un_packet fuel (c, w) all u
      → Arrives
          (length (contents o) + length all * most)
          ms
          partial
          (sent w ++ contents o)
          (calls w)
          u
  rounds-Arrives fuel c w o i all u ms partial y h empty start short_of a b enough few room bytes
        run =
      let same : contents i ++ all ≡ all = ap (λ t. t ++ all) empty in
      let r =
        subst
          (λ t.
            Served host log un_packet law un most short (length (contents o) + length t * most) t
              (sent w ++ contents o) (calls w) u)
          same
          (rounds-Served host log un_packet law un most short fuel c w o i all u y h
            (ap parse empty ∙ start) a b (omega (arith, ap length same))
            (omega (arith, ap length same)) (rw same room) run) in
      let (unseen, split, left) =
        Parses-prefix law all (packets_of r.answers) r.rest ms partial r.parses
          (subst (λ t. Parses parse t ms partial) (sym bytes)
            (Parses-frames frame framing ms partial))
          short_of in
      record {
        answers = r.answers;
        called = r.called;
        unseen = unseen;
        split = split;
        rest = r.rest;
        ends = r.ends;
        complete = λ up.
            let (none_unseen, same_rest) =
              at_end r.rest unseen partial (ended r.rest _ u r.ends up) left in
            (
              sym (
                  split
                  ∙ ap (λ t. (packets_of r.answers) ++ t) none_unseen
                  ∙ append-nil (packets_of r.answers)),
              same_rest,
            );
      }
