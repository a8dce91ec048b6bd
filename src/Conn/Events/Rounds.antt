-- ===== src/Conn/Events/Rounds.antt =====
-- A connection over many events: however the peer's bytes are cut up by read(2), the handler gets
-- the packets that the peer has sent.
use limnet.Base.{
  ℕ, ◌+◌, ◌*◌, ◌≤◌, ◌<◌, ◌≡◌, refl, sym, ap, ◌∙◌, subst, true, none, some, List, [], ◌++◌, arith,
  length, length-append, append-nil, append_assoc,
}
use mathlib.Core.Option.{some-injective}
use limnet.RingBuffer.Defs.{RingBuffer}
use limnet.RingBuffer.Inv.{contents}
use limnet.RingBuffer.Export.{ByteBuffers}
use limnet.Conn.Inbound.Laws.{Holds}
use limnet.Conn.Host.{Host, got}
use limnet.Conn.Tcp.{TcpConn, State, handle_write}
use limnet.Conn.Tcp.Calls.{
  Call, packets_of, replies_of, packets_of-append, replies_of-append, CallLog, Logged,
  handle_write-Logged,
}
use limnet.Conn.Tcp.Delivery.{IsOpen, Delivers, going, stopped}
use limnet.Conn.Tcp.Draining.{handle_write-Delivers}
use limnet.Conn.Events.{UnPacket, handle_read}
use limnet.Conn.Events.Serve.{
  limit, Ends, goes_on, breaks_off, Served, handle_read-Served, Parses-length,
}
use limnet.Conn.Framing.{
  Protocol, IsProtocol, Parses, nothing, Implements, Parses-append, Parses-trans,
}

module _ {lib : ByteBuffers} (host : Host) (un_packet : UnPacket lib) (fuel : ℕ) where
  -- Some events on an open connection, of which each reads bytes or sends what waits, and all the
  -- bytes that were read.
  pub data Rounds (s : State lib host) : List ℕ → State lib host → Type 0 where
    stay : Rounds s [] s
    reads :
        {bytes : List ℕ} {t u : State lib host} (all buf : List ℕ) (v : host.World)
        → Rounds s bytes t
        → t.0.inp.connected ≡ true
        → host.unix_read t.1 ≡ (got buf, v)
        → 0 < length buf
        → handle_read host un_packet fuel t ≡ some u
        → all ≡ bytes ++ buf
        → Rounds s all u
    drains :
        {bytes : List ℕ} {t u : State lib host}
        → Rounds s bytes t
        → t.0.inp.connected ≡ true
        → handle_write host t ≡ some u
        → Rounds s bytes u

add_replies : (a x b y m : ℕ) → y ≡ x + b → a + x * m + b * m ≡ a + y * m
add_replies a x b y m e = rw e (grind arith)

spend : (a r b x m budget : ℕ) → a + r * m ≤ budget → x ≡ r + b → a + x * m ≤ budget + b * m
spend a r b x m budget h e = rw e (grind arith)

module _ {lib : ByteBuffers} (host : Host) (log : CallLog host) (un_packet : UnPacket lib)
    {parse : Protocol} (law : IsProtocol parse) (un : Implements parse lib un_packet) (most : ℕ)
    (short : (p : List ℕ) (w : host.World) → length (host.on_packet p w).0 ≤ most) where
  open host use {World, sent}
  open log use {calls}

  abbrev Ending : ℕ → List ℕ → List ℕ → State lib host → Type 0
  Ending = Ends host log un_packet law un most short

  abbrev pub Result : ℕ → List ℕ → List ℕ → List Call → State lib host → Type 0
  Result = Served host log un_packet law un most short

  Ends-le :
      (less more : ℕ) (rest accepted all : List ℕ) (s : State lib host)
      → less ≤ more
      → accepted ≡ all
      → Ending less rest accepted s
      → Ending more rest all s
  Ends-le less more rest accepted all s h e (goes_on o i y held same none_left a b d f) =
      goes_on o i y held same none_left a (omega arith) d (f ∙ e)
  Ends-le less more rest accepted all s h e (breaks_off lost failed y f) =
      breaks_off lost failed y (f ∙ e)

  -- A read of more bytes: its packets come behind those before.
  read-Served :
      (fuel budget : ℕ) (xs before buf : List ℕ) (asked : List Call) (t u : State lib host)
      (v : World)
      → length (xs ++ buf) < fuel
      → length (xs ++ buf) ≤ limit
      → budget + length buf * most ≤ limit
      → t.0.inp.connected ≡ true
      → host.unix_read t.1 ≡ (got buf, v)
      → 0 < length buf
      → handle_read host un_packet fuel t ≡ some u
      → Result budget xs before asked t
      → Result (budget + length buf * most) (xs ++ buf) before asked u
  read-Served fuel budget xs before buf asked t u v enough few room up e pos ok r = next r.ends
    where
      next :
          Ending budget r.rest (before ++ replies_of r.answers) t
          → Result (budget + length buf * most) (xs ++ buf) before asked u
      next (breaks_off lost failed y f) = absurd (let g = y.disconnected in cc)
      next (goes_on o i y held same none_left a b d f) =
          let fewer = Parses-length xs (packets_of r.answers) r.rest r.parses in
          let count : length (contents i ++ buf) ≡ length r.rest + length buf =
            omega (arith, length-append (contents i) buf, ap length same) in
          let cost =
            spend (length (contents o)) (length r.rest) (length buf) _ most budget b count in
          let (s, done, more) =
            handle_read-Served host log un_packet law un most short fuel t.0 t.1 o i buf v y held e
              pos (omega (arith, length-append xs buf)) d a (omega (arith, length-append xs buf))
              (omega arith) in
          let last : s ≡ u = some-injective s u (sym done ∙ ok) in
          record {
            answers = r.answers ++ more.answers;
            called =
                ap (λ t. calls t.1) (sym last)
                ∙ more.called
                ∙ ap (λ t. t ++ more.answers) r.called
                ∙ append_assoc asked r.answers more.answers;
            rest = more.rest;
            parses =
                subst (λ ps. Parses parse (xs ++ buf) ps more.rest)
                  (sym (packets_of-append r.answers more.answers))
                  (Parses-trans law (xs ++ buf) (packets_of r.answers) (r.rest ++ buf)
                    (packets_of more.answers) more.rest
                    (Parses-append law xs buf (packets_of r.answers) r.rest r.parses)
                    (subst (λ t. Parses parse (t ++ buf) (packets_of more.answers) more.rest) same
                      more.parses));
            ends =
                subst
                  (Ending (budget + length buf * most) more.rest
                    (before ++ replies_of (r.answers ++ more.answers)))
                  last
                  (Ends-le _ _ more.rest _ _ s cost
                    (ap (λ t. t ++ replies_of more.answers) f
                      ∙ append_assoc before (replies_of r.answers) (replies_of more.answers)
                      ∙ ap (λ t. before ++ t) (sym (replies_of-append r.answers more.answers)))
                    more.ends);
          }

  -- Sending what waits leaves what has been received.
  drain-Served :
      (budget : ℕ) (xs before : List ℕ) (asked : List Call) (t u : State lib host)
      → budget ≤ limit
      → t.0.inp.connected ≡ true
      → handle_write host t ≡ some u
      → Result budget xs before asked t
      → Result budget xs before asked u
  drain-Served budget xs before asked t u big up ok r = record {
    answers = r.answers;
    called =
        subst (Logged host log (calls t.1)) ok (handle_write-Logged host log _ t.0 t.1 refl)
        ∙ r.called;
    rest = r.rest;
    parses = r.parses;
    ends = next r.ends;
  }
    where
      after :
          (o i : RingBuffer)
          → contents i ≡ r.rest
          → parse r.rest ≡ none
          → Holds t.0.inp i
          → o.size ≤ limit
          → length (contents o) + length r.rest * most ≤ budget
          → budget ≤ limit
          → i.size ≤ limit
          → Delivers host t.0.inp o.size (length (contents o)) (before ++ replies_of r.answers) u
          → Ending budget r.rest (before ++ replies_of r.answers) u
      after o i same none_left h a b big d (stopped lost failed y f) = breaks_off lost failed y f
      after o i same none_left h a b big d (going p kept y fits f) =
          goes_on p i y
            (record { held = ap (λ x. x.inbound_buffer) kept ∙ h.held; valid = h.valid }) same
            none_left (fits.0 61 (omega arith) a (omega arith)) (omega (arith, fits.1)) d f

      next :
          Ending budget r.rest (before ++ replies_of r.answers) t
          → Ending budget r.rest (before ++ replies_of r.answers) u
      next (breaks_off lost failed y f) = absurd (let g = y.disconnected in cc)
      next (goes_on o i y held same none_left a b d f) =
          let (s, done, x) = handle_write-Delivers host t.0 t.1 o y in
          let last : s ≡ u = some-injective s u (sym done ∙ ok) in
          after o i same none_left held a b big d (
            subst (λ all. Delivers host t.0.inp o.size (length (contents o)) all u) f
              (subst (Delivers host t.0.inp o.size (length (contents o)) (sent t.1 ++ contents o))
                last x))

  -- On a connection that starts with no whole packet received, whatever the reads and however many
  -- the sends between them, the handler has got the packets of all that was read.
  pub rounds-Served :
      (fuel : ℕ) (c : TcpConn lib) (w : World) (o i : RingBuffer) (all : List ℕ)
      (u : State lib host)
      → IsOpen host (c, w) o
      → Holds c.inp i
      → parse (contents i) ≡ none
      → i.size ≤ limit
      → o.size ≤ limit
      → length (contents i ++ all) < fuel
      → length (contents i ++ all) ≤ limit
      → length (contents o) + length (contents i ++ all) * most ≤ limit
      → Rounds host un_packet fuel (c, w) all u
      → Result
          (length (contents o) + length (contents i ++ all) * most)
          (contents i ++ all)
          (sent w ++ contents o)
          (calls w)
          u
  rounds-Served fuel c w o i _ _ y h none_left a b enough few room stay = record {
    answers = [];
    called = sym (append-nil (calls w));
    rest = contents i ++ [];
    parses = nothing refl;
    ends =
        goes_on o i y h (sym (append-nil (contents i)))
          (ap parse (append-nil (contents i)) ∙ none_left) b (omega arith) a
          (sym (append-nil (sent w ++ contents o)));
  }
  rounds-Served fuel c w o i all u y h none_left a b enough few room
        (reads {bytes} {t} _ buf v before up e pos ok split) =
      let whole : (contents i ++ bytes) ++ buf ≡ contents i ++ all =
        append_assoc (contents i) bytes buf ∙ ap (λ t. contents i ++ t) (sym split) in
      let sum = length-append (contents i ++ bytes) buf in
      let longer = ap length whole in
      let cost : length (contents o) + length (contents i ++ bytes) * most + length buf * most
          ≡ length (contents o) + length (contents i ++ all) * most =
        add_replies (length (contents o)) (length (contents i ++ bytes)) (length buf) _ most
          (omega arith) in
      subst (λ n. Result n (contents i ++ all) (sent w ++ contents o) (calls w) u) cost
        (subst
          (λ xs.
            Result (length (contents o) + length (contents i ++ bytes) * most + length buf * most)
              xs (sent w ++ contents o) (calls w) u)
          whole
          (read-Served fuel _ (contents i ++ bytes) (sent w ++ contents o) buf (calls w) t u v
            (omega arith) (omega arith) (omega arith) up e pos ok
            (rounds-Served fuel c w o i bytes t y h none_left a b (omega arith) (omega arith)
              (omega arith) before)))
  rounds-Served fuel c w o i all u y h none_left a b enough few room (drains {t} before up ok) =
      drain-Served _ (contents i ++ all) (sent w ++ contents o) (calls w) t u room up ok
        (rounds-Served fuel c w o i all t y h none_left a b enough few room before)
