-- ===== src/Conn/Events/Serve.antt =====
-- `handleRead` with an `unPacket` that implements a protocol: its loop over packets ends, and the
-- handler gets the packets of what has been received.
use limnet.Base.{
  ℕ, zero, suc, ◌+◌, ◌*◌, ◌^◌, ◌≤◌, ◌<◌, ◌≡◌, refl, sym, ap, ◌∙◌, subst, true, false, none, some,
  List, [], ◌∷◌, ◌++◌, inl, inr, arith, length, drop, length-drop, length-append, append-nil,
  append_assoc, drop_of_length-le, Option-cases, eq→==, ne→not-==,
}
use native.Mathlib.Decide.{ℕ_discrete}
use limnet.RingBuffer.Defs.{RingBuffer}
use limnet.RingBuffer.Inv.{contents}
use limnet.RingBuffer.Export.{ByteBuffers}
use limnet.Conn.Inbound.{Inbound}
use limnet.Conn.Inbound.Laws.{Holds, stream}
use limnet.Conn.Host.{Host, got}
use limnet.Conn.Tcp.{TcpConn, State}
use limnet.Conn.Tcp.Delivery.{
  Watching-seen, Fails, IsOpen, IsClosed, Delivers, going, stopped, append_to_lem,
}
use limnet.Conn.Events.{UnPacket, packets, keep_rest, after_read, handle_read}
use limnet.Conn.Events.Respond.{parsed-IsOpen, respond-Logged, respond-Delivers}
use limnet.Conn.Tcp.Calls.{Call, packets_of, replies_of, CallLog, Logged}
use limnet.Conn.Framing.{Protocol, IsProtocol, Parses, nothing, packet, Implements}

-- the most bytes that a ring buffer holds here
abbrev pub limit : ℕ
limit = 2 ^ 61

pub Parses-length :
    {parse : Protocol} (xs : List ℕ) (ps : List (List ℕ)) (rest : List ℕ)
    → Parses parse xs ps rest
    → length rest ≤ length xs
Parses-length xs _ rest (nothing e) = omega (arith, ap length e)
Parses-length xs _ rest (packet {ps} p n e more) =
    omega (arith, Parses-length (drop n xs) ps rest more, length-drop n xs)

-- One packet's reply, and room for those of the packets behind it.
reply_room : (a b m : ℕ) → suc a ≤ b → a * m + m ≤ b * m
reply_room a b m h = grind arith

module _ {lib : ByteBuffers} (host : Host) (log : CallLog host) (un_packet : UnPacket lib)
    {parse : Protocol} (law : IsProtocol parse) (un : Implements parse lib un_packet) (most : ℕ)
    (short : (p : List ℕ) (w : host.World) → length (host.on_packet p w).0 ≤ most) where
  open host use {World, sent, on_packet, unix_read}
  open log use {calls}

  -- What the loop over packets leaves of the bytes `xs`, where the bytes `before` had been accepted and
  -- the calls `asked` of OnPacket had been made:
  -- the bytes that wait and the replies to the bytes left take no more than `budget`.
  record Serves (budget : ℕ) (xs before : List ℕ) (asked : List Call) (s : State lib host)
      : Type 0 where
    answers : List Call
    called : calls s.1 ≡ asked ++ answers
    rest : List ℕ
    parses : Parses parse xs (packets_of answers) rest
    inp : Inbound lib
    ring : RingBuffer
    holds : Holds inp ring
    left : stream ring inp ≡ rest
    small : ring.size ≤ limit
    complete : s.0.inp.connected ≡ true → parse rest ≡ none
    total : ℕ
    spent : total + length rest * most ≤ budget
    delivers : Delivers host inp limit total (before ++ replies_of answers) s

  cheaper :
      {less more : ℕ} {xs before : List ℕ} {asked : List Call} {s : State lib host}
      → less ≤ more
      → Serves less xs before asked s
      → Serves more xs before asked s
  cheaper h v = record {
    answers = v.answers;
    called = v.called;
    rest = v.rest;
    parses = v.parses;
    inp = v.inp;
    ring = v.ring;
    holds = v.holds;
    left = v.left;
    small = v.small;
    complete = v.complete;
    total = v.total;
    spent = omega (arith, v.spent);
    delivers = v.delivers;
  }

  Serving : ℕ → Type 0
  Serving fuel =
      (c : TcpConn lib) (w : World) (o i : RingBuffer)
      → IsOpen host (c, w) o
      → Holds c.inp i
      → length (stream i c.inp) < fuel
      → i.size ≤ limit
      → o.size ≤ limit
      → length (contents o) + length (stream i c.inp) * most ≤ limit
      → (s : State lib host) × (packets host un_packet fuel (c, w) ≡ some s)
        × Serves (length (contents o) + length (stream i c.inp) * most) (stream i c.inp)
            (sent w ++ contents o) (calls w) s

  packets-closed :
      (fuel : ℕ) (s : State lib host)
      → 0 < fuel
      → s.0.inp.connected ≡ false
      → packets host un_packet fuel s ≡ some s
  unfolding packets
  packets-closed zero s h e = absurd (omega arith)
  packets-closed (suc fuel) s h e = simp (un.closed s.0.inp e)

  -- The loop after a reply: it goes on with the next packet, or the connection is closed.
  after_reply :
      (fuel : ℕ) (inp : Inbound lib) (j : RingBuffer) (old total budget : ℕ) (accepted : List ℕ)
      (mid : State lib host)
      → Serving fuel
      → Holds inp j
      → length (stream j inp) < fuel
      → j.size ≤ limit
      → old ≤ limit
      → total + length (stream j inp) * most ≤ budget
      → budget ≤ limit
      → Delivers host inp old total accepted mid
      → (s : State lib host) × (packets host un_packet fuel mid ≡ some s)
        × Serves budget (stream j inp) accepted (calls mid.1) s
  unfolding Serving
  after_reply fuel inp j old total budget accepted mid ih h enough small a room big
        (going o same y b all) =
      let held : Holds mid.0.inp j = record {
        held = ap (λ i. i.inbound_buffer) same ∙ h.held;
        valid = h.valid;
      } in
      let xs = ap (stream j) same in
      let (s, ok, v) =
        ih mid.0 mid.1 o j y held (omega (arith, ap length xs)) small
          (b.0 61 (omega arith) a (omega arith)) (rw xs (omega (arith, b.1))) in
      (
        s,
        ok,
        subst (λ t. Serves budget t accepted (calls mid.1) s) xs
            (subst (λ t. Serves budget (stream j mid.0.inp) t (calls mid.1) s) all
              (cheaper (rw xs (omega (arith, b.1))) v)),
      )
  after_reply fuel inp j old total budget accepted mid ih h enough small a room big
        (stopped lost failed y all) =
      (
        mid,
        packets-closed fuel mid (omega arith) y.disconnected,
        record {
          answers = [];
          called = sym (append-nil (calls mid.1));
          rest = stream j inp;
          parses = nothing refl;
          inp = inp;
          ring = j;
          holds = h;
          left = refl;
          small = small;
          complete = λ e. absurd (let f = y.disconnected in cc);
          total = total;
          spent = room;
          delivers = stopped lost failed y (all ∙ sym (append-nil accepted));
        },
      )

  packets-Serves : (fuel : ℕ) → Serving fuel
  unfolding Serving packets
  packets-Serves zero c w o i y h enough a b room = absurd (omega arith)
  packets-Serves (suc fuel) c w o i y h enough a b room =
      elim (Option-cases (parse (stream i c.inp))) [
        | inl e ↦
            let (out, j, ok, up, held, same, size) = un.waits c.inp i y.connected h e in
            (
              (record c { inp = out }, w),
              simp ok,
              record {
                answers = [];
                called = sym (append-nil (calls w));
                rest = stream i c.inp;
                parses = nothing refl;
                inp = out;
                ring = j;
                holds = held;
                left = same;
                small = omega arith;
                complete = λ _. e;
                total = length (contents o);
                spent = omega arith;
                delivers =
                    going o refl (parsed-IsOpen host c w o j out y up held)
                      (λ j _ x _. omega arith, omega arith)
                      (sym (append-nil (sent w ++ contents o)));
              },
            )
        | inr (r, e) ↦
            let xs = stream i c.inp in
            let (some_bytes, fits) = law.consumes xs r.0 r.1 e in
            let (out, j, ok, up, held, same, size) = un.takes c.inp i r.0 r.1 y.connected h e in
            let (mid, replied, d) =
              respond-Delivers host un_packet r.0 (record c { inp = out }) w o
                (parsed-IsOpen host c w o j out y up held)
                (omega (arith, short r.0 w, reply_room 0 (length xs) most (omega arith))) in
            let asked : calls mid.1 ≡ calls w ++ ((r.0, (on_packet r.0 w).0) ∷ []) =
              subst (Logged host log _) replied
                (respond-Logged host log un_packet r.0 (record c { inp = out }) w) in
            let shorter : length (stream j out) + r.1 ≡ length xs =
              omega (arith, ap length same, length-drop r.1 xs) in
            let (s, done, v) =
              after_reply fuel out j o.size (length (contents o) + length (on_packet r.0 w).0)
                (length (contents o) + length xs * most) _ mid (packets-Serves fuel) held
                (omega arith) (omega arith) b
                (omega (
                  arith,
                  short r.0 w,
                  reply_room (length (stream j out)) (length xs) most (omega arith),
                ))
                room d in
            (
              s,
              simp (ok, replied, done),
              record {
                answers = (r.0, (on_packet r.0 w).0) ∷ v.answers;
                called =
                    v.called
                    ∙ ap (λ t. t ++ v.answers) asked
                    ∙ append_assoc (calls w) ((r.0, (on_packet r.0 w).0) ∷ []) v.answers;
                rest = v.rest;
                parses =
                    packet r.0 r.1 e
                      (subst (λ t. Parses parse t (packets_of v.answers) v.rest) same v.parses);
                inp = v.inp;
                ring = v.ring;
                holds = v.holds;
                left = v.left;
                small = v.small;
                complete = v.complete;
                total = v.total;
                spent = v.spent;
                delivers =
                    subst (λ t. Delivers host v.inp limit v.total t s)
                      (append_assoc (sent w ++ contents o) (on_packet r.0 w).0
                        (replies_of v.answers))
                      v.delivers;
              },
            )
      ]

  -- What `handleRead` leaves: an open connection that holds the rest of what has been received, which
  -- is no whole packet, in its ring buffer, or, if a write(2) has failed, a closed one.
  pub data Ends (budget : ℕ) (rest accepted : List ℕ) (s : State lib host) : Type 0 where
    goes_on :
        (o i : RingBuffer)
        → IsOpen host s o
        → Holds s.0.inp i
        → contents i ≡ rest
        → parse rest ≡ none
        → o.size ≤ limit
        → length (contents o) + length rest * most ≤ budget
        → i.size ≤ limit
        → sent s.1 ++ contents o ≡ accepted
        → Ends budget rest accepted s
    breaks_off :
        (lost : List ℕ)
        → Fails host
        → IsClosed host s
        → sent s.1 ++ lost ≡ accepted
        → Ends budget rest accepted s

  -- The calls of OnPacket that are new, and the only ones since the calls `asked`, are with the packets of
  -- the bytes `xs`, in order.
  pub record Served (budget : ℕ) (xs before : List ℕ) (asked : List Call) (s : State lib host)
      : Type 0 where
    pub answers : List Call
    pub called : calls s.1 ≡ asked ++ answers
    pub rest : List ℕ
    pub parses : Parses parse xs (packets_of answers) rest
    pub ends : Ends budget rest (before ++ replies_of answers) s

  keep_rest-Ends :
      (budget : ℕ) (xs before : List ℕ) (asked : List Call) (s : State lib host)
      → length xs ≤ limit
      → budget ≤ limit
      → (v : Serves budget xs before asked s)
      → (out : State lib host) × (keep_rest host un_packet s ≡ some out)
        × Ends budget v.rest (before ++ replies_of v.answers) out
        × (calls out.1 ≡ calls s.1)
  unfolding keep_rest
  keep_rest-Ends budget xs before asked s few big v = kept v.delivers
    where
      Kept : Type 0
      Kept =
          (out : State lib host) × (keep_rest host un_packet s ≡ some out)
          × Ends budget v.rest (before ++ replies_of v.answers) out
          × (calls out.1 ≡ calls s.1)

      kept : Delivers host v.inp limit v.total (before ++ replies_of v.answers) s → Kept
      kept (stopped lost failed y all) = (
        s,
        simp (eq→== (length s.0.inp.buffer) 0 (ap length y.no_buffer)),
        breaks_off lost failed y all,
        refl,
      )
      kept (going o same y b all) =
          let held : Holds s.0.inp v.ring = record {
            held = ap (λ i. i.inbound_buffer) same ∙ v.holds.held;
            valid = v.holds.valid;
          } in
          let whole : stream v.ring s.0.inp ≡ v.rest = ap (stream v.ring) same ∙ v.left in
          let none_left = v.complete y.connected in
          let sum = length-append (contents v.ring) s.0.inp.buffer in
          let fewer = Parses-length xs (packets_of v.answers) v.rest v.parses in
          let bytes : length (contents v.ring) + length s.0.inp.buffer ≤ limit =
            omega (arith, ap length whole) in
          elim (ℕ_discrete (length s.0.inp.buffer) 0) [
            | yes z ↦ (
              s,
              simp (eq→== (length s.0.inp.buffer) 0 z),
              goes_on o v.ring y held
                  (sym (append-nil (contents v.ring))
                    ∙ ap (λ t. contents v.ring ++ t)
                        (sym (drop_of_length-le 0 s.0.inp.buffer (omega arith)))
                    ∙ whole)
                  none_left (b.0 61 (omega arith) (omega arith) (omega (arith, v.spent)))
                  (omega (arith, v.spent, b.1)) v.small all,
              refl,
            )
            | no z ↦
                let (i, ok, a) =
                  append_to_lem s.0.inp.buffer v.ring v.holds.valid (omega (arith, v.small)) in
                (
                  (record s.0 { inp = record s.0.inp { inbound_buffer = some i } }, s.1),
                  simp (ne→not-== (length s.0.inp.buffer) 0 z, held.held, ok),
                  goes_on o i
                      (record {
                        connected = y.connected;
                        received = (i, record { held = refl; valid = a.valid });
                        held = y.held;
                        valid = y.valid;
                        watching = y.watching;
                      })
                      (record { held = refl; valid = a.valid }) (a.bytes ∙ whole) none_left
                      (b.0 61 (omega arith) (omega arith) (omega (arith, v.spent)))
                      (omega (arith, v.spent, b.1)) (a.capacity 61 (omega arith) v.small bytes) all,
                  refl,
                )
          ]

  -- `handleRead` of an open connection whose descriptor is in the poller, where read(2) gives bytes, with more
  -- fuel than bytes, with
  -- room for what has been received and for a reply of `most` bytes to each of the bytes: it does not
  -- panic. It has called OnPacket with the packets of all that has been received, in order, each once, and with
  -- nothing else: with as many as there are, and what is left of the bytes stays received; or a write(2) has
  -- failed and the connection is closed. What had been accepted and the answers of just these calls have been
  -- sent or wait in order.
  pub handle_read-Served :
      (fuel : ℕ) (c : TcpConn lib) (w : World) (o i : RingBuffer) (buf : List ℕ) (v : World)
      → IsOpen host (c, w) o
      → Holds c.inp i
      → unix_read w ≡ (got buf, v)
      → 0 < length buf
      → length (contents i ++ buf) < fuel
      → i.size ≤ limit
      → o.size ≤ limit
      → length (contents i ++ buf) ≤ limit
      → length (contents o) + length (contents i ++ buf) * most ≤ limit
      → (s : State lib host) × (handle_read host un_packet fuel (c, w) ≡ some s)
        × Served
            (length (contents o) + length (contents i ++ buf) * most)
            (contents i ++ buf)
            (sent w ++ contents o)
            (calls w)
            s
  unfolding handle_read after_read Serving
  handle_read-Served fuel c w o i buf v y h e some_bytes enough a b few room =
      let (kept, seen) = host.read_lem w in
      let inp : Inbound lib = record c.inp { buffer = buf } in
      let held : Holds inp i = record { held = h.held; valid = h.valid } in
      let after : IsOpen host (record c { inp = inp }, v) o = record {
        connected = y.connected;
        received = (i, held);
        held = y.held;
        valid = y.valid;
        watching = Watching-seen host o (sym (ap (λ t. host.watched t.1) e) ∙ seen) y.watching;
      } in
      let (mid, ok, x) =
        packets-Serves fuel (record c { inp = inp }) v o i after held enough a b room in
      let (s, done, z, same) =
        keep_rest-Ends (length (contents o) + length (contents i ++ buf) * most) (contents i ++ buf)
          (sent v ++ contents o) (calls v) mid few room x in
      (
        s,
        simp (e, ne→not-== (length buf) 0 (omega arith), ok, done),
        subst
            (λ t.
              Served (length (contents o) + length (contents i ++ buf) * most) (contents i ++ buf)
                (t ++ contents o) (calls w) s)
            (sym (ap (λ t. sent t.1) e) ∙ kept)
            (record {
              answers = x.answers;
              called =
                  same
                  ∙ x.called
                  ∙ ap (λ t. t ++ x.answers) (sym (ap (λ t. calls t.1) e) ∙ log.read_lem w);
              rest = x.rest;
              parses = x.parses;
              ends = z;
            }),
      )
