-- ===== src/Server/Turns.antt =====
-- server.go: the event loops get the new connections in turn, and the identifiers count them.
use mathlib.Core.List.{map-append, Perm, perm_middle, perm_append_singleton, perm-append_left_iff}
use mathlib.Core.List.Perm
use native.Mathlib.Nat.{mod-add-mod, zero-mod}
use native.Mathlib.Numerals.{add-one}
use limnet.Base.{
  ℕ, ◌+◌, ◌%◌, ◌^◌, ◌<◌, ◌≤◌, ◌≡◌, ◌≢◌, refl, sym, ap, ap₂, ◌∙◌, subst, Bool, true, false, Option,
  none, some, List, [], ◌∷◌, ◌++◌, map, length, zero, suc, arith, inl, inr, Bool-cases,
  Option-cases, ltb, ◌==◌, if◌then◌else◌, append-nil, append_assoc,
}
use limnet.Base.Int.{ℤ, pos, pos_part, wrap_int}
use limnet.RingBuffer.Export.{ByteBuffers}
use limnet.Conn.Tcp.{TcpConn, new_tcp_conn}
use Prim.Native.Nat.{bit_and}
use limnet.Conn.Events.{event_read}
use limnet.Server.SockAddr.{Sockaddr, sock_addr_to_string}
use limnet.Server.{
  Accepted, accepted, accept_again, accept_failed, ServerHost, loop_at, next_loop, Numbered,
  ServerEvent, tcp_event, tcp_goes_on, ws_request, ws_goes_on, take_out, Serving, begun, new_loops,
  number_ws, connect_ws, connect_request, ws_server, number_tcp, connect_tcp, nonblocking,
  after_accept, handle, listen_event, connect_accepted, serve, serve_all,
}

-- the identifiers up to `n`
pub ids_to : ℕ → List ℤ
ids_to zero = []
ids_to (suc n) = ids_to n ++ (pos (suc n) ∷ [])

wrap_int-small : (n : ℕ) → n < 2 ^ 63 → wrap_int n ≡ pos n
wrap_int-small n h = ground arith

ids_to-next : (n : ℕ) → ids_to (n + 1) ≡ ids_to n ++ (pos (n + 1) ∷ [])
unfolding ids_to
ids_to-next n = rw (add-one n) refl

next_id :
    (n : ℕ) (xs ys : List ℤ) (id : ℤ)
    → n + 1 < 2 ^ 63
    → Perm (xs ++ ys) (ids_to n)
    → id ≡ wrap_int (n + 1)
    → Perm (xs ++ (id ∷ ys)) (ids_to (n + 1))
next_id n xs ys id small p e =
    subst (Perm (xs ++ (id ∷ ys)))
      (ap (λ i. ids_to n ++ (i ∷ [])) (e ∙ wrap_int-small (n + 1) small) ∙ sym (ids_to-next n))
      (Perm.trans (perm_middle xs ys)
        (Perm.trans (Perm.cons id p) (Perm.symm (perm_append_singleton id (ids_to n)))))

take_out-perm :
    (xs : List ℤ) (n : ℕ) (id : ℤ) (rest : List ℤ)
    → take_out xs n ≡ some (id, rest)
    → Perm (id ∷ rest) xs
unfolding take_out
take_out-perm [] n id rest e = absurd (cc)
take_out-perm (x ∷ xs) zero id rest e =
    let f : x ∷ xs ≡ id ∷ rest = cc in subst (Perm (id ∷ rest)) (sym f) (Perm.refl (id ∷ rest))
take_out-perm (x ∷ xs) (suc n) id rest e = elim (Option-cases (take_out xs n)) [
  | inl q ↦ absurd (let z = simp q at e in cc)
  | inr (r, q) ↦
      let z = simp q at e in
      let f : id ∷ (x ∷ r.1) ≡ id ∷ rest = cc in
      let g : r.0 ≡ id = cc in
      subst (λ t. Perm t (x ∷ xs)) f
        (subst (λ i. Perm (i ∷ (x ∷ r.1)) (x ∷ xs)) g
          (Perm.trans (Perm.swap x r.0 r.1) (Perm.cons x (take_out-perm xs n r.0 r.1 q))))
]

handed_over :
    (xs acc all rest : List ℤ) (id : ℤ)
    → Perm (id ∷ rest) all
    → Perm ((xs ++ (id ∷ [])) ++ (acc ++ rest)) (xs ++ (acc ++ all))
handed_over xs acc all rest id p =
    subst (λ t. Perm t (xs ++ (acc ++ all))) (sym (append_assoc xs (id ∷ []) (acc ++ rest)))
      ((perm-append_left_iff xs).1
        (Perm.trans (Perm.symm (perm_middle acc rest)) ((perm-append_left_iff acc).1 p)))

abbrev pub id_of : {L : Type 0} → Option (Numbered L) → List ℤ
id_of none = []
id_of (some x) = x.client_id ∷ []

abbrev pub loop_of : {L : Type 0} → Option (Numbered L) → List L
loop_of none = []
loop_of (some x) = x.loop ∷ []

-- the loops that are wanted, or else one for each CPU
abbrev pub wanted : ℤ → ℕ → ℕ
wanted num cpus = if pos_part num == 0 then cpus else pos_part num

pub wanted-positive : (num : ℤ) (cpus : ℕ) → 0 < cpus → 0 < wanted num cpus
wanted-positive num cpus h = ground arith

module _ {L : Type 0} where
  -- the loops of the first `k` connections, each loop in its turn
  pub turns : List L → ℕ → List (Option L)
  turns loops zero = []
  turns loops (suc k) = turns loops k ++ (loop_at loops (k % length loops) ∷ [])

  loop_at_lem : (ls : List L) (n : ℕ) → n < length ls → (l : L) × (loop_at ls n ≡ some l)
  unfolding loop_at
  loop_at_lem [] n h = absurd (omega arith)
  loop_at_lem (l ∷ ls) zero h = (l, refl)
  loop_at_lem (l ∷ ls) (suc n) h = loop_at_lem ls n (omega arith)

next_turn : (k n : ℕ) → (k % n + 1) % n ≡ suc k % n
next_turn k n = mod-add-mod k n 1 ∙ ap (λ t. t % n) (omega arith)

turn_lt : (k n : ℕ) → 0 < n → k % n < n
turn_lt k n h = grind arith

-- The identifiers that OnConnect has got, and the loops that BindHandler has been called on; nothing
-- else adds to them.
pub record Logs {lib : ByteBuffers} {L : Type 0} (host : ServerHost lib L) : Type 0 where
  pub connected : host.conn.World → List ℤ
  pub bound : host.conn.World → List L
  pub get_ring_lem :
      (w : host.conn.World)
      → (connected (host.conn.get_ring w).1 ≡ connected w)
        × (bound (host.conn.get_ring w).1 ≡ bound w)
  pub after_func_lem :
      (d : ℕ) (w : host.conn.World)
      → (connected (host.conn.after_func d w) ≡ connected w)
        × (bound (host.conn.after_func d w) ≡ bound w)
  pub accept_lem :
      (fd : ℕ) (w : host.conn.World)
      → (connected (host.accept fd w).1 ≡ connected w) × (bound (host.accept fd w).1 ≡ bound w)
  pub set_nonblock_lem :
      (fd : ℕ) (w : host.conn.World)
      → (connected (host.set_nonblock fd w).1 ≡ connected w)
        × (bound (host.set_nonblock fd w).1 ≡ bound w)
  pub close_fd_lem :
      (fd : ℕ) (w : host.conn.World)
      → (connected (host.close_fd fd w) ≡ connected w) × (bound (host.close_fd fd w) ≡ bound w)
  pub on_connect_lem :
      (c : TcpConn lib) (w : host.conn.World)
      → (connected (host.on_connect c w).1 ≡ connected w ++ (c.id ∷ []))
        × (bound (host.on_connect c w).1 ≡ bound w)
  pub bind_handler_lem :
      (l : L) (fd : ℕ) (c : TcpConn lib) (w : host.conn.World)
      → (connected (host.bind_handler l fd c w).1 ≡ connected w)
        × (bound (host.bind_handler l fd c w).1 ≡ bound w ++ (l ∷ []))
  pub new_loop_lem :
      (w : host.conn.World)
      → (connected (host.new_loop w).1 ≡ connected w) × (bound (host.new_loop w).1 ≡ bound w)
  pub upgrade_lem :
      (w : host.conn.World)
      → (connected (host.upgrade w).1 ≡ connected w) × (bound (host.upgrade w).1 ≡ bound w)
  pub not_found_lem :
      (w : host.conn.World)
      → (connected (host.not_found w) ≡ connected w) × (bound (host.not_found w) ≡ bound w)
  pub new_ws_conn_lem :
      (id : ℤ) (w : host.conn.World)
      → (connected (host.new_ws_conn id w) ≡ connected w)
        × (bound (host.new_ws_conn id w) ≡ bound w)
  pub on_connect_ws_lem :
      (id : ℤ) (w : host.conn.World)
      → (connected (host.on_connect_ws id w) ≡ connected w ++ (id ∷ []))
        × (bound (host.on_connect_ws id w) ≡ bound w)

module _ {lib : ByteBuffers} {L : Type 0} (host : ServerHost lib L) (logs : Logs host) where
  open logs use {connected, bound}

  -- The identifiers up to the last one given out are those that OnConnect has got and those of the
  -- goroutines before their OnConnect, each once, TCP connections and WebSockets together; and the loops
  -- that BindHandler has been called on, and then the one of the connection before its OnConnect, are in
  -- turn.
  pub record IsServed (loops : List L) (s : Serving host) : Type 0 where
    pub loops_kept : s.server.connect_loops ≡ loops
    pub counted :
        Perm (connected s.world ++ (id_of s.accepting ++ s.requests)) (ids_to s.server.id_gen)
    pub turn : ℕ
    pub index_lem : s.server.next_loop_index ≡ turn % length loops
    pub in_turn : map some (bound s.world ++ loop_of s.accepting) ≡ turns loops turn

  new_tcp_conn_lem :
      (id : ℤ) (addr : List ℕ) (idle : ℕ) (w : host.conn.World)
      → let r = new_tcp_conn {lib = lib} host.conn id addr idle w in
        (r.0.id ≡ id) × (connected r.1 ≡ connected w) × (bound r.1 ≡ bound w)
  unfolding new_tcp_conn
  new_tcp_conn_lem id addr idle w =
      let a = (host.conn.get_ring w).1 in
      let b = (host.conn.get_ring a).1 in
      let one = logs.get_ring_lem w in
      let two = logs.get_ring_lem a in
      let three = logs.after_func_lem idle b in
      elim (Bool-cases (ltb 0 idle)) [
        | inl q ↦ (refl, simp (q, three.0, two.0, one.0), simp (q, three.1, two.1, one.1))
        | inr q ↦ (refl, simp (q, two.0, one.0), simp (q, two.1, one.1))
      ]

  module _ (loops : List L) (some_loops : 0 < length loops) (idle : ℕ) where
    IsServed-moved :
        (s : Serving host) (v : host.conn.World)
        → IsServed loops s
        → (connected v ≡ connected s.world) × (bound v ≡ bound s.world)
        → IsServed loops (record s { world = v })
    IsServed-moved s v y same = record {
      loops_kept = y.loops_kept;
      counted =
          subst (λ t. Perm (t ++ (id_of s.accepting ++ s.requests)) (ids_to s.server.id_gen))
            (sym same.0) y.counted;
      turn = y.turn;
      index_lem = y.index_lem;
      in_turn = ap (λ t. map some (t ++ loop_of s.accepting)) same.1 ∙ y.in_turn;
    }

    -- The server goes on, with at most one identifier more.
    GoesOn : Option (Serving host) → ℕ → Type 0
    GoesOn r n = (t : Serving host) × (r ≡ some t) × IsServed loops t × (t.server.id_gen ≤ n + 1)

    -- A new TCP connection has the next identifier and the next loop.
    number_tcp-GoesOn :
        (connfd : ℕ) (addr : Sockaddr) (s : Serving host)
        → IsServed loops s
        → s.accepting ≡ none
        → s.server.id_gen + 1 < 2 ^ 63
        → GoesOn (number_tcp host idle connfd addr s) s.server.id_gen
    unfolding number_tcp next_loop turns GoesOn
    number_tcp-GoesOn connfd addr s y free small =
        let (l, at) =
          loop_at_lem loops (y.turn % length loops) (turn_lt y.turn (length loops) some_loops) in
        let before : Perm (connected s.world ++ s.requests) (ids_to s.server.id_gen) =
          subst (λ a. Perm (connected s.world ++ (id_of a ++ s.requests)) (ids_to s.server.id_gen))
            free y.counted in
        let turned : map some (bound s.world) ≡ turns loops y.turn =
          ap (map some) (sym (append-nil (bound s.world)))
          ∙ ap (λ a. map some (bound s.world ++ loop_of a)) (sym free)
          ∙ y.in_turn in
        (
          record s {
            server = record s.server {
              next_loop_index = (s.server.next_loop_index + 1) % length s.server.connect_loops;
              id_gen = s.server.id_gen + 1;
            };
            accepting = some (record {
              loop = l;
              client_id = wrap_int (s.server.id_gen + 1);
              connfd = connfd;
              sa = addr;
            });
          },
          simp (y.loops_kept, y.index_lem, at),
          record {
            loops_kept = y.loops_kept;
            counted = next_id s.server.id_gen (connected s.world) s.requests _ small before refl;
            turn = suc y.turn;
            index_lem = simp (y.loops_kept, y.index_lem) (next_turn y.turn (length loops));
            in_turn = map-append some (bound s.world) (l ∷ []) ∙ simp (turned, at);
          },
          omega arith,
        )

    nonblocking-GoesOn :
        (connfd : ℕ) (addr : Sockaddr) (b : Bool) (w : host.conn.World) (s : Serving host)
        → IsServed loops (record s { world = w })
        → s.accepting ≡ none
        → s.server.id_gen + 1 < 2 ^ 63
        → GoesOn (nonblocking host idle connfd addr (b, w) s) s.server.id_gen
    unfolding nonblocking GoesOn
    nonblocking-GoesOn connfd addr true w s y free small = (
      record s { world = host.close_fd connfd w },
      refl,
      IsServed-moved (record s { world = w }) (host.close_fd connfd w) y
          (logs.close_fd_lem connfd w),
      omega arith,
    )
    nonblocking-GoesOn connfd addr false w s y free small =
        number_tcp-GoesOn connfd addr (record s { world = w }) y free small

    after_accept-GoesOn :
        (a : Accepted) (w : host.conn.World) (s : Serving host)
        → IsServed loops (record s { world = w })
        → s.accepting ≡ none
        → s.server.id_gen + 1 < 2 ^ 63
        → a ≢ accept_failed
        → GoesOn (after_accept host idle (a, w) s) s.server.id_gen
    unfolding after_accept GoesOn
    after_accept-GoesOn (accepted connfd addr) w s y free small fine =
        let r = host.set_nonblock connfd w in
        nonblocking-GoesOn connfd addr r.0 r.1 s
          (IsServed-moved (record s { world = w }) r.1 y (logs.set_nonblock_lem connfd w)) free
          small
    after_accept-GoesOn accept_again w s y free small fine =
        (record s { world = w }, refl, y, omega arith)
    after_accept-GoesOn accept_failed w s y free small fine = absurd (fine refl)

    handle-GoesOn :
        (fd event : ℕ) (s : Serving host)
        → IsServed loops s
        → s.accepting ≡ none
        → s.server.id_gen + 1 < 2 ^ 63
        → (host.accept fd s.world).0 ≢ accept_failed
        → GoesOn (handle host idle fd event s) s.server.id_gen
    unfolding handle GoesOn
    handle-GoesOn fd event s y free small fine = elim (Bool-cases (bit_and event event_read == 0)) [
      | inl q ↦ (s, simp q, y, omega arith)
      | inr q ↦
          let r = host.accept fd s.world in
          let (t, ok, z, n) =
            after_accept-GoesOn r.0 r.1 s (IsServed-moved s r.1 y (logs.accept_lem fd s.world)) free
              small fine in
          (t, simp (q, ok), z, n)
    ]

    listen_event-GoesOn :
        (a : Option (Numbered L)) (fd event : ℕ) (s : Serving host)
        → s.accepting ≡ a
        → IsServed loops s
        → s.server.id_gen + 1 < 2 ^ 63
        → (host.accept fd s.world).0 ≢ accept_failed
        → GoesOn (listen_event host idle a fd event s) s.server.id_gen
    unfolding GoesOn
    listen_event-GoesOn none fd event s free y small fine =
        handle-GoesOn fd event s y free small fine
    listen_event-GoesOn (some x) fd event s busy y small fine = (s, refl, y, omega arith)

    -- OnConnect gets the identifier, and BindHandler is called on the loop.
    connect_accepted-IsServed :
        (a : Option (Numbered L)) (s : Serving host)
        → s.accepting ≡ a
        → IsServed loops s
        → IsServed loops (connect_accepted host idle a s)
    unfolding connect_tcp
    connect_accepted-IsServed none s e y = y
    connect_accepted-IsServed (some x) s e y =
        let new =
          new_tcp_conn {lib = lib} host.conn x.client_id (sock_addr_to_string x.sa) idle s.world in
        let told = host.on_connect new.0 new.1 in
        let new_lem = new_tcp_conn_lem x.client_id (sock_addr_to_string x.sa) idle s.world in
        let told_lem = logs.on_connect_lem new.0 new.1 in
        let bound_lem = logs.bind_handler_lem x.loop x.connfd told.0 told.1 in
        let ids : connected (host.bind_handler x.loop x.connfd told.0 told.1).1
            ≡ connected s.world ++ (x.client_id ∷ []) =
          bound_lem.0 ∙ told_lem.0 ∙ ap₂ (λ xs i. xs ++ (i ∷ [])) new_lem.1 new_lem.0 in
        record {
          loops_kept = y.loops_kept;
          counted =
              subst (λ t. Perm t (ids_to s.server.id_gen))
                (ap (λ a. connected s.world ++ (id_of a ++ s.requests)) e
                  ∙ sym (append_assoc (connected s.world) (x.client_id ∷ []) s.requests)
                  ∙ ap (λ t. t ++ s.requests) (sym ids))
                y.counted;
          turn = y.turn;
          index_lem = y.index_lem;
          in_turn =
              ap (map some) (
                append-nil _
                ∙ bound_lem.1
                ∙ ap (λ t. t ++ (x.loop ∷ [])) (told_lem.1 ∙ new_lem.2)
                ∙ ap (λ a. bound s.world ++ loop_of a) (sym e))
              ∙ y.in_turn;
        }

    -- A request has the next identifier and no loop, or becomes no connection.
    ws_server-GoesOn :
        (s : Serving host)
        → IsServed loops s
        → s.server.id_gen + 1 < 2 ^ 63
        → GoesOn (some (ws_server host s)) s.server.id_gen
    unfolding ws_server number_ws GoesOn
    ws_server-GoesOn s y small =
        let r = host.upgrade s.world in
        let moved = IsServed-moved s r.1 y (logs.upgrade_lem s.world) in
        elim (Bool-cases r.0) [
          | inl q ↦
              let z =
                IsServed-moved (record s { world = r.1 }) (host.not_found r.1) moved
                  (logs.not_found_lem r.1) in
              (record s { world = host.not_found r.1 }, simp q, z, omega arith)
          | inr q ↦ (
            number_ws host (record s { world = r.1 }),
            simp q,
            record {
              loops_kept = moved.loops_kept;
              counted =
                  subst (λ t. Perm t (ids_to (s.server.id_gen + 1)))
                    (append_assoc (connected r.1) (id_of s.accepting) _)
                    (next_id s.server.id_gen (connected r.1 ++ id_of s.accepting) s.requests _ small
                      (subst (λ t. Perm t (ids_to s.server.id_gen))
                        (sym (append_assoc (connected r.1) (id_of s.accepting) s.requests))
                        moved.counted)
                      refl);
              turn = moved.turn;
              index_lem = moved.index_lem;
              in_turn = moved.in_turn;
            },
            omega arith,
          )
        ]

    connect_request-IsServed :
        (r : Option (ℤ × List ℤ)) (n : ℕ) (s : Serving host)
        → take_out s.requests n ≡ r
        → IsServed loops s
        → IsServed loops (connect_request host r s)
    unfolding connect_ws
    connect_request-IsServed none n s e y = y
    connect_request-IsServed (some (id, rest)) n s e y =
        let made = logs.new_ws_conn_lem id s.world in
        let told = logs.on_connect_ws_lem id (host.new_ws_conn id s.world) in
        record {
          loops_kept = y.loops_kept;
          counted =
              subst (λ t. Perm (t ++ (id_of s.accepting ++ rest)) (ids_to s.server.id_gen))
                (sym (told.0 ∙ ap (λ t. t ++ (id ∷ [])) made.0))
                (Perm.trans
                  (handed_over (connected s.world) (id_of s.accepting) s.requests rest id
                    (take_out-perm s.requests n id rest e))
                  y.counted);
          turn = y.turn;
          index_lem = y.index_lem;
          in_turn = ap (λ t. map some (t ++ loop_of s.accepting)) (told.1 ∙ made.1) ∙ y.in_turn;
        }

    serve-GoesOn :
        (e : ServerEvent) (s : Serving host)
        → IsServed loops s
        → s.server.id_gen + 1 < 2 ^ 63
        → ((fd : ℕ) (v : host.conn.World) → (host.accept fd v).0 ≢ accept_failed)
        → GoesOn (serve host idle e s) s.server.id_gen
    unfolding serve GoesOn
    serve-GoesOn (tcp_event fd event) s y small fine =
        listen_event-GoesOn s.accepting fd event s refl y small (fine fd s.world)
    serve-GoesOn tcp_goes_on s y small fine = (
      connect_accepted host idle s.accepting s,
      refl,
      connect_accepted-IsServed s.accepting s refl y,
      same_number s.accepting,
    )
      where
        same_number :
            (a : Option (Numbered L))
            → (connect_accepted host idle a s).server.id_gen ≤ s.server.id_gen + 1
        same_number none = omega arith
        same_number (some x) = omega arith
    serve-GoesOn ws_request s y small fine = ws_server-GoesOn s y small
    serve-GoesOn (ws_goes_on n) s y small fine = (
      connect_request host (take_out s.requests n) s,
      refl,
      connect_request-IsServed (take_out s.requests n) n s refl y,
      same_number (take_out s.requests n),
    )
      where
        same_number :
            (r : Option (ℤ × List ℤ))
            → (connect_request host r s).server.id_gen ≤ s.server.id_gen + 1
        same_number none = omega arith
        same_number (some r) = omega arith

    pub serve_all-IsServed :
        (es : List ServerEvent) (s : Serving host)
        → IsServed loops s
        → s.server.id_gen + length es < 2 ^ 63
        → ((fd : ℕ) (v : host.conn.World) → (host.accept fd v).0 ≢ accept_failed)
        → (t : Serving host) × (serve_all host idle es s ≡ some t) × IsServed loops t
    unfolding serve_all GoesOn
    serve_all-IsServed [] s y small fine = (s, refl, y)
    serve_all-IsServed (e ∷ es) s y small fine =
        let (t, ok, z, n) = serve-GoesOn e s y (omega arith) fine in
        let (u, ends, x) = serve_all-IsServed es t z (omega arith) fine in (u, simp (ok, ends), x)

  pub new_loops-length :
      (n : ℕ) (w : host.conn.World) (ls : List L)
      → (new_loops host n w).0 ≡ some ls
      → (length ls ≡ n)
        × (connected (new_loops host n w).1 ≡ connected w)
        × (bound (new_loops host n w).1 ≡ bound w)
  unfolding new_loops
  new_loops-length zero w [] e = (refl, refl, refl)
  new_loops-length zero w (l ∷ ls) e = absurd (cc)
  new_loops-length (suc n) w ls e = elim (Option-cases (host.new_loop w).0) [
    | inl q ↦ absurd (let z = simp q at e in cc)
    | inr (l, q) ↦ elim (Option-cases (new_loops host n (host.new_loop w).1).0) [
      | inl p ↦ absurd (let z = simp (q, p) at e in cc)
      | inr (ms, p) ↦
          let z = simp (q, p) at e in
          let f : l ∷ ms ≡ ls = cc in
          let (len, same, bind) = new_loops-length n (host.new_loop w).1 ms p in
          let new = logs.new_loop_lem w in
          (sym (ap length f) ∙ ap suc len, simp (q, same, new.0), simp (q, bind, new.1))
    ]
  ]

  pub new-IsServed :
      (ls : List L) (w : host.conn.World)
      → connected w ≡ []
      → bound w ≡ []
      → IsServed ls (begun host (record { connect_loops = ls; next_loop_index = 0; id_gen = 0 }) w)
  unfolding ids_to turns
  new-IsServed ls w e f = record {
    loops_kept = refl;
    counted = subst (λ t. Perm (t ++ []) []) (sym e) (Perm.refl []);
    turn = 0;
    index_lem = sym (zero-mod (length ls));
    in_turn = ap (λ t. map some (t ++ [])) f;
  }
