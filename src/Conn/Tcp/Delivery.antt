-- ===== src/Conn/Tcp/Delivery.antt =====
-- What an open connection is, what a closed one is, and what it means to deliver the bytes that a
-- connection has accepted. `handleClose` closes.
use native.Mathlib.Decide.{dec_lt}
use Prim.Native.Nat.{bit_or}
use limnet.Base.{
  ℕ, ◌+◌, ◌^◌, ◌≤◌, ◌≡◌, ◌≢◌, refl, ap, ◌∙◌, true, false, none, some, List, [], ◌++◌, arith, length,
  drop_of_length-le, length-append, lt→ltb, le→not-ltb,
}
use limnet.RingBuffer.Ceil.{max_int_head_bit}
use limnet.RingBuffer.Defs.{RingBuffer, ring_length}
use limnet.RingBuffer.Inv.{IsValid, contents, length-contents}
use limnet.RingBuffer.Append.{Appends, write-Appends}
use limnet.RingBuffer.Export.{ByteBuffers}
use limnet.Conn.Inbound.{Inbound}
use limnet.Conn.Inbound.Laws.{Holds}
use limnet.Conn.Host.{
  Host, read_event, write_event, write_failed, enable_read_write, delete_fd_in_loop,
}
use limnet.Conn.Tcp.{TcpConn, State, set_outbound, let_go, append_to, release, handle_close, watch}

pub append_to_lem :
    (p : List ℕ) (o : RingBuffer)
    → IsValid o
    → o.size + length p ≤ max_int_head_bit
    → (out : RingBuffer) × (append_to p o ≡ some out) × Appends p o out
append_to_lem p o v room = let (out, ok, a) = write-Appends p o v room in (out, rw ok refl, a)

-- Any power of two from 4096 on that holds the old size and all the bytes holds the ring buffer's
-- size, and no more than all the bytes wait in it.
abbrev pub Fits : ℕ → ℕ → RingBuffer → Type 0
Fits old total o =
    ((j : ℕ) → 12 ≤ j → old ≤ 2 ^ j → total ≤ 2 ^ j → o.size ≤ 2 ^ j)
    × (length (contents o) ≤ total)

pub Fits-self : (total : ℕ) (o : RingBuffer) → length (contents o) ≤ total → Fits o.size total o
Fits-self total o h = (λ j _ x _. x, h)

pub Appends-Fits :
    (old total : ℕ) (p : List ℕ) (o out : RingBuffer)
    → Fits old total o
    → Appends p o out
    → length (contents o) + length p ≤ total
    → Fits old total out
Appends-Fits old total p o out b a most = (
  λ j large x y. a.capacity j large (b.0 j large x y) (omega arith),
  omega (arith, ap length a.bytes, length-append (contents o) p),
)

-- A write(2) has failed, and not for want of room.
abbrev pub Fails : Host → Type 0
Fails host = (p : List ℕ) × (w v : host.World) × (host.unix_write p w ≡ (write_failed, v))

module _ (host : Host) where
  open host use {World, watched, epoll_mod}

  -- The descriptor is in epoll's set, and where bytes wait to be sent, epoll watches for room to send
  -- them.
  abbrev pub Watching : RingBuffer → World → Type 0
  Watching o w =
      (x : ℕ) × (watched w ≡ some x) × (contents o ≢ [] → x ≡ bit_or read_event write_event)

  pub Watching-moves :
      (o p : RingBuffer) {w v : World}
      → (contents p ≢ [] → contents o ≢ [])
      → watched v ≡ watched w
      → Watching o w
      → Watching p v
  Watching-moves o p f e (x, h, k) = (x, e ∙ h, λ ne. k (f ne))

  pub Watching-seen :
      (o : RingBuffer) {w v : World} → watched v ≡ watched w → Watching o w → Watching o v
  Watching-seen o e (x, h, k) = (x, e ∙ h, k)

  pub epoll_mod-Watching :
      (o p : RingBuffer) (w : World) (e : ℕ)
      → (contents p ≢ [] → e ≡ bit_or read_event write_event)
      → Watching o w
      → Watching p (epoll_mod e w).1
  epoll_mod-Watching o p w e f (x, h, k) = (e, (host.watched-epoll_mod e x w h).1, f)

module _ {lib : ByteBuffers} (host : Host) where
  open host use {World, sent, unix_write}

  -- An open connection: it has its ring buffers, its descriptor is in epoll's set, and where bytes wait
  -- to be sent, epoll watches for room to send them.
  pub record IsOpen (s : State lib host) (o : RingBuffer) : Type 0 where
    pub connected : s.0.inp.connected ≡ true
    pub received : (i : RingBuffer) × Holds s.0.inp i
    pub held : s.0.outbound_buffer ≡ some o
    pub valid : IsValid o
    pub watching : Watching host o s.1

  -- A connection that has been closed and has released what it held.
  pub record IsClosed (s : State lib host) : Type 0 where
    pub disconnected : s.0.inp.connected ≡ false
    pub no_inbound : s.0.inp.inbound_buffer ≡ none
    pub no_buffer : s.0.inp.buffer ≡ []
    pub no_outbound : s.0.outbound_buffer ≡ none

  -- Of the bytes accepted so far the open connection has sent a front part and holds the rest, with
  -- what it has received as `inp`; the closed one, on which a write(2)
  -- has failed, has sent a front part. The ring buffer fits
  -- `old` and `total`.
  pub data Delivers (inp : Inbound lib) (old total : ℕ) (accepted : List ℕ) (s : State lib host)
      : Type 0 where
    going :
        (o : RingBuffer)
        → s.0.inp ≡ inp
        → IsOpen s o
        → Fits old total o
        → sent s.1 ++ contents o ≡ accepted
        → Delivers inp old total accepted s
    stopped :
        (lost : List ℕ)
        → Fails host
        → IsClosed s
        → sent s.1 ++ lost ≡ accepted
        → Delivers inp old total accepted s

  release_lem :
      (c : TcpConn lib) (w : World) (i o : RingBuffer)
      → c.inp.connected ≡ false
      → Holds c.inp i
      → c.outbound_buffer ≡ some o
      → (s : State lib host) × (release host (c, w) ≡ some s)
        × IsClosed s
        × (s.1 ≡ host.put_ring o (host.put_ring i w))
  unfolding release
  release_lem c w i o e h k = (
    (let_go c, host.put_ring o (host.put_ring i w)),
    simp (h.held, k),
    record { disconnected = e; no_inbound = refl; no_buffer = refl; no_outbound = refl },
    refl,
  )

  -- `handleClose` on a connected connection takes it off its event loop, calls OnClose, closes the
  -- descriptor and puts both ring buffers back, in this order; on another it does nothing.
  pub handle_close_lem :
      (c : TcpConn lib) (w : World) (i o : RingBuffer)
      → c.inp.connected ≡ true
      → Holds c.inp i
      → c.outbound_buffer ≡ some o
      → (s : State lib host) × (handle_close host (c, w) ≡ some s)
        × IsClosed s
        × (s.1
            ≡ host.put_ring o (
                host.put_ring i
                  (host.unix_close (host.on_close (host.forget_handler (host.epoll_del w))))))
        × (handle_close host s ≡ some s)
        × (sent s.1 ≡ sent w)
  unfolding handle_close delete_fd_in_loop
  handle_close_lem c w i o e h k =
      let (s, ok, closed, end) =
        release_lem (record c { inp = record c.inp { connected = false } })
          (host.unix_close (host.on_close (host.forget_handler (host.epoll_del w)))) i o refl
          (record { held = h.held; valid = h.valid }) k in
      (
        s,
        simp (e, ok),
        closed,
        end,
        simp (closed.disconnected),
        simp (
          end, host.sent-put_ring, host.sent-unix_close, host.sent-on_close,
          host.sent-forget_handler, host.sent-epoll_del,
        ),
      )

  module _ (c : TcpConn lib) (i : RingBuffer) (up : c.inp.connected ≡ true) (h : Holds c.inp i)
      (old total : ℕ) where
    pub set_outbound-IsOpen :
        (o : RingBuffer) (w : World)
        → IsValid o
        → Watching host o w
        → IsOpen (set_outbound o c, w) o
    set_outbound-IsOpen o w v watching = record {
      connected = up;
      received = (i, h);
      held = refl;
      valid = v;
      watching = watching;
    }

    pub watched_lem :
        (o was : RingBuffer) (w : World) (all : List ℕ)
        → IsValid o
        → Watching host was w
        → Fits old total o
        → sent w ++ contents o ≡ all
        → Delivers c.inp old total all (set_outbound o c, (enable_read_write host w).1)
    unfolding enable_read_write
    watched_lem o was w all v y b e =
        going o refl
          (set_outbound-IsOpen o (enable_read_write host w).1 v
            (epoll_mod-Watching host was o w _ (λ _. refl) y))
          b (ap (λ t. t ++ contents o) (host.sent-epoll_mod _ w) ∙ e)

    pub watch-Delivers :
        (o was : RingBuffer) (w : World) (all : List ℕ)
        → IsValid o
        → Watching host was w
        → Fits old total o
        → sent w ++ contents o ≡ all
        → Delivers c.inp old total all (watch host c o w)
    watch-Delivers o was w all v y b e = elim (dec_lt 0 (ring_length o)) [
      | yes q ↦ rw (lt→ltb 0 (ring_length o) q) (watched_lem o was w all v y b e)
      | no q ↦ rw (le→not-ltb 0 (ring_length o) (omega arith)) (
          going o refl
            (set_outbound-IsOpen o w v (
              Watching-moves host was o
                (λ ne.
                  absurd
                    (ne (drop_of_length-le 0 (contents o) (omega (arith, length-contents o v)))))
                refl y))
            b e)
    ]

    pub stopped_lem :
        (o : RingBuffer) (w : World) (all lost : List ℕ)
        → c.outbound_buffer ≡ some o
        → Fails host
        → sent w ++ lost ≡ all
        → (s : State lib host) × (handle_close host (c, w) ≡ some s)
          × Delivers c.inp old total all s
    stopped_lem o w all lost k failed e =
        let (s, ok, closed, _, _, same) = handle_close_lem c w i o up h k in
        (s, ok, stopped lost failed closed (ap (λ t. t ++ lost) same ∙ e))
