-- ===== src/Conn/Tcp/Calls.antt =====
-- A log of the calls of the user's OnPacket, which only `respond` makes: `write` and `handleWrite` of a
-- connection, which may close it, leave the log as it is.
use limnet.Base.{
  ℕ, ◌≡◌, refl, sym, ap, ◌∙◌, Bool, true, false, none, some, Option, List, [], ◌∷◌, ◌++◌, inl, inr,
  ◌>>=◌, if◌then◌else◌, Bool-cases, Option-cases, length, slice, append_assoc, ltb, ◌==◌, ◌&&◌, not,
}
use limnet.Base.Int.{pos}
use limnet.RingBuffer.Defs.{RingBuffer, ring_length}
use limnet.RingBuffer.Reading.{lazy_read_all, shift}
use limnet.RingBuffer.Export.{ByteBuffers}
use limnet.Conn.Host.{
  Host, WriteOutcome, wrote, write_again, write_failed, enable_read, enable_read_write,
  delete_fd_in_loop,
}
use limnet.Conn.Tcp.{
  TcpConn, State, append_to, release, handle_close, after_write, write, after_tail, after_head,
  handle_write,
}

-- a packet, and the answer
abbrev pub Call : Type 0
Call = List ℕ × List ℕ

abbrev pub packets_of : List Call → List (List ℕ)
packets_of [] = []
packets_of (call ∷ cs) = call.0 ∷ packets_of cs

-- the answers, one behind the other
abbrev pub replies_of : List Call → List ℕ
replies_of [] = []
replies_of (call ∷ cs) = call.1 ++ replies_of cs

pub packets_of-append : (cs ds : List Call) → packets_of (cs ++ ds) ≡ packets_of cs ++ packets_of ds
packets_of-append [] ds = refl
packets_of-append (call ∷ cs) ds = ap (λ t. call.0 ∷ t) (packets_of-append cs ds)

pub replies_of-append : (cs ds : List Call) → replies_of (cs ++ ds) ≡ replies_of cs ++ replies_of ds
replies_of-append [] ds = refl
replies_of-append (call ∷ cs) ds =
    ap (λ t. call.1 ++ t) (replies_of-append cs ds)
    ∙ sym (append_assoc call.1 (replies_of cs) (replies_of ds))

-- The calls of OnPacket so far: a call stands at the log's end with its answer, and nothing else adds to
-- the log.
pub record CallLog (host : Host) : Type 0 where
  pub calls : host.World → List Call
  pub on_packet_lem :
      (p : List ℕ) (w : host.World)
      → calls (host.on_packet p w).1 ≡ calls w ++ ((p, (host.on_packet p w).0) ∷ [])
  pub read_lem : (w : host.World) → calls (host.unix_read w).1 ≡ calls w
  pub write_lem : (p : List ℕ) (w : host.World) → calls (host.unix_write p w).1 ≡ calls w
  pub unix_close_lem : (w : host.World) → calls (host.unix_close w) ≡ calls w
  pub epoll_mod_lem : (e : ℕ) (w : host.World) → calls (host.epoll_mod e w).1 ≡ calls w
  pub epoll_del_lem : (w : host.World) → calls (host.epoll_del w) ≡ calls w
  pub forget_handler_lem : (w : host.World) → calls (host.forget_handler w) ≡ calls w
  pub on_close_lem : (w : host.World) → calls (host.on_close w) ≡ calls w
  pub put_ring_lem : (b : RingBuffer) (w : host.World) → calls (host.put_ring b w) ≡ calls w

module _ (host : Host) (log : CallLog host) where
  open host use {World}
  open log use {calls}

  watch-same :
      (cs : List Call) (b : Bool) (w : World)
      → calls w ≡ cs
      → calls (if b then (enable_read_write host w).1 else w) ≡ cs
  unfolding enable_read_write
  watch-same cs true w h = log.epoll_mod_lem _ w ∙ h
  watch-same cs false w h = h

  unwatch-same :
      (cs : List Call) (b : Bool) (w : World)
      → calls w ≡ cs
      → calls (if b then (enable_read host w).1 else w) ≡ cs
  unfolding enable_read
  unwatch-same cs true w h = log.epoll_mod_lem _ w ∙ h
  unwatch-same cs false w h = h

module _ {lib : ByteBuffers} (host : Host) (log : CallLog host) where
  open host use {World, unix_write}
  open log use {calls}

  -- The result, if there is one, has made just these calls.
  abbrev pub Logged : List Call → Option (State lib host) → Type 0
  Logged cs none = Unit
  Logged cs (some s) = calls s.1 ≡ cs

  module _ (cs : List Call) where
    append-Logged :
        (p : List ℕ) (o : RingBuffer) (k : RingBuffer → State lib host)
        → ((o : RingBuffer) → calls (k o).1 ≡ cs)
        → Logged cs (append_to p o >>= λ o. some (k o))
    append-Logged p o k h = elim (Option-cases (append_to p o)) [
      | inl e ↦ simp e tt
      | inr (out, e) ↦ simp e (h out)
    ]

    release-Logged : (c : TcpConn lib) (w : World) → calls w ≡ cs → Logged cs (release host (c, w))
    unfolding release
    release-Logged c w h = elim (Option-cases c.inp.inbound_buffer) [
      | inl e ↦ simp e tt
      | inr (i, e) ↦ elim (Option-cases c.outbound_buffer) [
        | inl f ↦ simp (e, f) tt
        | inr (o, f) ↦ simp (e, f) (log.put_ring_lem o _ ∙ log.put_ring_lem i w ∙ h)
      ]
    ]

    pub handle_close-Logged :
        (c : TcpConn lib) (w : World) → calls w ≡ cs → Logged cs (handle_close host (c, w))
    unfolding handle_close delete_fd_in_loop
    handle_close-Logged c w h = elim (Bool-cases c.inp.connected) [
      | inl e ↦ simp e (
          release-Logged _ _ (
            log.unix_close_lem _
            ∙ log.on_close_lem _
            ∙ log.forget_handler_lem _
            ∙ log.epoll_del_lem w
            ∙ h))
      | inr e ↦ simp e h
    ]

    after_write-Logged :
        (p : List ℕ) (o : RingBuffer) (c : TcpConn lib) (x : WriteOutcome × World)
        → calls x.1 ≡ cs
        → Logged cs (after_write host p o c x)
    unfolding after_write enable_read_write
    after_write-Logged p o c (write_again, w) h =
        append-Logged p o _ (λ _. log.epoll_mod_lem _ w ∙ h)
    after_write-Logged p o c (write_failed, w) h = handle_close-Logged c w h
    after_write-Logged p o c (wrote n, w) h = elim (Bool-cases (n == 0)) [
      | inl e ↦
          simp e (append-Logged p o _ (λ o. watch-same host log cs (ltb 0 (ring_length o)) w h))
      | inr e ↦ elim (Bool-cases (ltb n (length p))) [
        | inl f ↦ elim (Option-cases (slice n (length p) p)) [
          | inl g ↦ simp (e, f, g) tt
          | inr (rest, g) ↦
              simp (e, f, g)
                (append-Logged rest o _ (λ o. watch-same host log cs (ltb 0 (ring_length o)) w h))
        ]
        | inr f ↦ simp (e, f) (watch-same host log cs (ltb 0 (ring_length o)) w h)
      ]
    ]

    pub write-Logged :
        (p : List ℕ) (c : TcpConn lib) (w : World) → calls w ≡ cs → Logged cs (write host p (c, w))
    unfolding write
    write-Logged p c w h = elim (Bool-cases c.inp.connected) [
      | inl e ↦ elim (Option-cases c.outbound_buffer) [
        | inl f ↦ simp (e, f) tt
        | inr (o, f) ↦ elim (Bool-cases o.is_empty) [
          | inl g ↦
              simp (e, f, g) (after_write-Logged p o c (unix_write p w) (log.write_lem p w ∙ h))
          | inr g ↦ simp (e, f, g) (append-Logged p o _ (λ _. h))
        ]
      ]
      | inr e ↦ simp e h
    ]

    after_tail-Logged :
        (o : RingBuffer) (c : TcpConn lib) (x : WriteOutcome × World)
        → calls x.1 ≡ cs
        → Logged cs (after_tail host o c x)
    unfolding after_tail
    after_tail-Logged o c (write_again, w) h = h
    after_tail-Logged o c (write_failed, w) h = handle_close-Logged _ w h
    after_tail-Logged o c (wrote n, w) h = unwatch-same host log cs (shift (pos n) o).is_empty w h

    after_head-Logged :
        (ht : List ℕ × List ℕ) (o : RingBuffer) (c : TcpConn lib) (x : WriteOutcome × World)
        → calls x.1 ≡ cs
        → Logged cs (after_head host ht o c x)
    unfolding after_head
    after_head-Logged ht o c (write_again, w) h = h
    after_head-Logged ht o c (write_failed, w) h = handle_close-Logged c w h
    after_head-Logged ht o c (wrote n, w) h =
        elim (Bool-cases (length ht.0 == n && not (length ht.1 == 0))) [
          | inl e ↦
              simp e (
                after_tail-Logged (shift (pos n) o) c (unix_write ht.1 w)
                  (log.write_lem ht.1 w ∙ h))
          | inr e ↦ simp e (unwatch-same host log cs (shift (pos n) o).is_empty w h)
        ]

    pub handle_write-Logged :
        (c : TcpConn lib) (w : World) → calls w ≡ cs → Logged cs (handle_write host (c, w))
    unfolding handle_write
    handle_write-Logged c w h = elim (Option-cases c.outbound_buffer) [
      | inl e ↦ simp e tt
      | inr (o, e) ↦ elim (Option-cases (lazy_read_all o)) [
        | inl f ↦ simp (e, f) tt
        | inr (ht, f) ↦
            simp (e, f) (after_head-Logged ht o c (unix_write ht.0 w) (log.write_lem ht.0 w ∙ h))
      ]
    ]
