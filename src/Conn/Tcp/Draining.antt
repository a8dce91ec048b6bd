-- ===== src/Conn/Tcp/Draining.antt =====
-- `handleWrite` delivers the bytes that wait, in their order.
use limnet.Base.{
  ℕ, ◌-◌, ◌≤◌, ◌≡◌, ◌≢◌, refl, sym, ap, ap₂, subst, ◌∙◌, true, some, List, [], ◌++◌, inl, inr,
  arith, Bool-cases, length, take, drop, drop_of_length-le, append_assoc, append-nil, length-drop,
  take-append-drop, take-append, drop-append, ◌==◌, ◌&&◌, not,
}
use limnet.Base.Int.{pos}
use limnet.RingBuffer.Defs.{RingBuffer}
use limnet.RingBuffer.Reading.{shift}
use limnet.RingBuffer.Inv.{IsValid, contents}
use limnet.RingBuffer.Peek.{lazy_read_all-Slices}
use limnet.RingBuffer.Consume.{contents-shift, size-shift, shift-IsValid}
use limnet.RingBuffer.Read.{contents-empty}
use limnet.RingBuffer.Export.{ByteBuffers}
use limnet.Conn.Inbound.Laws.{Holds}
use limnet.Conn.Host.{Host, WriteOutcome, wrote, write_again, write_failed, enable_read}
use limnet.Conn.Tcp.{TcpConn, State, set_outbound, unwatch, after_tail, after_head, handle_write}
use limnet.Conn.Tcp.Delivery.{
  Watching, Watching-moves, Watching-seen, epoll_mod-Watching, Fits, Fits-self, IsOpen, Delivers,
  going, stopped, handle_close_lem, set_outbound-IsOpen, stopped_lem,
}

module _ {lib : ByteBuffers} (host : Host) where
  open host use {World, sent, unix_write}

  module _ (c : TcpConn lib) (i : RingBuffer) (up : c.inp.connected ≡ true) (h : Holds c.inp i)
      (old total : ℕ) where
    unwatch-Delivers :
        (o : RingBuffer) (w : World) (all : List ℕ)
        → IsValid o
        → Fits old total o
        → Watching host o w
        → sent w ++ contents o ≡ all
        → Delivers host c.inp old total all (unwatch host c o w)
    unfolding enable_read
    unwatch-Delivers o w all v b watching e = elim (Bool-cases o.is_empty) [
      | inl z ↦ simp z (
          going o refl
            (set_outbound-IsOpen host c i up h old total o (enable_read host w).1 v
              (epoll_mod-Watching host o o w _ (λ ne. absurd (ne (contents-empty o v z))) watching))
            b (ap (λ t. t ++ contents o) (host.sent-epoll_mod _ w) ∙ e))
      | inr z ↦
          simp z (going o refl (set_outbound-IsOpen host c i up h old total o w v watching) b e)
    ]

    -- the bytes that a write(2) of a front part leaves
    shift-Delivers :
        (o : RingBuffer) (w u : World) (p more : List ℕ) (n : ℕ)
        → IsValid o
        → p ++ more ≡ contents o
        → n ≤ length p
        → sent u ≡ sent w ++ take n p
        → sent u ++ contents (shift (pos n) o) ≡ sent w ++ contents o
    shift-Delivers o w u p more n v e fits went =
        ap₂ ◌++◌ went (contents-shift (pos n) o v)
        ∙ append_assoc (sent w) (take n p) (drop n (contents o))
        ∙ ap (λ t. sent w ++ t)
            (ap (λ t. t ++ drop n (contents o))
                (sym (append-nil (take n p))
                  ∙ ap (λ t. take n p ++ take t more) {x = 0} (omega arith)
                  ∙ sym (take-append n p more)
                  ∙ ap (take n) e)
              ∙ take-append-drop n (contents o))

    shift-Fits :
        (o : RingBuffer) (n : ℕ) → IsValid o → Fits old total o → Fits old total (shift (pos n) o)
    shift-Fits o n v b = (
      λ j large x y. rw (size-shift (pos n) o) (b.0 j large x y),
      omega (arith, b.1, ap length (contents-shift (pos n) o v), length-drop n (contents o)),
    )

    still_watching :
        (o : RingBuffer) (n : ℕ) → IsValid o → contents (shift (pos n) o) ≢ [] → contents o ≢ []
    still_watching o n v ne e =
        ne (contents-shift (pos n) o v ∙ ap (drop n) e ∙ drop_of_length-le n [] (omega arith))

    after_tail-Delivers :
        (q : List ℕ) (o : RingBuffer) (w : World)
        → IsValid o
        → q ≡ contents o
        → Fits old total o
        → Watching host o w
        → (x : WriteOutcome × World) → unix_write q w ≡ x
        → (s : State lib host) × (after_tail host o c x ≡ some s)
          × Delivers host c.inp old total (sent w ++ contents o) s
    unfolding after_tail
    after_tail-Delivers q o w v same b watching (write_again, u) e =
        let (kept, seen) = host.again_lem q w u e in
        (
          (set_outbound o c, u),
          refl,
          going o refl
              (set_outbound-IsOpen host c i up h old total o u v
                (Watching-seen host o seen watching))
              b (ap (λ t. t ++ contents o) kept),
        )
    after_tail-Delivers q o w v same b watching (write_failed, u) e =
        let (s, ok, closed, _, _, kept) =
          handle_close_lem host (set_outbound o c) u i o up
            (record { held = h.held; valid = h.valid }) refl in
        (
          s,
          ok,
          stopped (contents o) (q, w, u, e) closed
              (ap (λ t. t ++ contents o) (kept ∙ host.failed_lem q w u e)),
        )
    after_tail-Delivers q o w v same b watching (wrote n, u) e =
        let (fits, went, seen) = host.wrote_lem q w n u e in
        (
          unwatch host c (shift (pos n) o) u,
          refl,
          unwatch-Delivers (shift (pos n) o) u (sent w ++ contents o) (shift-IsValid (pos n) o v)
              (shift-Fits o n v b)
              (Watching-moves host o (shift (pos n) o) (still_watching o n v) seen watching)
              (shift-Delivers o w u q [] n v (append-nil q ∙ same) fits went),
        )

    after_head-Delivers :
        (ht : List ℕ × List ℕ) (o : RingBuffer) (w : World)
        → c.outbound_buffer ≡ some o
        → IsValid o
        → ht.0 ++ ht.1 ≡ contents o
        → Fits old total o
        → Watching host o w
        → (x : WriteOutcome × World) → unix_write ht.0 w ≡ x
        → (s : State lib host) × (after_head host ht o c x ≡ some s)
          × Delivers host c.inp old total (sent w ++ contents o) s
    unfolding after_head
    after_head-Delivers ht o w k v whole b watching (write_again, u) e =
        let (kept, seen) = host.again_lem ht.0 w u e in
        (
          (c, u),
          refl,
          going o refl
              (record {
                connected = up;
                received = (i, h);
                held = k;
                valid = v;
                watching = Watching-seen host o seen watching;
              })
              b (ap (λ t. t ++ contents o) kept),
        )
    after_head-Delivers ht o w k v whole b watching (write_failed, u) e =
        stopped_lem host c i up h old total o u (sent w ++ contents o) (contents o) k
          (ht.0, w, u, e) (ap (λ t. t ++ contents o) (host.failed_lem ht.0 w u e))
    after_head-Delivers ht o w k v whole b watching (wrote n, u) e =
        let (fits, went, seen) = host.wrote_lem ht.0 w n u e in
        let left = shift-Delivers o w u ht.0 ht.1 n v whole fits went in
        elim (Bool-cases (length ht.0 == n && not (length ht.1 == 0))) [
          | inl both ↦
              let (s, ok, d) =
                after_tail-Delivers ht.1 (shift (pos n) o) u (shift-IsValid (pos n) o v)
                  (tail_left ht o n v whole (ground arith)) (shift-Fits o n v b)
                  (Watching-moves host o (shift (pos n) o) (still_watching o n v) seen watching)
                  (unix_write ht.1 u) refl in
              (s, simp (both, ok), subst (λ t. Delivers host c.inp old total t s) left d)
          | inr one ↦ (
            unwatch host c (shift (pos n) o) u,
            simp one,
            unwatch-Delivers (shift (pos n) o) u (sent w ++ contents o) (shift-IsValid (pos n) o v)
                (shift-Fits o n v b)
                (Watching-moves host o (shift (pos n) o) (still_watching o n v) seen watching) left,
          )
        ]
      where
        tail_left :
            (ht : List ℕ × List ℕ) (o : RingBuffer) (n : ℕ)
            → IsValid o
            → ht.0 ++ ht.1 ≡ contents o
            → length ht.0 ≡ n
            → ht.1 ≡ contents (shift (pos n) o)
        tail_left ht o n v whole e =
            ap (λ t. drop t ht.1) {x = 0} {y = n - length ht.0} (omega arith)
            ∙ ap (λ t. t ++ drop (n - length ht.0) ht.1)
                (sym (drop_of_length-le n ht.0 (omega arith)))
            ∙ sym (drop-append n ht.0 ht.1)
            ∙ ap (drop n) whole
            ∙ sym (contents-shift (pos n) o v)

  -- `handleWrite` on an open connection whose descriptor is in the poller does not panic, and whatever
  -- its writes answer, what has been sent and what waits (or is lost by closing) are the bytes accepted before, in order; the
  -- connection goes on, watched for room where bytes wait, or, if a write(2) has failed, is closed.
  pub handle_write-Delivers :
      (c : TcpConn lib) (w : World) (o : RingBuffer)
      → IsOpen host (c, w) o
      → (s : State lib host) × (handle_write host (c, w) ≡ some s)
        × Delivers host c.inp o.size (length (contents o)) (sent w ++ contents o) s
  unfolding handle_write
  handle_write-Delivers c w o y =
      let (i, h) = y.received in
      let (ht, ok, whole) = lazy_read_all-Slices o y.valid in
      let (s, done, d) =
        after_head-Delivers c i y.connected h o.size (length (contents o)) ht o w y.held y.valid
          whole (Fits-self (length (contents o)) o (omega arith)) y.watching (unix_write ht.0 w)
          refl in
      (s, simp (y.held, ok, done), d)
