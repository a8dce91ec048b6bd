-- ===== src/Conn/Tcp/Sending.antt =====
-- `write` delivers the bytes that the connection has accepted, in their order.
use native.Mathlib.Decide.{dec_lt, ℕ_discrete}
use limnet.Base.{
  ℕ, ◌+◌, ◌≤◌, ◌≡◌, ◌≢◌, refl, sym, ap, ap₂, subst, ◌∙◌, true, false, some, List, [], ◌++◌, inl,
  inr, arith, Bool-cases, length, take, drop, slice-to_end, take_of_length-le, append_assoc,
  append-nil, length-drop, take-append-drop, lt→ltb, le→not-ltb, eq→==, ne→not-==,
}
use limnet.RingBuffer.Ceil.{max_int_head_bit}
use limnet.RingBuffer.Defs.{RingBuffer}
use limnet.RingBuffer.Inv.{IsValid, contents, length-contents, ring_length-pos}
use limnet.RingBuffer.Read.{contents-empty}
use limnet.RingBuffer.Export.{ByteBuffers}
use limnet.Conn.Inbound.Laws.{Holds}
use limnet.Conn.Host.{Host, WriteOutcome, wrote, write_again, write_failed, enable_read_write}
use limnet.Conn.Tcp.{TcpConn, State, set_outbound, watch, after_write, write}
use limnet.Conn.Tcp.Delivery.{
  append_to_lem, Watching, Watching-moves, Watching-seen, Fits, Fits-self, Appends-Fits, IsOpen,
  Delivers, going, set_outbound-IsOpen, watched_lem, watch-Delivers, stopped_lem,
}

module _ {lib : ByteBuffers} (host : Host) where
  open host use {World, sent, unix_write}

  module _ (c : TcpConn lib) (i : RingBuffer) (up : c.inp.connected ≡ true) (h : Holds c.inp i)
      (old total : ℕ) where
    after_write-Delivers :
        (p : List ℕ) (o : RingBuffer) (w : World)
        → c.outbound_buffer ≡ some o
        → IsValid o
        → contents o ≡ []
        → o.size + length p ≤ max_int_head_bit
        → Fits old total o
        → length p ≤ total
        → Watching host o w
        → (x : WriteOutcome × World) → unix_write p w ≡ x
        → (s : State lib host) × (after_write host p o c x ≡ some s)
          × Delivers host c.inp old total (sent w ++ p) s
    unfolding after_write
    after_write-Delivers p o w k v z room b most y (write_again, u) e =
        let (out, ok, a) = append_to_lem p o v room in
        (
          (set_outbound out c, (enable_read_write host u).1),
          simp ok,
          watched_lem host c i up h old total out o u (sent w ++ p) a.valid
              (Watching-seen host o ((host.again_lem p w u e).1) y)
              (Appends-Fits old total p o out b a (omega (arith, ap length z)))
              (ap₂ ◌++◌ ((host.again_lem p w u e).0) (a.bytes ∙ ap (λ t. t ++ p) z)),
        )
    after_write-Delivers p o w k v z room b most y (write_failed, u) e =
        stopped_lem host c i up h old total o u (sent w ++ p) p k (p, w, u, e)
          (ap (λ t. t ++ p) (host.failed_lem p w u e))
    after_write-Delivers p o w k v z room b most y (wrote n, u) e =
        let (fits, went, seen) = host.wrote_lem p w n u e in
        elim (ℕ_discrete n 0) [
          | yes q ↦
              let (out, ok, a) = append_to_lem p o v room in
              (
                watch host c out u,
                simp (eq→== n 0 q, ok),
                watch-Delivers host c i up h old total out o u (sent w ++ p) a.valid
                    (Watching-seen host o seen y)
                    (Appends-Fits old total p o out b a (omega (arith, ap length z)))
                    (ap₂ ◌++◌ (went ∙ ap (λ t. sent w ++ take t p) q ∙ append-nil (sent w))
                      (a.bytes ∙ ap (λ t. t ++ p) z)),
              )
          | no q ↦ elim (dec_lt n (length p)) [
            | yes r ↦
                let (out, ok, a) = append_to_lem (drop n p) o v (omega (arith, length-drop n p)) in
                (
                  watch host c out u,
                  simp (ne→not-== n 0 q, lt→ltb n (length p) r, slice-to_end n p (omega arith), ok),
                  watch-Delivers host c i up h old total out o u (sent w ++ p) a.valid
                      (Watching-seen host o seen y)
                      (Appends-Fits old total (drop n p) o out b a
                        (omega (arith, ap length z, length-drop n p)))
                      (ap₂ ◌++◌ went (a.bytes ∙ ap (λ t. t ++ drop n p) z)
                        ∙ append_assoc (sent w) (take n p) (drop n p)
                        ∙ ap (λ t. sent w ++ t) (take-append-drop n p)),
                )
            | no r ↦ (
              watch host c o u,
              simp (ne→not-== n 0 q, le→not-ltb n (length p) (omega arith)),
              watch-Delivers host c i up h old total o o u (sent w ++ p) v
                  (Watching-seen host o seen y) b
                  (ap₂ ◌++◌ went z
                    ∙ append-nil (sent w ++ take n p)
                    ∙ ap (λ t. sent w ++ t) (take_of_length-le n p (omega arith))),
            )
          ]
        ]

  -- `write(p)` on an open connection whose descriptor is in the poller does not panic where the ring
  -- buffer may grow to hold `p`.
  -- Whatever write(2) answers, the connection then goes on, watched for room where bytes wait and
  -- with what it has received unchanged, or, if a write(2) has failed, is closed; what has been sent
  -- and what waits (or is lost by closing) are the bytes accepted before and `p`, in order.
  pub write-Delivers :
      (p : List ℕ) (c : TcpConn lib) (w : World) (o : RingBuffer)
      → IsOpen host (c, w) o
      → o.size + length p ≤ max_int_head_bit
      → (s : State lib host) × (write host p (c, w) ≡ some s)
        × Delivers host c.inp o.size
            (length (contents o) + length p)
            ((sent w ++ contents o) ++ p)
            s
  unfolding write
  write-Delivers p c w o y room = elim (Bool-cases o.is_empty) [
    | inl z ↦
        let (i, h) = y.received in
        let none_left = contents-empty o y.valid z in
        let (s, ok, d) =
          after_write-Delivers c i y.connected h o.size (length (contents o) + length p) p o w
            y.held y.valid none_left room
            (Fits-self (length (contents o) + length p) o (omega arith)) (omega arith) y.watching
            (unix_write p w) refl in
        (
          s,
          simp (y.connected, y.held, z, ok),
          subst (λ t. Delivers host c.inp o.size (length (contents o) + length p) (t ++ p) s)
              (sym (ap (λ t. sent w ++ t) none_left ∙ append-nil (sent w))) d,
        )
    | inr z ↦
        let (i, h) = y.received in
        let (out, ok, a) = append_to_lem p o y.valid room in
        (
          (set_outbound out c, w),
          simp (y.connected, y.held, z, ok),
          going out refl
              (set_outbound-IsOpen host c i y.connected h o.size (length (contents o) + length p)
                out w a.valid (Watching-moves host o out (λ _. waits z) refl y.watching))
              (Appends-Fits o.size (length (contents o) + length p) p o out
                (Fits-self (length (contents o) + length p) o (omega arith)) a (omega arith))
              (ap (λ t. sent w ++ t) a.bytes ∙ sym (append_assoc (sent w) (contents o) p)),
        )
  ]
    where
      waits : o.is_empty ≡ false → contents o ≢ []
      waits z e =
          absurd
            (omega (arith, ring_length-pos o y.valid z, length-contents o y.valid, ap length e))
