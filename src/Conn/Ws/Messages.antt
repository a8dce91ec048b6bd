-- ===== src/Conn/Ws/Messages.antt =====
-- What `msgLoop` and the reading methods of `WSConn` do with the bytes that have been received.
use limnet.Base.{
  ℕ, suc, ◌<◌, ◌≡◌, refl, ap, ◌∙◌, true, some, List, [], ◌++◌, length, take, drop, take-append-drop,
  ltb, ◌==◌, if◌then◌else◌, length-append, arith,
}
use limnet.Base.Int.{ℤ}
use limnet.RingBuffer.Defs.{RingBuffer}
use limnet.RingBuffer.Inv.{contents}
use limnet.RingBuffer.Export.{ByteBuffers}
use limnet.Conn.Inbound.{Inbound, amount}
use limnet.Conn.Inbound.Laws.{Holds, stream, read_n_lem, shift_n_lem}
use limnet.Conn.Events.{default_un_packet}
use limnet.Conn.Events.Default.{default_un_packet-nothing, default_un_packet-all}
use limnet.Conn.Ws.{
  WsHost, WsConn, ws_read_n, ws_shift_n, ws_write, ws_packets, after_message, msg_round,
}

module _ {lib : ByteBuffers} where
  abbrev pub set_buffer : List ℕ → WsConn lib → WsConn lib
  set_buffer p c = record c { inp = record c.inp { buffer = p } }

  -- `ReadN(n)` and then `ShiftN(n)` on a connection that has its ring buffer do not panic, agree on
  -- the count, and cut what has been received in two: what is read, and what stays.
  pub ws_read_n-shift_n :
      (n : ℤ) (c : WsConn lib) (i : RingBuffer)
      → Holds c.inp i
      → (size : ℕ) × (buf : List ℕ) × (mid out : WsConn lib) × (j : RingBuffer) × (ws_read_n lib n c
          ≡ some (size, buf, mid))
        × (ws_shift_n lib n mid ≡ some (size, out))
        × (size ≡ amount (length (stream i c.inp)) n)
        × Holds out.inp j
        × (buf ≡ take size (stream i c.inp))
        × (buf ++ stream j out.inp ≡ stream i c.inp)
  unfolding ws_read_n ws_shift_n
  ws_read_n-shift_n n c i h =
      let (mid, ok, keeps) = read_n_lem lib c.inp i h n in
      let held : Holds mid i = record { held = keeps.same_inbound ∙ h.held; valid = h.valid } in
      let (out, done, s) = shift_n_lem lib mid i held n in
      let same : stream i mid ≡ stream i c.inp = ap (λ t. contents i ++ t) keeps.same_buffer in
      let size = amount (length (stream i c.inp)) n in
      (
        size,
        take size (stream i c.inp),
        record c { inp = mid },
        record c { inp = out },
        s.ring,
        simp ok,
        simp (done, same),
        refl,
        s.holds,
        refl,
        ap (λ t. take size (stream i c.inp) ++ t)
              (s.rest ∙ ap (λ t. drop (amount (length t) n) t) same)
            ∙ take-append-drop size (stream i c.inp),
      )

  module _ (host : WsHost) where
    -- A round with the default `unPacket` and fuel for two packets: OnPacket gets what has been
    -- received, once; its reply, if it is not empty, is written; nothing stays, and the loop goes on.
    pub msg_round-default :
        (idle fuel : ℕ) (c : WsConn lib) (i : RingBuffer) (w v : host.World) (message : List ℕ)
        → c.inp.connected ≡ true
        → Holds c.inp i
        → host.read_message w ≡ (some message, v)
        → 0 < length message
        → (out : WsConn lib) × (j : RingBuffer) × (msg_round host
              (default_un_packet lib)
              idle
              (suc (suc fuel))
              (c, w)
            ≡ some (
              true,
              out,
              (let r = host.on_packet (contents i ++ message) v in
                  if length r.0 == 0 then r.1 else (host.write_message r.0 r.1).1),
            ))
          × Holds out.inp j
          × (stream j out.inp ≡ [])
    unfolding msg_round after_message ws_packets ws_write
    msg_round-default idle fuel c i w v message up h e some_bytes =
        let inp : Inbound lib = record c.inp { buffer = message } in
        let (mid, j, first, open_still, held, nothing) =
          default_un_packet-all inp i up (record { held = h.held; valid = h.valid })
            (omega (arith, length-append (contents i) message)) in
        let (out, second, keeps) = default_un_packet-nothing mid j open_still held nothing in
        (
          record c { inp = out; active_time = if ltb 0 idle then host.now v else c.active_time },
          j,
          simp (e, first, second, open_still),
          record { held = keeps.same_inbound ∙ held.held; valid = held.valid },
          ap (λ t. contents j ++ t) keeps.same_buffer ∙ nothing,
        )
