-- ===== src/Conn/Ws/Examples.antt =====
-- A websocket connection with bytes received, whose user echoes; and what becomes of it once closed.
use limnet.Base.{
  ℕ, ◌≡◌, refl, true, false, none, some, List, [], ◌∷◌, ◌++◌, length, ◌==◌, if◌then◌else◌, ◌>>=◌,
}
use limnet.Base.Int.{pos}
use limnet.RingBuffer.Defs.{unallocated}
use limnet.RingBuffer.Examples.{bent, plain}
use limnet.Conn.Inbound.{Inbound, read_n, reset_buffer}
use limnet.Conn.Events.{UnPacket, default_un_packet}
use limnet.Conn.Examples.{received, received-Holds}
use limnet.Conn.Ws.{WsHost, WsConn, after_message}
use limnet.Conn.Ws.Open.{done, ws_public_close}
use limnet.Conn.Ws.Race.{close-after_message}

-- The world of the websocket is the messages written.
abbrev socket : WsHost
socket = record {
  World = List (List ℕ);
  read_message = λ w. (some (5 ∷ []), w);
  write_message = λ p w. (false, w ++ (p ∷ []));
  close = λ w. w;
  on_close = λ w. w;
  on_packet = λ p w. (p, w);
  put_ring = λ b w. w;
  get_ring = λ w. (unallocated, w);
  after_func = λ d w. w;
  now = λ w. 0;
}

abbrev ws : WsConn plain
ws = record {
  inp = received;
  active_time = 0;
  id = pos 2;
  addr = [];
  ctx = none;
  status = pos 0;
  version = 0;
}

-- an `unPacket` that calls `ReadN` first, and takes all
abbrev pub read_first : UnPacket plain
read_first c = do
  r ← read_n plain (pos 0) c
  c ← reset_buffer plain r.2
  some (if length r.1 == 0 then none else some r.1, c)

pub read_first-panics : (c : Inbound plain) → c.inbound_buffer ≡ none → read_first c ≡ none
unfolding read_n
read_first-panics c e = simp e

close-after_message_example :
    (t : WsConn plain) × (v : List (List ℕ)) × (ws_public_close socket (ws, []) ≡ some (done, t, v))
    × (after_message socket read_first 0 1 t (some (5 ∷ []), v) ≡ none)
    × (u : WsConn plain) × (after_message socket (default_un_packet plain) 0 1 t (some (5 ∷ []), v)
        ≡ some (true, u, v))
close-after_message_example =
    close-after_message socket read_first 0 0 ws [] bent (5 ∷ []) read_first-panics refl
      received-Holds
