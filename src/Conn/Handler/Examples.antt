-- ===== src/Conn/Handler/Examples.antt =====
-- The connection of Conn/Examples, whose bytes wait, with the default handler.
use limnet.Base.{◌≡◌, refl, some, [], arith}
use limnet.RingBuffer.Defs.{RingBuffer}
use limnet.RingBuffer.Examples.{plain, bent, bent-IsValid}
use limnet.Conn.Inbound.Laws.{Holds, stream}
use limnet.Conn.Tcp.{State}
use limnet.Conn.Tcp.Delivery.{IsOpen}
use limnet.Conn.Events.{default_un_packet, handle_read}
use limnet.Conn.Examples.{echo, busy, net, received-Holds}
use limnet.Conn.Handler.{quiet, handle_read-silent}

busy-IsOpen : IsOpen (quiet echo) (busy, net) bent
busy-IsOpen = record {
  connected = refl;
  received = (bent, received-Holds);
  held = refl;
  valid = bent-IsValid;
  watching = (7, refl, λ _. refl);
}

handle_read-silent_example :
    (t : State plain (quiet echo)) × (handle_read
        (quiet echo)
        (default_un_packet plain)
        2
        (busy, net)
      ≡ some t)
    × IsOpen (quiet echo) t bent
    × (echo.sent t.1 ≡ echo.sent net)
    × (j : RingBuffer) × Holds t.0.inp j
    × (stream j t.0.inp ≡ [])
handle_read-silent_example =
    handle_read-silent echo 0 busy net bent bent net.incoming net busy-IsOpen received-Holds refl
      (omega arith)
