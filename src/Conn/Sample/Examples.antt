-- ===== src/Conn/Sample/Examples.antt =====
-- A connection that gets one whole frame and a part of another, with a handler that acknowledges.
use limnet.Base.{
  ℕ, ◌+◌, ◌*◌, ◌≤◌, ◌≡◌, refl, true, some, none, List, map, [], ◌∷◌, ◌++◌, length, arith,
}
use limnet.Base.Int.{pos}
use limnet.RingBuffer.Defs.{unallocated, ring_length}
use limnet.RingBuffer.Inv.{contents}
use limnet.RingBuffer.Fresh.{unallocated-IsValid}
use limnet.RingBuffer.Examples.{plain}
use limnet.Conn.Inbound.{Inbound}
use limnet.Conn.Inbound.Laws.{Holds}
use limnet.Conn.Host.{Host}
use limnet.Conn.Tcp.{TcpConn, State}
use limnet.Conn.Tcp.Calls.{CallLog}
use limnet.Conn.Tcp.Delivery.{IsOpen}
use limnet.Conn.Events.{handle_read}
use limnet.Conn.Events.Serve.{Served, handle_read-Served}
use limnet.Conn.Events.Rounds.{Rounds, stay, reads}
use limnet.Conn.Events.Arrival.{concat, Arrives, rounds-Arrives}
use limnet.Conn.Examples.{nothing_yet, Net, echo}
use limnet.Conn.Sample.{
  counted, count_frame, counted_un_packet, counted-IsProtocol, counted-Implements,
  count_frame-Frames,
}

abbrev acknowledge : Host
acknowledge = record echo {
  on_packet = λ p w. (6 ∷ [], record w { asked = w.asked ++ ((p, 6 ∷ []) ∷ []) });
}

abbrev ledger : CallLog acknowledge
ledger = record {
  calls = λ w. w.asked;
  on_packet_lem = λ p w. refl;
  read_lem = λ w. refl;
  write_lem = λ p w. refl;
  unix_close_lem = λ w. refl;
  epoll_mod_lem = λ e w. refl;
  epoll_del_lem = λ w. refl;
  forget_handler_lem = λ w. refl;
  on_close_lem = λ w. refl;
  put_ring_lem = λ b w. refl;
}

short : (p : List ℕ) (w : Net) → length (acknowledge.on_packet p w).0 ≤ 1
short p w = omega arith

abbrev silence : Inbound plain
silence = record {
  connected = true;
  inbound_buffer = some unallocated;
  buffer = [];
  byte_buffer = none;
}

silence-Holds : Holds silence unallocated
silence-Holds = record { held = refl; valid = unallocated-IsValid }

abbrev idle : TcpConn plain
idle = record {
  inp = silence;
  outbound_buffer = some unallocated;
  active_time = 0;
  id = pos 1;
  addr = [];
  ctx = none;
  status = pos 0;
  version = 0;
}

-- the frame of 5, 6, and the first byte of another
abbrev wire : List ℕ
wire = 2 ∷ 5 ∷ 6 ∷ 1 ∷ []

abbrev cable : Net
cable = record { taken = []; interest = some 3; asked = []; incoming = wire }

idle-IsOpen : IsOpen acknowledge (idle, cable) unallocated
idle-IsOpen = record {
  connected = refl;
  received = (unallocated, silence-Holds);
  held = refl;
  valid = unallocated-IsValid;
  watching = (3, refl, λ ne. absurd (ne nothing_yet));
}

all_bytes : length (contents unallocated ++ wire) ≡ 4
unfolding ring_length
all_bytes = refl

nothing_waits : length (contents unallocated) ≡ 0
unfolding ring_length
nothing_waits = refl

handle_read-Served_example :
    (s : State plain acknowledge) × (handle_read acknowledge
        (counted_un_packet plain)
        5
        (idle, cable)
      ≡ some s)
    × Served acknowledge ledger
        (counted_un_packet plain)
        counted-IsProtocol
        (counted-Implements plain)
        1
        short
        (length (contents unallocated) + length (contents unallocated ++ wire) * 1)
        (contents unallocated ++ wire)
        ([] ++ contents unallocated)
        []
        s
handle_read-Served_example =
    handle_read-Served acknowledge ledger (counted_un_packet plain) counted-IsProtocol
      (counted-Implements plain) 1 short 5 idle cable unallocated unallocated wire cable idle-IsOpen
      silence-Holds refl (omega arith) (omega (arith, all_bytes)) (omega arith) (omega arith)
      (omega (arith, all_bytes)) (omega (arith, all_bytes, nothing_waits))

first_read :
    (s : State plain acknowledge) × (handle_read acknowledge
        (counted_un_packet plain)
        5
        (idle, cable)
      ≡ some s)
    × Served acknowledge ledger
        (counted_un_packet plain)
        counted-IsProtocol
        (counted-Implements plain)
        1
        short
        (length (contents unallocated) + length (contents unallocated ++ wire) * 1)
        (contents unallocated ++ wire)
        ([] ++ contents unallocated)
        []
        s
first_read =
    handle_read-Served acknowledge ledger (counted_un_packet plain) counted-IsProtocol
      (counted-Implements plain) 1 short 5 idle cable unallocated unallocated wire cable idle-IsOpen
      silence-Holds refl (omega arith) (omega (arith, all_bytes)) (omega arith) (omega arith)
      (omega (arith, all_bytes)) (omega (arith, all_bytes, nothing_waits))

-- the state after the read
abbrev served : State plain acknowledge
served = first_read.0

run : Rounds acknowledge (counted_un_packet plain) 5 (idle, cable) wire served
run = reads wire wire cable stay refl refl (omega arith) (first_read.1) refl

incomplete : counted (1 ∷ []) ≡ none
unfolding counted
incomplete = refl

nothing_parsed : counted [] ≡ none
unfolding counted
nothing_parsed = refl

framed : wire ≡ concat (map count_frame ((5 ∷ 6 ∷ []) ∷ [])) ++ (1 ∷ [])
unfolding count_frame
framed = refl

rounds-Arrives_example :
    Arrives acknowledge ledger
      (counted_un_packet plain)
      counted-IsProtocol
      (counted-Implements plain)
      1
      short
      count_frame
      count_frame-Frames
      (length (contents unallocated) + 4 * 1)
      ((5 ∷ 6 ∷ []) ∷ [])
      (1 ∷ [])
      ([] ++ contents unallocated)
      []
      served
rounds-Arrives_example =
    rounds-Arrives acknowledge ledger (counted_un_packet plain) counted-IsProtocol
      (counted-Implements plain) 1 short count_frame count_frame-Frames 5 idle cable unallocated
      unallocated wire served ((5 ∷ 6 ∷ []) ∷ []) (1 ∷ []) idle-IsOpen silence-Holds nothing_yet
      nothing_parsed incomplete (omega arith) (omega arith) (omega arith) (omega arith)
      (omega (arith, nothing_waits)) framed run
