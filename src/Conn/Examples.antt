-- ===== src/Conn/Examples.antt =====
-- A connection on a small system whose write(2) takes two bytes at a time and whose user echoes.
use limnet.Base.{
  ℕ, ◌+◌, ◌*◌, ◌<◌, ◌≤◌, ◌≡◌, ◌↔◌, refl, sym, ap, ◌∙◌, min, Option, true, false, none, some, List,
  [], ◌∷◌, ◌++◌, length, take, arith, ◌-◌,
}
use limnet.Base.Int.{pos}
use limnet.RingBuffer.Defs.{ring_length, unallocated}
use limnet.RingBuffer.Fresh.{unallocated-IsValid}
use limnet.RingBuffer.Inv.{contents}
use limnet.RingBuffer.Examples.{bent, bent-IsValid, plain}
use limnet.Conn.Inbound.{Inbound, amount, read_n, shift_n}
use limnet.Conn.Inbound.Laws.{Holds, stream, Keeps, Shifts, read_n_lem, shift_n_lem}
use limnet.Conn.Host.{Host, WriteOutcome, wrote, write_again, write_failed, got}
use limnet.Conn.Tcp.{TcpConn, State, handle_close, write, handle_write}
use limnet.Conn.Tcp.Delivery.{IsOpen, IsClosed, Delivers, handle_close_lem}
use limnet.Conn.Tcp.Sending.{write-Delivers}
use limnet.Conn.Tcp.Draining.{handle_write-Delivers}
use limnet.Conn.Events.Idle.{
  seconds, close_timeout_conn, close_idle, fire_after, close_timeout_conn_lem,
}

pub record Net : Type 0 where
  pub taken : List ℕ
  pub interest : Option ℕ
  pub asked : List (List ℕ × List ℕ)
  pub incoming : List ℕ

count : WriteOutcome → ℕ
count (wrote n) = n
count write_again = 0
count write_failed = 0

abbrev pub send : List ℕ → Net → WriteOutcome × Net
send p w = let n = min 2 (length p) in (wrote n, record w { taken = w.taken ++ take n p })

pub send_lem :
    (p : List ℕ) (w : Net) (n : ℕ) (v : Net)
    → send p w ≡ (wrote n, v)
    → (n ≤ length p) × (v.taken ≡ w.taken ++ take n p) × (v.interest ≡ w.interest)
unfolding count
send_lem p w n v e =
    let same : min 2 (length p) ≡ n = ap (λ t. count t.0) e in
    let after = ap (λ t. t.1) e in
    (
      omega arith,
      sym (ap (λ t. t.taken) after) ∙ ap (λ t. w.taken ++ take t p) same,
      sym (ap (λ t. t.interest) after),
    )

pub never_again :
    (p : List ℕ) (w v : Net)
    → send p w ≡ (write_again, v)
    → (v.taken ≡ w.taken) × (v.interest ≡ w.interest)
never_again p w v e = absurd (let d = ap (λ t. t.0) e in cc)

pub never_failed : (p : List ℕ) (w v : Net) → send p w ≡ (write_failed, v) → v.taken ≡ w.taken
never_failed p w v e = absurd (let d = ap (λ t. t.0) e in cc)

pub nothing_yet : contents unallocated ≡ []
unfolding ring_length
nothing_yet = refl

abbrev pub echo : Host
echo = record {
  World = Net;
  sent = λ w. w.taken;
  watched = λ w. w.interest;
  unix_read = λ w. (got w.incoming, w);
  unix_write = send;
  unix_close = λ w. w;
  epoll_mod = λ e w. (false, record w { interest = some e });
  epoll_del = λ w. w;
  forget_handler = λ w. w;
  on_close = λ w. w;
  on_packet = λ p w. (p, w);
  put_ring = λ b w. w;
  get_ring = λ w. (unallocated, w);
  after_func = λ d w. w;
  now = λ w. 0;
  get_ring_lem = λ w. (unallocated-IsValid, nothing_yet, refl);
  sent-after_func = λ d w. refl;
  wrote_lem = send_lem;
  again_lem = never_again;
  failed_lem = never_failed;
  read_lem = λ w. (refl, refl);
  on_packet_lem = λ p w. (refl, refl);
  sent-epoll_mod = λ e w. refl;
  watched-epoll_mod = λ e x w h. (refl, refl);
  sent-epoll_del = λ w. refl;
  sent-forget_handler = λ w. refl;
  sent-on_close = λ w. refl;
  sent-unix_close = λ w. refl;
  sent-put_ring = λ b w. refl;
}

-- 7, 8, 9 are in the ring buffer and 4 was read last
abbrev pub received : Inbound plain
received = record {
  connected = true;
  inbound_buffer = some bent;
  buffer = 4 ∷ [];
  byte_buffer = none;
}

pub received-Holds : Holds received bent
received-Holds = record { held = refl; valid = bent-IsValid }

-- 7, 8, 9 wait to be sent too
abbrev pub busy : TcpConn plain
busy = record {
  inp = received;
  outbound_buffer = some bent;
  active_time = 0;
  id = pos 1;
  addr = [];
  ctx = none;
  status = pos 0;
  version = 0;
}

abbrev pub net : Net
net = record { taken = 1 ∷ []; interest = some 7; asked = []; incoming = 5 ∷ 6 ∷ [] }

pub busy-IsOpen : IsOpen echo (busy, net) bent
busy-IsOpen = record {
  connected = refl;
  received = (bent, received-Holds);
  held = refl;
  valid = bent-IsValid;
  watching = (7, refl, λ _. refl);
}

read_n_lem_example :
    (out : Inbound plain) × (read_n plain (pos 2) received
      ≡ some (
        amount (length (stream bent received)) (pos 2),
        take (amount (length (stream bent received)) (pos 2)) (stream bent received),
        out,
      ))
    × Keeps received out
read_n_lem_example = read_n_lem plain received bent received-Holds (pos 2)

shift_n_lem_example :
    (out : Inbound plain) × (shift_n plain (pos 4) received
      ≡ some (amount (length (stream bent received)) (pos 4), out))
    × Shifts plain received bent received-Holds (amount (length (stream bent received)) (pos 4)) out
shift_n_lem_example = shift_n_lem plain received bent received-Holds (pos 4)

handle_close_lem_example :
    (s : State plain echo) × (handle_close echo (busy, net) ≡ some s)
    × IsClosed echo s
    × (s.1 ≡ net)
    × (handle_close echo s ≡ some s)
    × (s.1.taken ≡ 1 ∷ [])
handle_close_lem_example = handle_close_lem echo busy net bent bent refl received-Holds refl

write-Delivers_example :
    (s : State plain echo) × (write echo (2 ∷ 3 ∷ []) (busy, net) ≡ some s)
    × Delivers echo received 4
        (length (contents bent) + 2)
        (((1 ∷ []) ++ contents bent) ++ (2 ∷ 3 ∷ []))
        s
write-Delivers_example = write-Delivers echo (2 ∷ 3 ∷ []) busy net bent busy-IsOpen (omega arith)

handle_write-Delivers_example :
    (s : State plain echo) × (handle_write echo (busy, net) ≡ some s)
    × Delivers echo received 4 (length (contents bent)) ((1 ∷ []) ++ contents bent) s
handle_write-Delivers_example = handle_write-Delivers echo busy net bent busy-IsOpen

reply_length : length (contents bent ++ (5 ∷ 6 ∷ [])) ≡ 5
unfolding ring_length
reply_length = refl

-- active at 1.7 s, allowed 2 s, fires at 2 s
close_timeout_conn_lem_example :
    let act : ℕ = 1700000000 in
    let idle : ℕ = 2000000000 in
    let now : ℕ = 2000000000 in
    ((close_timeout_conn idle (seconds act) now true ≡ close_idle)
      ↔ (seconds act * 1000000000 + idle ≤ now))
    × (act + idle ≤ now → close_timeout_conn idle (seconds act) now true ≡ close_idle)
    × (close_timeout_conn idle (seconds act) now true ≡ close_idle → act + idle < now + 1000000000)
    × ((d : ℕ)
        → close_timeout_conn idle (seconds act) now true ≡ fire_after d
        → (0 < d)
          × (now + d ≡ seconds act * 1000000000 + idle)
          × ((later : ℕ)
              → seconds later ≡ seconds act
              → close_timeout_conn idle (seconds later) (now + d) true ≡ close_idle)
          × ((later : ℕ)
              → seconds act < seconds later
              → close_timeout_conn idle (seconds later) (now + d) true
                ≡ fire_after ((seconds later - seconds act) * 1000000000)))
close_timeout_conn_lem_example =
    close_timeout_conn_lem 2000000000 1700000000 2000000000 (omega arith)
