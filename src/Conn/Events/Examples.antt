-- ===== src/Conn/Events/Examples.antt =====
-- A connection whose peer has gone: write(2) fails.
use limnet.Base.{
  ℕ, ◌≡◌, ◌≤◌, refl, true, false, none, some, List, [], ◌∷◌, ◌++◌, length, take, arith,
}
use limnet.RingBuffer.Defs.{unallocated}
use limnet.RingBuffer.Examples.{plain}
use limnet.Conn.Inbound.{Inbound, read_n, reset_buffer}
use limnet.Conn.Host.{Host, WriteOutcome, wrote, write_again, write_failed}
use limnet.Conn.Tcp.{TcpConn, State, let_go, disconnect}
use limnet.Conn.Events.{respond, handle_read}
use limnet.Conn.Events.Broken.{handle_read-panics}
use limnet.Conn.Examples.{Net, echo, busy, net}
use limnet.Conn.Ws.Examples.{read_first, read_first-panics}

abbrev refuse : List ℕ → Net → WriteOutcome × Net
refuse p w = (write_failed, w)

refuse_wrote :
    (p : List ℕ) (w : Net) (n : ℕ) (v : Net)
    → refuse p w ≡ (wrote n, v)
    → (n ≤ length p) × (v.taken ≡ w.taken ++ take n p) × (v.interest ≡ w.interest)
refuse_wrote p w n v e = absurd (cc)

refuse_again :
    (p : List ℕ) (w v : Net)
    → refuse p w ≡ (write_again, v)
    → (v.taken ≡ w.taken) × (v.interest ≡ w.interest)
refuse_again p w v e = absurd (cc)

refuse_failed : (p : List ℕ) (w v : Net) → refuse p w ≡ (write_failed, v) → v.taken ≡ w.taken
refuse_failed p w v e = cc

abbrev gone : Host
gone = record echo {
  unix_write = refuse;
  wrote_lem = refuse_wrote;
  again_lem = refuse_again;
  failed_lem = refuse_failed;
}

abbrev fresh_inp : Inbound plain
fresh_inp = record {
  connected = true;
  inbound_buffer = some unallocated;
  buffer = [];
  byte_buffer = none;
}

abbrev idle : TcpConn plain
idle = record busy { inp = fresh_inp; outbound_buffer = some unallocated }

closed_by_reply :
    respond gone read_first (5 ∷ 6 ∷ []) (record idle { inp = fresh_inp }, net)
    ≡ some (let_go (disconnect idle), net)
unfolding respond limnet.Conn.Tcp.write limnet.Conn.Tcp.after_write limnet.Conn.Tcp.handle_close
    limnet.Conn.Tcp.release limnet.Conn.Host.delete_fd_in_loop
closed_by_reply = refl

taken : read_first (record fresh_inp { buffer = 5 ∷ 6 ∷ [] }) ≡ some (some (5 ∷ 6 ∷ []), fresh_inp)
unfolding read_n reset_buffer limnet.Conn.Inbound.read_upto limnet.RingBuffer.Defs.reset
    limnet.RingBuffer.Defs.ring_length limnet.Base.Lists.slice
taken = refl

handle_read-panics_example : handle_read gone read_first 3 (idle, net) ≡ none
handle_read-panics_example =
    handle_read-panics gone read_first 1 idle net net (5 ∷ 6 ∷ []) (5 ∷ 6 ∷ []) fresh_inp
      (let_go (disconnect idle), net) read_first-panics refl (omega arith) taken closed_by_reply
      refl
