-- ===== src/Tcp/Tests.antt =====
-- Two connections, three bytes on their way, and a queue that is full.
use rvos.Common.{
  ℕ, zero, suc, ◌+◌, ◌%◌, ◌≤◌, ◌≡◌, refl, inl, Bool, true, false, none, some, List, [], ◌∷◌, length,
  arith, All,
}
use rvos.Tcp.{ConnState, Conn, SegmentOut, seq_gt, seq_le, seq_lt}
use rvos.Tcp.Streams.{slice}
use rvos.Tcp.Receive.{rcv_data, take_in, rcv_accept, ooo_drain, drain_pass, drain_slot}
use rvos.Tcp.Rounds.{Receives}
use rvos.Tcp.Arrivals.{Arrives}
use rvos.Tcp.Served.{Served}
use rvos.Tcp.Delivery.{rcv_data-delivers}
use rvos.Tcp.Spin.{rcv_data-spins}
use rvos.Tcp.Output.{
  Env, fin, acks, seg_xmit, timer_start, start_timing, send_loop, send_fin, send_all, tcp_output,
  tcp_write,
}
use rvos.Tcp.Acks.{ack_input, retransmit, conn_take, conn_drop}
use rvos.Tcp.Input.{Incoming, fresh, conn_segment}
use rvos.Tcp.Sessions.{Link, writes, acknowledged, arrived, reads, Reach, here, next}
use rvos.Tcp.Transfer.{Starts, transfer_in_order}
use rvos.Tcp.Stale.{retransmit-stale_ack}
use rvos.Tcp.Arrows.{Follows, conn_segment-Follows}
use rvos.Tcp.Table.{Table, tcb_find}
use rvos.Tcp.Lookup.{Found, tcb_find-Found}

abbrev env : Env
env = record { now = 5000; known = true }

abbrev stream : ℕ → ℕ
stream p = p % 256

abbrev peer : List ℕ
peer = 10 ∷ 0 ∷ 2 ∷ 2 ∷ []

-- An established connection whose numbers start at 1001, on both sides.
abbrev up : Conn
up = record (fresh peer 40001 9998) {
  state = ConnState.established;
  snd_una = 1001;
  snd_nxt = 1001;
  snd_base = 1001;
  snd_wnd = 2048;
  rcv_nxt = 1001;
}

abbrev bytes : List ℕ
bytes = slice stream 1001 3

abbrev start : Link
start = record { sender = up; receiver = up; written = 1001; read = [] }

abbrev wrote : Link
wrote = record start {
  sender = (tcp_write env up bytes).1;
  written = 1001 + (tcp_write env up bytes).0;
}

abbrev received : Conn
received = record up { rxq = bytes; rcv_nxt = 1004 }

abbrev seg : SegmentOut
seg = record { seq = 1001; ack = 1001; flags = 24; wnd = 2048; bytes = bytes; mss = 0 }

abbrev came : Link
came = record wrote { receiver = received }

-- The three bytes are acknowledged, with a smaller window.
abbrev told : Link
told = record came { sender = ack_input env (record came.sender { snd_wnd = 1024 }) 1004 }

abbrev done : Link
done = record told { receiver = (conn_take env received 3).1; read = (conn_take env received 3).0 }

abbrev nobody : ℕ → Bool
nobody t = false

starts : Starts stream 1001 start
starts = record {
  base = refl;
  empty = refl;
  next = omega arith;
  una = omega arith;
  unsent = tt;
  expected = refl;
  unread = refl;
  unheld = (refl, (refl, (refl, tt)));
  quiet = refl;
  written = refl;
  unseen = refl;
}

run : Reach stream 1001 start done
unfolding tcp_write tcp_output send_all send_loop send_fin seg_xmit timer_start start_timing
    rcv_data take_in rcv_accept ooo_drain drain_pass drain_slot seq_le seq_lt seq_gt conn_take
    conn_drop
run =
    next
      (next
        (next (next here (writes start env bytes refl (omega arith)))
          (arrived wrote nobody true 2 0 seg received refl (omega arith) refl))
        (acknowledged came env 1004 1024 (omega arith)))
      (reads told env 3)

transfer_in_order_example :
    (done.read ≡ slice stream 1001 (length done.read)) × (1001 + length done.read ≤ done.written)
transfer_in_order_example = transfer_in_order stream 1001 start done starts run

-- The three bytes behind those that are missing are held.
abbrev waiting : Conn
waiting = record up { ooo = some (1004, slice stream 1004 3) ∷ none ∷ none ∷ [] }

waiting-Receives : Receives stream 1007 1001 waiting
waiting-Receives = record {
  queued = record {
    bytes = refl;
    next = refl;
    fits = omega arith;
    quiet = refl;
    below = omega arith;
    near = omega arith;
  };
  ahead = ((1004, refl, refl, omega arith, omega arith), (tt, (tt, tt)));
}

bytes-Arrives : Arrives stream 1007 1001 waiting 1001 1001 bytes
bytes-Arrives = record { number = refl; carried = refl; recent = omega arith; within = omega arith }

rcv_data-delivers_example :
    (c1 : Conn) × (rcv_data nobody true 2 waiting 1001 bytes ≡ some c1)
    × Receives stream 1007 1001 c1
    × (1001 ≤ 1001 + length waiting.rxq → 1001 + length bytes ≤ 1001 + length c1.rxq)
    × All (Served stream 1007 1001 (1001 + length c1.rxq)) waiting.ooo
rcv_data-delivers_example =
    rcv_data-delivers stream 1007 nobody true 2 1001 waiting 1001 1001 bytes waiting-Receives
      bytes-Arrives (omega arith) (omega arith)

zeros : ℕ → List ℕ
zeros zero = []
zeros (suc n) = 0 ∷ zeros n

abbrev brimming : Conn
brimming = record waiting { rxq = zeros 2045 }

rcv_data-spins_example : rcv_data nobody true 100 brimming 1001 bytes ≡ none
unfolding zeros seq_gt seq_le
rcv_data-spins_example =
    rcv_data-spins nobody true 100 brimming bytes (omega arith) refl (omega arith) refl
      (inl (omega arith, omega arith, refl, refl))

abbrev flying : Conn
flying = record up { snd_buf = zeros 2000; snd_nxt = 3001; rt_at = 4900 }

retransmit-stale_ack_example : ack_input env (retransmit env flying) 3001 ≡ retransmit env flying
unfolding zeros
retransmit-stale_ack_example =
    retransmit-stale_ack env flying 3001 refl (omega arith) refl (omega arith) (omega arith)
      (omega arith) (omega arith) (omega arith)

-- The last acknowledgement of the handshake, with bytes and a FIN.
abbrev hasty : Incoming
hasty = record {
  seq = 1001;
  ack = 1001;
  flags = fin + acks;
  wnd = 2048;
  options = [];
  bytes = bytes;
}

conn_segment-Follows_example :
    Follows ConnState.established (conn_segment env nobody true 4 up hasty)
conn_segment-Follows_example = conn_segment-Follows env nobody true 4 up hasty refl

abbrev tcbs : Table
tcbs = some (record up { state = ConnState.listen }) ∷ none ∷ some up ∷ []

tcb_find-Found_example : Found peer 9998 40001 0 none tcbs (tcb_find peer 9998 40001 tcbs)
tcb_find-Found_example = tcb_find-Found peer 9998 40001 tcbs
