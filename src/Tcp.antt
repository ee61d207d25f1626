-- ===== src/Tcp.antt =====
-- src/net_ip.c: a connection of the TCP, and the comparison of its sequence numbers. The buffers are
-- the lists of the bytes in use, a held segment is `some`, and what is put on the wire is in `wire`.
pub mod Receive
pub mod Streams
pub mod Reassembly
pub mod Rounds
pub mod Enough
pub mod Arrivals
pub mod Delivery
pub mod Served
pub mod Spin
pub mod Output
pub mod Acks
pub mod Sender
pub mod Sending
pub mod Timeouts
pub mod Kept
pub mod Reading
pub mod Sessions
pub mod Transfer
pub mod Stale
pub mod Input
pub mod States
pub mod Arrows
pub mod Table
pub mod Lookup
pub mod Tests
use rvos.Common.{ℕ, ◌+◌, ◌-◌, ◌*◌, ◌%◌, ◌^◌, Bool, List, Option, leb, ltb, ◌&&◌, ◌||◌, ◌==◌}

-- uint32 arithmetic, and the tests on the difference read as signed.
abbrev pub add32 : ℕ → ℕ → ℕ
add32 a b = (a + b) % 2 ^ 32

abbrev pub sub32 : ℕ → ℕ → ℕ
sub32 a b = (a + 2 ^ 32 - b) % 2 ^ 32

unfoldable pub seq_lt : ℕ → ℕ → Bool
seq_lt a b = leb (2 ^ 31) (sub32 a b)

unfoldable pub seq_gt : ℕ → ℕ → Bool
seq_gt a b = ltb 0 (sub32 a b) && ltb (sub32 a b) (2 ^ 31)

unfoldable pub seq_le : ℕ → ℕ → Bool
seq_le a b = (sub32 a b == 0) || leb (2 ^ 31) (sub32 a b)

pub data ConnState : Type 0 where
  closed : ConnState
  listen : ConnState
  syn_sent : ConnState
  syn_rcvd : ConnState
  established : ConnState
  fin_wait_1 : ConnState
  fin_wait_2 : ConnState
  closing : ConnState
  time_wait : ConnState
  close_wait : ConnState
  last_ack : ConnState

-- RXQ, SNDBUF, MSS, NOOO, OOOSEG
abbrev pub rx_queue : ℕ
rx_queue = 2048

abbrev pub snd_max : ℕ
snd_max = 2048

abbrev pub max_seg : ℕ
max_seg = 1024

abbrev pub ooo_seg : ℕ
ooo_seg = 1200

-- A segment held aside: its sequence number and its bytes.
abbrev pub Held : Type 0
Held = ℕ × List ℕ

-- A segment that is put on the wire, as the arguments of tcp_build say it.
pub record SegmentOut : Type 0 where
  pub seq : ℕ
  pub ack : ℕ
  pub flags : ℕ
  pub wnd : ℕ
  pub bytes : List ℕ
  pub mss : ℕ

-- struct tcb, less who waits for it. `refs` are the tasks that hold it open. `srtt` is `none` before it is measured.
pub record Conn : Type 0 where
  pub state : ConnState
  pub raddr : List ℕ
  pub lport : ℕ
  pub rport : ℕ
  pub iss : ℕ
  pub snd_una : ℕ
  pub snd_nxt : ℕ
  pub snd_base : ℕ
  pub snd_wnd : ℕ
  pub snd_buf : List ℕ
  pub snd_fin : Bool
  pub fin_sent : Bool
  pub peer_mss : ℕ
  pub cwnd : ℕ
  pub ssthresh : ℕ
  pub rto : ℕ
  pub srtt : Option ℕ
  pub rttvar : ℕ
  pub rtt_seq : ℕ
  pub rtt_at : ℕ
  pub rtt_timing : Bool
  pub rt_tries : ℕ
  pub rt_at : ℕ
  pub rt_pending : ℕ
  pub dupacks : ℕ
  pub irs : ℕ
  pub rcv_nxt : ℕ
  pub rxq : List ℕ
  pub ooo : List (Option Held)
  pub tw_at : ℕ
  pub refs : List (Option ℕ)
  pub intr_task : ℕ
  pub intr_fired : Bool
  pub killed : List ℕ
  pub wire : List SegmentOut
