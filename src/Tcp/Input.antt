-- ===== src/Tcp/Input.antt =====
-- src/net_ip.c: tcp_segment for a connection that is not listening, tcp_connect, tcp_close, a SYN at
-- a listener, and the reset for a segment that belongs to none. Who waits is answered elsewhere.
use rvos.Common.{
  ℕ, zero, suc, ◌+◌, ◌-◌, ◌*◌, Bool, true, false, ◌&&◌, ◌||◌, not, Option, none, some, List, [],
  ◌∷◌, length, drop, get_or, ltb, leb, ◌==◌, ◌!=◌, if◌then◌else◌,
}
use rvos.Tcp.{ConnState, Conn, add32, seq_le, seq_gt, max_seg}
use rvos.Tcp.Receive.{rcv_data}
use rvos.Tcp.Output.{Env, fin, syn, rst, acks, has, rto_initial, tcp_output, send_ack}
use rvos.Tcp.Acks.{all_acked, ack_input}

-- What a segment that arrived says; `options` are the bytes behind the fixed header.
pub record Incoming : Type 0 where
  pub seq : ℕ
  pub ack : ℕ
  pub flags : ℕ
  pub wnd : ℕ
  pub options : List ℕ
  pub bytes : List ℕ

-- What becomes of a connection: it goes on, it is freed, it goes on and a reset is sent, or the
-- rounds of ooo_drain run out.
pub data Outcome : Type 0 where
  stays : Conn → Outcome
  gone : Outcome
  refused : Conn → Outcome
  endless : Outcome

-- The reset for a segment: its sequence number, what it acknowledges, and its flags.
unfoldable pub tcp_reset : ℕ → ℕ → ℕ → ℕ → ℕ × ℕ × ℕ
tcp_reset flags seq ack len =
    if has flags acks
    then (ack, 0, rst)
    else (0, add32 (add32 seq len) (if has flags syn || has flags fin then 1 else 0), rst + acks)

-- The size of the largest segment, where an option gives one in the range. By the bytes that are left.
unfoldable pub parse_options : ℕ → ℕ → List ℕ → ℕ
parse_options zero mss o = mss
parse_options (suc left) mss [] = mss
parse_options (suc left) mss (kind ∷ []) = mss
parse_options (suc left) mss (kind ∷ size ∷ o) =
    let m = get_or o 0 0 * 256 + get_or o 1 0 in
    let took = (kind == 2) && (size == 4) && leb 2 (length o) && leb 128 m && leb m 1460 in
    let padded = parse_options left mss (size ∷ o) in
    let after = parse_options left (if took then m else mss) (drop (size - 2) o) in
    if kind == 0 then mss else if kind == 1 then padded else if ltb size 2 then mss else after

unfoldable pub ref_count : List (Option ℕ) → ℕ
ref_count [] = 0
ref_count (none ∷ rs) = ref_count rs
ref_count (some task ∷ rs) = ref_count rs + 1

-- A task holds the connection open, where a place is free.
unfoldable pub ref_add : List (Option ℕ) → ℕ → Option (List (Option ℕ))
ref_add [] task = none
ref_add (none ∷ rs) task = some (some task ∷ rs)
ref_add (some t ∷ rs) task = elim (ref_add rs task) [
  | none ↦ none
  | some more ↦ some (some t ∷ more)
]

unfoldable pub ref_drop : List (Option ℕ) → ℕ → List (Option ℕ)
ref_drop [] task = []
ref_drop (none ∷ rs) task = none ∷ ref_drop rs task
ref_drop (some t ∷ rs) task = if t == task then none ∷ rs else some t ∷ ref_drop rs task

-- tcb_alloc, where there is memory and a slot.
abbrev pub fresh : List ℕ → ℕ → ℕ → Conn
fresh raddr lport rport = record {
  state = ConnState.closed;
  raddr = raddr;
  lport = lport;
  rport = rport;
  iss = 0;
  snd_una = 0;
  snd_nxt = 0;
  snd_base = 0;
  snd_wnd = 0;
  snd_buf = [];
  snd_fin = false;
  fin_sent = false;
  peer_mss = 536;
  cwnd = 2 * max_seg;
  ssthresh = 64 * 1024;
  rto = rto_initial;
  srtt = none;
  rttvar = 0;
  rtt_seq = 0;
  rtt_at = 0;
  rtt_timing = false;
  rt_tries = 0;
  rt_at = 0;
  rt_pending = 0;
  dupacks = 0;
  irs = 0;
  rcv_nxt = 0;
  rxq = [];
  ooo = none ∷ none ∷ none ∷ [];
  tw_at = 0;
  refs = none ∷ none ∷ none ∷ [];
  intr_task = 0;
  intr_fired = false;
  killed = [];
  wire = [];
}

-- `iss` is what gen_iss reads off the clock.
unfoldable pub tcp_connect : Env → ℕ → List ℕ → ℕ → ℕ → Conn
tcp_connect env iss ip lport port = tcp_output env (record (fresh ip lport port) {
  iss = iss;
  snd_una = iss;
  snd_nxt = iss;
  snd_base = add32 iss 1;
  state = ConnState.syn_sent;
})

-- The connection of a SYN that a listener takes.
unfoldable pub tcp_accept : Env → ℕ → List ℕ → ℕ → ℕ → Incoming → Conn
tcp_accept env iss ip lport port seg = tcp_output env (record (fresh ip lport port) {
  irs = seg.seq;
  rcv_nxt = add32 seg.seq 1;
  iss = iss;
  snd_una = iss;
  snd_nxt = iss;
  snd_base = add32 iss 1;
  snd_wnd = seg.wnd;
  state = ConnState.syn_rcvd;
  peer_mss = parse_options (length seg.options) 536 seg.options;
})

abbrev pub close_in : ConnState → Env → Conn → Option Conn
close_in ConnState.established env c =
    some (tcp_output env (record c { snd_fin = true; state = ConnState.fin_wait_1 }))
close_in ConnState.close_wait env c =
    some (tcp_output env (record c { snd_fin = true; state = ConnState.last_ack }))
close_in ConnState.listen env c = none
close_in ConnState.syn_sent env c = none
close_in _ env c = some c

unfoldable pub tcp_close : Env → Conn → Option Conn
tcp_close env c = close_in c.state env c

abbrev pub time_wait_ms : ℕ
time_wait_ms = 2000

unfoldable pub enter_time_wait : Env → Conn → Conn
enter_time_wait env c = record c {
  state = ConnState.time_wait;
  rt_at = 0;
  tw_at = env.now + time_wait_ms;
}

-- SYN-SENT
unfoldable pub opening_segment : Env → Conn → Incoming → Outcome
opening_segment env c seg =
    let c1 = record c {
      irs = seg.seq;
      rcv_nxt = add32 seg.seq 1;
      snd_wnd = seg.wnd;
      peer_mss = parse_options (length seg.options) c.peer_mss seg.options;
    } in
    let answered = record (ack_input env c1 seg.ack) { state = ConnState.established } in
    let both = record c1 { state = ConnState.syn_rcvd; snd_nxt = c1.iss } in
    if not (has seg.flags syn)
    then stays c
    else if has seg.flags acks
    then (if seq_le seg.ack c1.iss || seq_gt seg.ack c1.snd_nxt
        then refused c1
        else stays (send_ack env answered))
    else stays (tcp_output env both)

abbrev pub closed_half : Env → Conn → Outcome
closed_half env c = elim (if ref_count c.refs == 0 then tcp_close env c else some c) [
  | none ↦ gone
  | some c1 ↦ stays c1
]

-- The FIN, by the state that it finds.
abbrev pub fin_in : ConnState → Env → Conn → Outcome
fin_in ConnState.established env c =
    closed_half env (send_ack env (record c { state = ConnState.close_wait }))
fin_in ConnState.fin_wait_1 env c =
    let c1 = send_ack env c in
    stays (
      if c1.fin_sent && all_acked c1
      then enter_time_wait env c1
      else record c1 { state = ConnState.closing })
fin_in ConnState.fin_wait_2 env c = stays (enter_time_wait env (send_ack env c))
fin_in _ env c = stays c

unfoldable pub fin_segment : Env → Conn → Incoming → Outcome
fin_segment env c seg =
    let c1 = record c { rcv_nxt = add32 c.rcv_nxt 1 } in
    if has seg.flags fin && (add32 seg.seq (length seg.bytes) == c.rcv_nxt)
    then fin_in c1.state env c1
    else stays c

-- The bytes, and the FIN behind them.
unfoldable pub data_segment : Env → (ℕ → Bool) → Bool → ℕ → Conn → Incoming → Outcome
data_segment env alive room rounds c seg =
    let taken : Outcome = elim (rcv_data alive room rounds c seg.seq seg.bytes) [
      | none ↦ endless
      | some c1 ↦
          let c2 = send_ack env c1 in
          if (c.rcv_nxt == c2.rcv_nxt) && (seg.seq != c.rcv_nxt)
          then stays c2
          else fin_segment env c2 seg
    ] in
    if length seg.bytes == 0 then fin_segment env c seg else taken

-- From SYN-RCVD on, after the acknowledgement; the last argument takes the bytes and the FIN.
abbrev pub open_in : ConnState → Env → Conn → Incoming → (Conn → Outcome) → Outcome
open_in ConnState.syn_rcvd env c seg go =
    if has seg.flags acks then go (record c { state = ConnState.established }) else stays c
open_in ConnState.fin_wait_1 env c seg go =
    go (if c.fin_sent && all_acked c then record c { state = ConnState.fin_wait_2 } else c)
open_in ConnState.closing env c seg go =
    if c.fin_sent && all_acked c then stays (enter_time_wait env c) else go c
open_in ConnState.last_ack env c seg go = if c.fin_sent && all_acked c then gone else go c
open_in ConnState.time_wait env c seg go = stays (if has seg.flags fin then send_ack env c else c)
open_in _ env c seg go = go c

unfoldable pub open_segment : Env → (ℕ → Bool) → Bool → ℕ → Conn → Incoming → Outcome
open_segment env alive room rounds c seg =
    let c1 =
      if has seg.flags acks then ack_input env (record c { snd_wnd = seg.wnd }) seg.ack else c in
    open_in c1.state env c1 seg (λ k. data_segment env alive room rounds k seg)

abbrev pub is_opening : ConnState → Bool
is_opening ConnState.syn_sent = true
is_opening _ = false

-- tcp_segment from the reset on.
unfoldable pub conn_segment : Env → (ℕ → Bool) → Bool → ℕ → Conn → Incoming → Outcome
conn_segment env alive room rounds c seg =
    if has seg.flags rst
    then gone
    else if is_opening c.state
    then opening_segment env c seg
    else open_segment env alive room rounds c seg
