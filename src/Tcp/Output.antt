-- ===== src/Tcp/Output.antt =====
-- src/net_ip.c: segments out, the retransmission timer, the round-trip time and acknowledgements in.
-- A segment on `wire` is one that is handed to the link, the one that drop_next loses included.
use rvos.Common.{
  ℕ, zero, suc, ◌+◌, ◌-◌, ◌*◌, ◌/◌, ◌%◌, ◌^◌, min, max, Bool, true, false, ◌&&◌, ◌||◌, not, Option,
  none, some, List, [], ◌∷◌, ◌++◌, length, take, drop, leb, ◌==◌, if◌then◌else◌,
}
use rvos.Tcp.{ConnState, Conn, SegmentOut, add32, sub32, seq_lt, rx_queue, snd_max, max_seg}

-- The clock in milliseconds, and whether the hardware address of the next hop is known.
pub record Env : Type 0 where
  pub now : ℕ
  pub known : Bool

abbrev pub fin : ℕ
fin = 0x01

abbrev pub syn : ℕ
syn = 0x02

abbrev pub rst : ℕ
rst = 0x04

abbrev pub psh : ℕ
psh = 0x08

abbrev pub acks : ℕ
acks = 0x10

-- `flags & bit`, for one bit.
abbrev pub has : ℕ → ℕ → Bool
has flags bit = flags / bit % 2 == 1

abbrev pub rto_initial : ℕ
rto_initial = 300

abbrev pub rto_min : ℕ
rto_min = 200

abbrev pub rto_max : ℕ
rto_max = 8000

abbrev pub rto_tries : ℕ
rto_tries = 5

abbrev pub rcv_window : Conn → ℕ
rcv_window c = rx_queue - length c.rxq

-- Whether the segment was built, which takes the address of the next hop.
unfoldable pub seg_xmit : Env → Conn → ℕ → ℕ → List ℕ → Bool × Conn
seg_xmit env c flags seq bytes =
    let seg : SegmentOut = record {
      seq = seq;
      ack = c.rcv_nxt;
      flags = flags;
      wnd = rcv_window c;
      bytes = bytes;
      mss = if has flags syn then max_seg else 0;
    } in
    let later = record c { rt_pending = flags; rt_at = env.now + rto_initial } in
    if env.known
    then (true, record c { rt_pending = 0; wire = c.wire ++ (seg ∷ []) })
    else (false, if length bytes == 0 then later else c)

unfoldable pub timer_start : Env → Conn → Conn
timer_start env c = if c.rt_at == 0 then record c { rt_at = env.now + c.rto } else c

abbrev pub timer_stop : Conn → Conn
timer_stop c = record c { rt_at = 0; rt_tries = 0 }

-- One segment is timed, where none is.
unfoldable pub start_timing : Env → ℕ → Conn → Conn
start_timing env n c =
    if c.rtt_timing
    then c
    else record c { rtt_timing = true; rtt_seq = sub32 (add32 c.snd_nxt n) 1; rtt_at = env.now }

-- The loop of tcp_output. Each round sends a byte at least, so that it takes at most as many rounds
-- as there are bytes in the buffer, and one.
unfoldable pub send_loop : ℕ → Env → Conn → ℕ → Conn
send_loop zero env c usable = c
send_loop (suc rounds) env c usable =
    let off = sub32 c.snd_nxt c.snd_base in
    let n = min (min (length c.snd_buf - off) c.peer_mss) usable in
    let (sent, c1) = seg_xmit env c (acks + psh) c.snd_nxt (take n (drop off c.snd_buf)) in
    let timed = start_timing env n c1 in
    let c2 = timer_start env (record timed { snd_nxt = add32 timed.snd_nxt n }) in
    let rest = send_loop rounds env c2 (usable - n) in
    if leb (2 ^ 31) off || leb (length c.snd_buf) off || (usable == 0)
    then c
    else if sent
    then rest
    else c1

-- The FIN behind the last byte, once all of them are sent.
unfoldable pub send_fin : Env → Conn → Conn
send_fin env c =
    let (sent, c1) = seg_xmit env c (acks + fin) c.snd_nxt [] in
    let c2 = timer_start env (record c1 { fin_sent = true; snd_nxt = add32 c1.snd_nxt 1 }) in
    if c.snd_fin && not c.fin_sent && (c.snd_nxt == add32 c.snd_base (length c.snd_buf))
    then if sent then c2 else c1
    else c

-- A SYN that is not sent yet, with an ACK where it answers one.
unfoldable pub send_syn : Env → ℕ → Conn → Conn
send_syn env flags c =
    let (sent, c1) = seg_xmit env c flags c.iss [] in
    let c2 = timer_start env (record c1 { snd_nxt = c1.snd_base }) in
    if seq_lt c.snd_nxt c.snd_base then if sent then c2 else c1 else c

unfoldable pub send_all : Env → Conn → Conn
send_all env c =
    let flight = sub32 c.snd_nxt c.snd_una in
    let allowed = min c.snd_wnd c.cwnd in
    send_fin env (send_loop (suc (length c.snd_buf)) env c (allowed - flight))

abbrev pub output_in : ConnState → Env → Conn → Conn
output_in ConnState.syn_sent env c = send_syn env syn c
output_in ConnState.syn_rcvd env c = send_syn env (syn + acks) c
output_in ConnState.closed env c = c
output_in ConnState.listen env c = c
output_in ConnState.time_wait env c = c
output_in ConnState.established env c = send_all env c
output_in ConnState.fin_wait_1 env c = send_all env c
output_in ConnState.fin_wait_2 env c = send_all env c
output_in ConnState.closing env c = send_all env c
output_in ConnState.close_wait env c = send_all env c
output_in ConnState.last_ack env c = send_all env c

unfoldable pub tcp_output : Env → Conn → Conn
tcp_output env c = output_in c.state env c

unfoldable pub send_ack : Env → Conn → Conn
send_ack env c = (seg_xmit env c acks c.snd_nxt []).1

unfoldable pub tcp_write : Env → Conn → List ℕ → ℕ × Conn
tcp_write env c bytes =
    let n = min (length bytes) (snd_max - length c.snd_buf) in
    if n == 0
    then (0, c)
    else (n, tcp_output env (record c { snd_buf = c.snd_buf ++ take n bytes }))

abbrev pub clamp_rto : ℕ → ℕ
clamp_rto rto = min (max rto rto_min) rto_max

-- Jacobson's estimator: the smoothed time and its variation, with one more sample.
abbrev pub smoothed : Option ℕ → ℕ → ℕ → ℕ × ℕ
smoothed none var m = (m, m / 2)
smoothed (some mean) var m =
    let err = (m - mean) + (mean - m) in ((7 * mean + m) / 8, (3 * var + err) / 4)

unfoldable pub rtt_update : Conn → ℕ → Conn
rtt_update c sample =
    let (mean, var) = smoothed c.srtt c.rttvar (max sample 1) in
    record c { srtt = some mean; rttvar = var; rto = clamp_rto (mean + 4 * var) }
