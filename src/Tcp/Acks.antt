-- ===== src/Tcp/Acks.antt =====
-- src/net_ip.c: ack_input, the timeout of a connection in net_timeout, and reads of its queue.
use rvos.Common.{
  ℕ, ◌+◌, ◌-◌, ◌*◌, ◌/◌, min, max, Bool, true, false, ◌&&◌, ◌||◌, not, Option, none, some, List, [],
  length, take, drop, ltb, leb, ◌==◌, if◌then◌else◌,
}
use rvos.Tcp.{ConnState, Conn, add32, sub32, seq_le, seq_gt, max_seg}
use rvos.Tcp.Output.{
  Env, syn, has, rcv_window, rto_max, rto_tries, timer_stop, tcp_output, send_ack, rtt_update,
}

abbrev pub all_acked : Conn → Bool
all_acked c = c.snd_una == c.snd_nxt

-- Half of what is in flight, but two segments at least.
abbrev pub halved : Conn → ℕ
halved c = max (sub32 c.snd_nxt c.snd_una / 2) (2 * max_seg)

-- An acknowledgement of nothing new: the third for the same byte sends from there again.
unfoldable pub duplicate : Env → Conn → ℕ → Conn
duplicate env c ack =
    let counted = record c { dupacks = c.dupacks + 1 } in
    let again = record counted {
      ssthresh = halved c;
      cwnd = halved c;
      snd_nxt = c.snd_una;
      fin_sent = false;
      rtt_timing = false;
    } in
    if (ack == c.snd_una) && not (c.snd_una == c.snd_nxt)
    then if c.dupacks + 1 == 3 then tcp_output env again else counted
    else c

unfoldable pub measure : Env → Conn → ℕ → Conn
measure env c ack =
    if c.rtt_timing && seq_le c.rtt_seq (sub32 ack 1)
    then record (rtt_update c (env.now - c.rtt_at)) { rtt_timing = false }
    else c

-- The acknowledged bytes go off the front of the buffer.
unfoldable pub drop_acked : Conn → ℕ → Conn
drop_acked c ack =
    let d = min (sub32 ack c.snd_base) (length c.snd_buf) in
    if seq_gt ack c.snd_base
    then record c { snd_buf = drop d c.snd_buf; snd_base = add32 c.snd_base d }
    else c

abbrev pub widened : Conn → ℕ
widened c =
    min
      (if ltb c.cwnd c.ssthresh
        then c.cwnd + max_seg
        else c.cwnd + max_seg * max_seg / (if c.cwnd == 0 then max_seg else c.cwnd))
      65535

unfoldable pub advance : Env → Conn → ℕ → Conn
advance env c0 ack =
    let c1 = measure env (record c0 { dupacks = 0 }) ack in
    let c2 = record (drop_acked c1 ack) { snd_una = ack } in
    let c = record c2 { cwnd = widened c2 } in
    if all_acked c then timer_stop c else record c { rt_at = env.now + c.rto; rt_tries = 0 }

unfoldable pub ack_input : Env → Conn → ℕ → Conn
ack_input env c ack =
    if seq_gt ack c.snd_nxt
    then c
    else if seq_le ack c.snd_una
    then duplicate env c ack
    else advance env c ack

abbrev pub forced : Env → Conn → Conn
forced env c = if c.rt_at == 0 then record c { rt_at = env.now + c.rto } else c

-- A control segment that could not be addressed is tried again.
unfoldable pub retry_pending : Env → Conn → Conn
retry_pending env c =
    let c1 = record c { rt_pending = 0; rt_at = 0 } in
    forced env (if has c.rt_pending syn then tcp_output env c1 else send_ack env c1)

-- What is in flight is sent again from the oldest byte, one segment at first.
unfoldable pub retransmit : Env → Conn → Conn
retransmit env c =
    let back = record c {
      ssthresh = halved c;
      cwnd = max_seg;
      rto = min (c.rto * 2) rto_max;
      rtt_timing = false;
      snd_nxt = c.snd_una;
      fin_sent = false;
      rt_at = 0;
    } in
    forced env (record (tcp_output env back) { rt_tries = c.rt_tries })

-- net_timeout for one connection: `none` where it is given up or forgotten.
unfoldable pub conn_timeout : Env → Conn → Option Conn
conn_timeout env c =
    let tried = record c { rt_tries = c.rt_tries + 1 } in
    if not (c.tw_at == 0) && leb c.tw_at env.now
    then none
    else if (c.rt_at == 0) || ltb env.now c.rt_at
    then some c
    else if ltb rto_tries tried.rt_tries
    then none
    else some (if not (c.rt_pending == 0) then retry_pending env tried else retransmit env tried)

abbrev pub is_established : ConnState → Bool
is_established ConnState.established = true
is_established _ = false

-- A window that was shut is opened by a read: the peer is told.
unfoldable pub conn_drop : Env → Conn → ℕ → Conn
conn_drop env c n =
    let c1 = record c { rxq = drop n c.rxq } in
    if n == 0
    then c
    else if (rcv_window c == 0) && is_established c.state
    then send_ack env c1
    else c1

unfoldable pub conn_take : Env → Conn → ℕ → List ℕ × Conn
conn_take env c want =
    let n = min (length c.rxq) want in if n == 0 then ([], c) else (take n c.rxq, conn_drop env c n)
