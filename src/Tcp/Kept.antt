-- ===== src/Tcp/Kept.antt =====
-- src/net_ip.c: what sending and acknowledgements leave alone in a connection.
use rvos.Common.{
  if_cases, ℕ, zero, suc, ◌+◌, ◌-◌, ◌^◌, ◌≡◌, Bool, true, ◌&&◌, ◌||◌, not, Option, List, [], length,
  drop, take, min, leb, ◌==◌,
}
use rvos.Tcp.{ConnState, Conn, Held, add32, sub32, seq_lt, seq_le, seq_gt}
use rvos.Tcp.Output.{
  Env, seg_xmit, timer_start, start_timing, send_loop, send_fin, send_syn, send_all, output_in,
  tcp_output, send_ack, rtt_update,
}
use rvos.Tcp.Acks.{duplicate, measure, drop_acked, advance, ack_input}

-- The state, and the parts of a connection for what it receives.
abbrev pub RcvSide : Type 0
RcvSide = ConnState × List ℕ × ℕ × ℕ × List (Option Held)

abbrev pub Kept : RcvSide → Conn → Type 0
Kept s c = (c.state, c.rxq, c.rcv_nxt, c.intr_task, c.ooo) ≡ s

seg_xmit-Kept :
    (s : RcvSide) (env : Env) (c : Conn) (flags seq : ℕ) (bytes : List ℕ)
    → Kept s c
    → Kept s (seg_xmit env c flags seq bytes).1
unfolding seg_xmit
seg_xmit-Kept s env c flags seq bytes h =
    if_cases (λ (t : Bool × Conn). Kept s t.1) env.known _ _ (λ e. h)
      (λ e. if_cases (Kept s) (length bytes == 0) _ _ (λ f. h) (λ f. h))

timer_start-Kept : (s : RcvSide) (env : Env) (c : Conn) → Kept s c → Kept s (timer_start env c)
unfolding timer_start
timer_start-Kept s env c h = if_cases (Kept s) (c.rt_at == 0) _ _ (λ e. h) (λ e. h)

start_timing-Kept :
    (s : RcvSide) (env : Env) (n : ℕ) (c : Conn) → Kept s c → Kept s (start_timing env n c)
unfolding start_timing
start_timing-Kept s env n c h = if_cases (Kept s) c.rtt_timing _ _ (λ e. h) (λ e. h)

send_loop-Kept :
    (s : RcvSide) (rounds : ℕ) (env : Env) (c : Conn) (usable : ℕ)
    → Kept s c
    → Kept s (send_loop rounds env c usable)
unfolding send_loop
send_loop-Kept s zero env c usable h = h
send_loop-Kept s (suc rounds) env c usable h =
    let off = sub32 c.snd_nxt c.snd_base in
    let n = min (min (length c.snd_buf - off) c.peer_mss) usable in
    let bytes = take n (drop off c.snd_buf) in
    let r = seg_xmit env c 24 c.snd_nxt bytes in
    let h1 = seg_xmit-Kept s env c 24 c.snd_nxt bytes h in
    let timed = start_timing env n r.1 in
    let moved : Conn = record timed { snd_nxt = add32 timed.snd_nxt n } in
    let h2 : Kept s moved = start_timing-Kept s env n r.1 h1 in
    if_cases (Kept s) (leb (2 ^ 31) off || leb (length c.snd_buf) off || (usable == 0)) _ _ (λ e. h)
      (λ e.
        if_cases (Kept s) r.0 _ _
          (λ f.
            send_loop-Kept s rounds env (timer_start env moved) (usable - n)
              (timer_start-Kept s env moved h2))
          (λ f. h1))

send_fin-Kept : (s : RcvSide) (env : Env) (c : Conn) → Kept s c → Kept s (send_fin env c)
unfolding send_fin
send_fin-Kept s env c h =
    let r = seg_xmit env c 17 c.snd_nxt [] in
    let h1 = seg_xmit-Kept s env c 17 c.snd_nxt [] h in
    let moved : Conn = record (r.1) { fin_sent = true; snd_nxt = add32 (r.1).snd_nxt 1 } in
    if_cases (Kept s)
      (c.snd_fin && not c.fin_sent && (c.snd_nxt == add32 c.snd_base (length c.snd_buf))) _ _
      (λ e. if_cases (Kept s) r.0 _ _ (λ f. timer_start-Kept s env moved h1) (λ f. h1)) (λ e. h)

send_syn-Kept :
    (s : RcvSide) (env : Env) (flags : ℕ) (c : Conn) → Kept s c → Kept s (send_syn env flags c)
unfolding send_syn
send_syn-Kept s env flags c h =
    let r = seg_xmit env c flags c.iss [] in
    let h1 = seg_xmit-Kept s env c flags c.iss [] h in
    let moved : Conn = record (r.1) { snd_nxt = (r.1).snd_base } in
    if_cases (Kept s) (seq_lt c.snd_nxt c.snd_base) _ _
      (λ e. if_cases (Kept s) r.0 _ _ (λ f. timer_start-Kept s env moved h1) (λ f. h1)) (λ e. h)

send_all-Kept : (s : RcvSide) (env : Env) (c : Conn) → Kept s c → Kept s (send_all env c)
unfolding send_all
send_all-Kept s env c h = send_fin-Kept s env _ (send_loop-Kept s _ env c _ h)

output_in-Kept :
    (t : ConnState) (s : RcvSide) (env : Env) (c : Conn) → Kept s c → Kept s (output_in t env c)
output_in-Kept ConnState.syn_sent s env c h = send_syn-Kept s env _ c h
output_in-Kept ConnState.syn_rcvd s env c h = send_syn-Kept s env _ c h
output_in-Kept ConnState.closed s env c h = h
output_in-Kept ConnState.listen s env c h = h
output_in-Kept ConnState.time_wait s env c h = h
output_in-Kept ConnState.established s env c h = send_all-Kept s env c h
output_in-Kept ConnState.fin_wait_1 s env c h = send_all-Kept s env c h
output_in-Kept ConnState.fin_wait_2 s env c h = send_all-Kept s env c h
output_in-Kept ConnState.closing s env c h = send_all-Kept s env c h
output_in-Kept ConnState.close_wait s env c h = send_all-Kept s env c h
output_in-Kept ConnState.last_ack s env c h = send_all-Kept s env c h

pub tcp_output-Kept : (s : RcvSide) (env : Env) (c : Conn) → Kept s c → Kept s (tcp_output env c)
unfolding tcp_output
tcp_output-Kept s env c h = output_in-Kept c.state s env c h

pub send_ack-Kept : (s : RcvSide) (env : Env) (c : Conn) → Kept s c → Kept s (send_ack env c)
unfolding send_ack
send_ack-Kept s env c h = seg_xmit-Kept s env c _ c.snd_nxt [] h

measure-Kept :
    (s : RcvSide) (env : Env) (c : Conn) (ack : ℕ) → Kept s c → Kept s (measure env c ack)
unfolding measure rtt_update
measure-Kept s env c ack h =
    if_cases (Kept s) (c.rtt_timing && seq_le c.rtt_seq (sub32 ack 1)) _ _ (λ e. h) (λ e. h)

drop_acked-Kept : (s : RcvSide) (c : Conn) (ack : ℕ) → Kept s c → Kept s (drop_acked c ack)
unfolding drop_acked
drop_acked-Kept s c ack h = if_cases (Kept s) (seq_gt ack c.snd_base) _ _ (λ e. h) (λ e. h)

advance-Kept :
    (s : RcvSide) (env : Env) (c : Conn) (ack : ℕ) → Kept s c → Kept s (advance env c ack)
unfolding advance
advance-Kept s env c ack h =
    let c0 : Conn = record c { dupacks = 0 } in
    let c1 = measure env c0 ack in
    let c2 = drop_acked c1 ack in
    let h2 = drop_acked-Kept s c1 ack (measure-Kept s env c0 ack h) in
    if_cases (Kept s) (ack == c2.snd_nxt) _ _ (λ e. h2) (λ e. h2)

duplicate-Kept :
    (s : RcvSide) (env : Env) (c : Conn) (ack : ℕ) → Kept s c → Kept s (duplicate env c ack)
unfolding duplicate
duplicate-Kept s env c ack h =
    if_cases (Kept s) ((ack == c.snd_una) && not (c.snd_una == c.snd_nxt)) _ _
      (λ e. if_cases (Kept s) (c.dupacks + 1 == 3) _ _ (λ f. tcp_output-Kept s env _ h) (λ f. h))
      (λ e. h)

pub ack_input-Kept :
    (s : RcvSide) (env : Env) (c : Conn) (ack : ℕ) → Kept s c → Kept s (ack_input env c ack)
unfolding ack_input
ack_input-Kept s env c ack h =
    if_cases (Kept s) (seq_gt ack c.snd_nxt) _ _ (λ e. h)
      (λ e.
        if_cases (Kept s) (seq_le ack c.snd_una) _ _ (λ f. duplicate-Kept s env c ack h)
          (λ f. advance-Kept s env c ack h))
