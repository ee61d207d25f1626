-- ===== src/Tcp/Stale.antt =====
-- src/net_ip.c: an acknowledgement that comes after a timeout, for bytes that were sent before it.
use rvos.Common.{
  if_cases, ℕ, zero, suc, ◌+◌, ◌-◌, ◌*◌, ◌^◌, ◌≤◌, ◌<◌, min, ◌≡◌, refl, ap, ◌∙◌, true, false, ◌||◌,
  List, length, take, drop, leb, ◌==◌, arith,
}
use rvos.Tcp.{ConnState, Conn, add32, sub32, seq_gt, max_seg}
use rvos.Tcp.Output.{
  Env, seg_xmit, timer_start, start_timing, send_loop, send_fin, send_all, output_in, tcp_output,
  rto_max,
}
use rvos.Tcp.Acks.{halved, ack_input, retransmit}

-- At most `n` numbers past where `c` was, over the same buffer.
record Past (n : ℕ) (c c1 : Conn) : Type 0 where
  step : ℕ
  few : step ≤ n
  next : c1.snd_nxt ≡ add32 c.snd_nxt step
  buffer : c1.snd_buf ≡ c.snd_buf
  base : c1.snd_base ≡ c.snd_base

seg_xmit-kept :
    (env : Env) (c : Conn) (flags seq : ℕ) (bytes : List ℕ)
    → let c1 = (seg_xmit env c flags seq bytes).1 in
      (c1.snd_nxt ≡ c.snd_nxt) × (c1.snd_buf ≡ c.snd_buf) × (c1.snd_base ≡ c.snd_base)
unfolding seg_xmit
seg_xmit-kept env c flags seq bytes = ground arith

timer_start-kept :
    (env : Env) (c : Conn)
    → let c1 = timer_start env c in
      (c1.snd_nxt ≡ c.snd_nxt) × (c1.snd_buf ≡ c.snd_buf) × (c1.snd_base ≡ c.snd_base)
unfolding timer_start
timer_start-kept env c = ground arith

start_timing-kept :
    (env : Env) (n : ℕ) (c : Conn)
    → let c1 = start_timing env n c in
      (c1.snd_nxt ≡ c.snd_nxt) × (c1.snd_buf ≡ c.snd_buf) × (c1.snd_base ≡ c.snd_base)
unfolding start_timing
start_timing-kept env n c = ground arith

send_loop-Past :
    (rounds : ℕ) (env : Env) (c : Conn) (usable : ℕ)
    → c.snd_nxt < 2 ^ 32
    → Past usable c (send_loop rounds env c usable)
unfolding send_loop
send_loop-Past zero env c usable word = record {
  step = 0;
  few = omega arith;
  next = omega arith;
  buffer = refl;
  base = refl;
}
send_loop-Past (suc rounds) env c usable word =
    let off = sub32 c.snd_nxt c.snd_base in
    let n = min (min (length c.snd_buf - off) c.peer_mss) usable in
    let r = seg_xmit env c 24 c.snd_nxt (take n (drop off c.snd_buf)) in
    let k1 = seg_xmit-kept env c 24 c.snd_nxt (take n (drop off c.snd_buf)) in
    let timed = start_timing env n r.1 in
    let k2 = start_timing-kept env n r.1 in
    let moved : Conn = record timed { snd_nxt = add32 timed.snd_nxt n } in
    let k3 = timer_start-kept env moved in
    let c2 = timer_start env moved in
    if_cases (Past usable c) (leb (2 ^ 31) off || leb (length c.snd_buf) off || (usable == 0)) _ _
      (λ e. record { step = 0; few = omega arith; next = omega arith; buffer = refl; base = refl })
      (λ e.
        if_cases (Past usable c) r.0 _ _
          (λ f.
            let p = send_loop-Past rounds env c2 (usable - n) (omega (arith, k3.0)) in
            record {
              step = n + p.step;
              few = omega (arith, p.few);
              next = omega (arith, p.next, k3.0, k2.0, k1.0);
              buffer = p.buffer ∙ k3.1 ∙ k2.1 ∙ k1.1;
              base = p.base ∙ k3.2 ∙ k2.2 ∙ k1.2;
            })
          (λ f. record {
            step = 0;
            few = omega arith;
            next = omega (arith, k1.0);
            buffer = k1.1;
            base = k1.2;
          }))

send_fin-early :
    (env : Env) (c : Conn)
    → (c.snd_nxt == add32 c.snd_base (length c.snd_buf)) ≡ false
    → (send_fin env c).snd_nxt ≡ c.snd_nxt
unfolding send_fin
send_fin-early env c e = ground arith

-- A timeout sends a segment at most.
retransmit-next :
    (env : Env) (c : Conn)
    → c.state ≡ ConnState.established
    → c.snd_una < 2 ^ 32
    → c.snd_base ≡ c.snd_una
    → max_seg < length c.snd_buf
    → length c.snd_buf < 2 ^ 31
    → (step : ℕ) × (step ≤ max_seg) × ((retransmit env c).snd_nxt ≡ add32 c.snd_una step)
unfolding retransmit tcp_output
retransmit-next env c up word at_una long sane =
    let back : Conn = record c {
      ssthresh = halved c;
      cwnd = max_seg;
      rto = min (c.rto * 2) rto_max;
      rtt_timing = false;
      snd_nxt = c.snd_una;
      fin_sent = false;
      rt_at = 0;
    } in
    let usable = min c.snd_wnd max_seg - sub32 c.snd_una c.snd_una in
    let looped = send_loop (suc (length c.snd_buf)) env back usable in
    let p = send_loop-Past (suc (length c.snd_buf)) env back usable word in
    let size : length looped.snd_buf ≡ length c.snd_buf = ap length p.buffer in
    let few = p.few in
    let short : (looped.snd_nxt == add32 looped.snd_base (length looped.snd_buf)) ≡ false =
      ground (arith, p.next, p.base, size, at_una) in
    let all : (send_all env back).snd_nxt ≡ looped.snd_nxt =
      unfold send_all in send_fin-early env looped short in
    let out : (output_in c.state env back).snd_nxt ≡ looped.snd_nxt =
      ap (λ state. (output_in state env back).snd_nxt) up ∙ all in
    (
      p.step,
      omega (arith, p.few),
      if_cases (λ (c1 : Conn). c1.snd_nxt ≡ add32 c.snd_una p.step)
          ((output_in c.state env back).rt_at == 0) _ _ (λ e. out ∙ p.next) (λ e. out ∙ p.next),
    )

-- After a timeout of an established connection whose buffer begins at the oldest byte that is not
-- acknowledged and holds more than a segment, an acknowledgement of more than 1024 bytes from there on
-- is thrown away: it changes nothing, though the bytes were sent before.
pub retransmit-stale_ack :
    (env : Env) (c : Conn) (ack : ℕ)
    → c.state ≡ ConnState.established
    → c.snd_una < 2 ^ 32
    → c.snd_base ≡ c.snd_una
    → max_seg < length c.snd_buf
    → length c.snd_buf < 2 ^ 31
    → ack < 2 ^ 32
    → max_seg < sub32 ack c.snd_una
    → sub32 ack c.snd_una < 2 ^ 31
    → ack_input env (retransmit env c) ack ≡ retransmit env c
unfolding ack_input
retransmit-stale_ack env c ack up word at_una long sane ack_word high near =
    let r = retransmit-next env c up word at_una long sane in
    let ahead : seq_gt ack (retransmit env c).snd_nxt ≡ true =
      unfold seq_gt in ground (arith, r.1, r.2) in
    if_cases (λ (c1 : Conn). c1 ≡ retransmit env c) (seq_gt ack (retransmit env c).snd_nxt) _ _
      (λ e. refl) (λ e. absurd (cc))
