-- ===== src/Tcp/Sending.antt =====
-- src/net_ip.c: the sender of a connection under tcp_output, tcp_write and ack_input.
use rvos.Common.{
  if_cases, ℕ, ◌+◌, ◌-◌, ◌^◌, ◌≤◌, ◌<◌, min, ◌≡◌, refl, ap, ◌∙◌, sym, subst, ◌&&◌, not, List, [],
  ◌++◌, length, take, drop, ◌==◌, arith, length-append, length-take,
}
use rvos.Tcp.{ConnState, Conn, sub32, seq_le, seq_gt, snd_max}
use rvos.Tcp.Streams.{slice, slice_add, slice_eq, take-slice, drop-slice}
use rvos.Tcp.Enough.{length-drop}
use rvos.Tcp.Output.{Env, send_all, output_in, tcp_output, send_ack, tcp_write, rtt_update}
use rvos.Tcp.Acks.{duplicate, measure, drop_acked, advance, ack_input}
use rvos.Tcp.Sender.{
  Sends, Carries-later, resent, seg_xmit-Sends, send_loop-Sends, send_fin-Sends, send_syn-Sends,
}

module _ (stream : ℕ → ℕ) (low : ℕ) where
  send_all-Sends :
      (env : Env) (base top : ℕ) (c : Conn)
      → Sends stream low base top c
      → Sends stream low base top (send_all env c)
  unfolding send_all
  send_all-Sends env base top c s =
      send_fin-Sends stream low env base top _ (send_loop-Sends stream low _ env base top c _ s)

  output_in-Sends :
      (state : ConnState) (env : Env) (base top : ℕ) (c : Conn)
      → Sends stream low base top c
      → Sends stream low base top (output_in state env c)
  output_in-Sends ConnState.syn_sent env base top c s = send_syn-Sends stream low env base top _ c s
  output_in-Sends ConnState.syn_rcvd env base top c s = send_syn-Sends stream low env base top _ c s
  output_in-Sends ConnState.closed env base top c s = s
  output_in-Sends ConnState.listen env base top c s = s
  output_in-Sends ConnState.time_wait env base top c s = s
  output_in-Sends ConnState.established env base top c s = send_all-Sends env base top c s
  output_in-Sends ConnState.fin_wait_1 env base top c s = send_all-Sends env base top c s
  output_in-Sends ConnState.fin_wait_2 env base top c s = send_all-Sends env base top c s
  output_in-Sends ConnState.closing env base top c s = send_all-Sends env base top c s
  output_in-Sends ConnState.close_wait env base top c s = send_all-Sends env base top c s
  output_in-Sends ConnState.last_ack env base top c s = send_all-Sends env base top c s

  pub tcp_output-Sends :
      (env : Env) (base top : ℕ) (c : Conn)
      → Sends stream low base top c
      → Sends stream low base top (tcp_output env c)
  unfolding tcp_output
  tcp_output-Sends env base top c s = output_in-Sends c.state env base top c s

  pub send_ack-Sends :
      (env : Env) (base top : ℕ) (c : Conn)
      → Sends stream low base top c
      → Sends stream low base top (send_ack env c)
  unfolding send_ack
  send_ack-Sends env base top c s =
      seg_xmit-Sends stream low env base top c _ c.snd_nxt [] s (λ some_bytes. absurd (omega arith))

  -- What a program writes is put at the end of the buffer, as far as there is room.
  pub tcp_write-Sends :
      (env : Env) (base top : ℕ) (c : Conn) (bytes : List ℕ)
      → Sends stream low base top c
      → bytes ≡ slice stream top (length bytes)
      → let r = tcp_write env c bytes in Sends stream low base (top + r.0) r.1
  unfolding tcp_write
  tcp_write-Sends env base top c bytes s here =
      let n = min (length bytes) (snd_max - length c.snd_buf) in
      let k = length c.snd_buf in
      let part = take n bytes in
      let size : length part ≡ n = omega (arith, length-take n bytes) in
      let joined : length (c.snd_buf ++ part) ≡ k + n =
        omega (arith, length-append c.snd_buf part, size) in
      let fresh : part ≡ slice stream (base + k) n =
        ap (take n) here
        ∙ take-slice stream top (length bytes) n (omega arith)
        ∙ slice_eq stream top (base + k) n n (sym s.end) refl in
      let longer : Conn = record c { snd_buf = c.snd_buf ++ part } in
      let s1 : Sends stream low base (top + n) longer = record {
        start = s.start;
        buffer =
            ap (λ l. l ++ part) s.buffer
            ∙ ap (λ l. slice stream base k ++ l) fresh
            ∙ slice_add stream base k n
            ∙ ap (slice stream base) (sym joined);
        from = s.from;
        end = omega (arith, joined, s.end);
        next = s.next;
        una = s.una;
        sent = Carries-later stream low top (top + n) c.wire (omega arith) s.sent;
      } in
      if_cases (λ (r : ℕ × Conn). Sends stream low base (top + r.0) r.1) (n == 0) _ _
        (λ e. subst (λ t. Sends stream low base t c) (omega arith) s)
        (λ e. tcp_output-Sends env base (top + n) longer s1)

  duplicate-Sends :
      (env : Env) (base top : ℕ) (c : Conn) (ack : ℕ)
      → Sends stream low base top c
      → Sends stream low base top (duplicate env c ack)
  unfolding duplicate
  duplicate-Sends env base top c ack s =
      if_cases (Sends stream low base top) ((ack == c.snd_una) && not (c.snd_una == c.snd_nxt)) _ _
        (λ e.
          if_cases (Sends stream low base top) (c.dupacks + 1 == 3) _ _
            (λ f.
              tcp_output-Sends env base top _
                (resent stream low base top c _ s refl refl refl s.una s.una))
            (λ f. resent stream low base top c _ s refl refl refl s.next s.una))
        (λ e. s)

  measure-Sends :
      (env : Env) (base top : ℕ) (c : Conn) (ack : ℕ)
      → Sends stream low base top c
      → Sends stream low base top (measure env c ack)
  unfolding measure rtt_update
  measure-Sends env base top c ack s =
      if_cases (Sends stream low base top) (c.rtt_timing && seq_le c.rtt_seq (sub32 ack 1)) _ _
        (λ e. resent stream low base top c _ s refl refl refl s.next s.una) (λ e. s)

  -- The acknowledged bytes leave the buffer, whose first place moves on over them.
  drop_acked-Sends :
      (base top : ℕ) (c : Conn) (ack : ℕ)
      → Sends stream low base top c
      → (base' : ℕ) × (base ≤ base') × Sends stream low base' top (drop_acked c ack)
  unfolding drop_acked
  drop_acked-Sends base top c ack s =
      let k = length c.snd_buf in
      let d = min (sub32 ack c.snd_base) k in
      let rest = drop d c.snd_buf in
      let size : length rest ≡ k - d = length-drop d c.snd_buf in
      let cut : rest ≡ slice stream (base + d) (length rest) =
        ap (drop d) s.buffer
        ∙ drop-slice stream base k d (omega arith)
        ∙ ap (slice stream (base + d)) (sym size) in
      if_cases (λ (c1 : Conn). (base' : ℕ) × (base ≤ base') × Sends stream low base' top c1)
        (seq_gt ack c.snd_base) _ _
        (λ e. (
          base + d,
          omega arith,
          record {
            start = omega (arith, s.start);
            buffer = cut;
            from = omega (arith, s.from);
            end = omega (arith, size, s.end);
            next = s.next;
            una = s.una;
            sent = s.sent;
          },
        ))
        (λ e. (base, omega arith, s))

  advance-Sends :
      (env : Env) (base top : ℕ) (c : Conn) (ack : ℕ)
      → ack < 2 ^ 32
      → Sends stream low base top c
      → (base' : ℕ) × (base ≤ base') × Sends stream low base' top (advance env c ack)
  unfolding advance
  advance-Sends env base top c ack word s =
      let c0 : Conn = record c { dupacks = 0 } in
      let s0 : Sends stream low base top c0 =
        resent stream low base top c c0 s refl refl refl s.next s.una in
      let c1 = measure env c0 ack in
      let d = drop_acked-Sends base top c1 ack (measure-Sends env base top c0 ack s0) in
      let s2 = d.2 in
      let c2 = drop_acked c1 ack in
      (
        d.0,
        d.1,
        if_cases (Sends stream low d.0 top) (ack == c2.snd_nxt) _ _
            (λ e. resent stream low d.0 top c2 _ s2 refl refl refl s2.next word)
            (λ e. resent stream low d.0 top c2 _ s2 refl refl refl s2.next word),
      )

  -- An acknowledgement of any number leaves the sender right.
  pub ack_input-Sends :
      (env : Env) (base top : ℕ) (c : Conn) (ack : ℕ)
      → ack < 2 ^ 32
      → Sends stream low base top c
      → (base' : ℕ) × (base ≤ base') × Sends stream low base' top (ack_input env c ack)
  unfolding ack_input
  ack_input-Sends env base top c ack word s =
      let P = λ (c1 : Conn). (base' : ℕ) × (base ≤ base') × Sends stream low base' top c1 in
      if_cases P (seq_gt ack c.snd_nxt) _ _ (λ e. (base, omega arith, s))
        (λ e.
          if_cases P (seq_le ack c.snd_una) _ _
            (λ f. (base, omega arith, duplicate-Sends env base top c ack s))
            (λ f. advance-Sends env base top c ack word s))
