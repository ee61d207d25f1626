-- ===== src/Tcp/Sender.antt =====
-- src/net_ip.c: the bytes of every segment that a connection sends are those of its stream.
use rvos.Common.{
  if_cases, ℕ, zero, suc, ◌+◌, ◌-◌, ◌%◌, ◌^◌, ◌≤◌, ◌<◌, min, ◌≡◌, refl, ap, ◌∙◌, sym, subst, Bool,
  true, ◌&&◌, ◌||◌, not, List, [], ◌∷◌, ◌++◌, length, take, drop, leb, ◌==◌, arith, All,
  length-take,
}
use rvos.Tcp.{Conn, SegmentOut, add32, sub32, seq_lt}
use rvos.Tcp.Streams.{slice, take-slice, drop-slice}
use rvos.Tcp.Enough.{length-drop}
use rvos.Tcp.Output.{Env, seg_xmit, timer_start, start_timing, send_loop, send_fin, send_syn}

All-snoc {ℓ κ} :
    {A : Type ℓ} (P : A → Type κ) (xs : List A) (x : A) → All P xs → P x → All P (xs ++ (x ∷ []))
All-snoc P [] x all h = (h, tt)
All-snoc P (y ∷ ys) x all h = (all.0, All-snoc P ys x all.1 h)

-- `low` is the place of the first byte.
module _ (stream : ℕ → ℕ) (low : ℕ) where
  -- The bytes of the segment stand in the stream where its number says, before `top`.
  abbrev pub Carries : ℕ → SegmentOut → Type 0
  Carries top seg =
      0 < length seg.bytes
      → (p : ℕ) × (seg.seq ≡ p % 2 ^ 32)
        × (seg.bytes ≡ slice stream p (length seg.bytes))
        × (low ≤ p)
        × (p + length seg.bytes ≤ top)

  pub Carries-later :
      (top top' : ℕ) (segs : List SegmentOut)
      → top ≤ top'
      → All (Carries top) segs
      → All (Carries top') segs
  Carries-later top top' [] le h = tt
  Carries-later top top' (seg ∷ segs) le h = (
    λ (some_bytes : 0 < length seg.bytes).
        let g = h.0 some_bytes in (g.0, g.1, g.2, g.3, omega (arith, g.4)),
    Carries-later top top' segs le h.1,
  )

  -- The buffer holds the bytes of the stream from `base` to `top`, and all that was sent is of it.
  pub record Sends (base top : ℕ) (c : Conn) : Type 0 where
    pub start : c.snd_base ≡ base % 2 ^ 32
    pub buffer : c.snd_buf ≡ slice stream base (length c.snd_buf)
    pub from : low ≤ base
    pub end : base + length c.snd_buf ≡ top
    pub next : c.snd_nxt < 2 ^ 32
    pub una : c.snd_una < 2 ^ 32
    pub sent : All (Carries top) c.wire

  -- The buffer and what was sent are as before.
  pub resent :
      (base top : ℕ) (c c1 : Conn)
      → Sends base top c
      → c1.snd_base ≡ c.snd_base
      → c1.snd_buf ≡ c.snd_buf
      → c1.wire ≡ c.wire
      → c1.snd_nxt < 2 ^ 32
      → c1.snd_una < 2 ^ 32
      → Sends base top c1
  resent base top c c1 s b q w n u = record {
    start = b ∙ s.start;
    buffer = subst (λ l. l ≡ slice stream base (length l)) (sym q) s.buffer;
    from = s.from;
    end = subst (λ l. base + length l ≡ top) (sym q) s.end;
    next = n;
    una = u;
    sent = subst (All (Carries top)) (sym w) s.sent;
  }

  pub seg_xmit-Sends :
      (env : Env) (base top : ℕ) (c : Conn) (flags seq : ℕ) (bytes : List ℕ)
      → Sends base top c
      → (0 < length bytes
          → (p : ℕ) × (seq ≡ p % 2 ^ 32)
            × (bytes ≡ slice stream p (length bytes))
            × (low ≤ p)
            × (p + length bytes ≤ top))
      → Sends base top (seg_xmit env c flags seq bytes).1
  unfolding seg_xmit
  seg_xmit-Sends env base top c flags seq bytes s here =
      if_cases (λ (t : Bool × Conn). Sends base top t.1) env.known _ _
        (λ e. record {
          start = s.start;
          buffer = s.buffer;
          from = s.from;
          end = s.end;
          next = s.next;
          una = s.una;
          sent = All-snoc (Carries top) c.wire _ s.sent here;
        })
        (λ e.
          if_cases (Sends base top) (length bytes == 0) _ _
            (λ f. resent base top c _ s refl refl refl s.next s.una) (λ f. s))

  pub timer_start-Sends :
      (env : Env) (base top : ℕ) (c : Conn) → Sends base top c → Sends base top (timer_start env c)
  unfolding timer_start
  timer_start-Sends env base top c s =
      if_cases (Sends base top) (c.rt_at == 0) _ _
        (λ e. resent base top c _ s refl refl refl s.next s.una) (λ e. s)

  pub start_timing-Sends :
      (env : Env) (base top n : ℕ) (c : Conn)
      → Sends base top c
      → Sends base top (start_timing env n c)
  unfolding start_timing
  start_timing-Sends env base top n c s =
      if_cases (Sends base top) c.rtt_timing _ _ (λ e. s)
        (λ e. resent base top c _ s refl refl refl s.next s.una)

  pub send_loop-Sends :
      (rounds : ℕ) (env : Env) (base top : ℕ) (c : Conn) (usable : ℕ)
      → Sends base top c
      → Sends base top (send_loop rounds env c usable)
  unfolding send_loop
  send_loop-Sends zero env base top c usable s = s
  send_loop-Sends (suc rounds) env base top c usable s =
      let off = sub32 c.snd_nxt c.snd_base in
      let n = min (min (length c.snd_buf - off) c.peer_mss) usable in
      let bytes = take n (drop off c.snd_buf) in
      if_cases (Sends base top) (leb (2 ^ 31) off || leb (length c.snd_buf) off || (usable == 0)) _
        _ (λ e. s)
        (λ e.
          let inside : off ≤ length c.snd_buf = ground arith in
          let place : c.snd_nxt ≡ (base + off) % 2 ^ 32 = omega (arith, s.start, s.next) in
          let size : length bytes ≡ n =
            omega (arith, length-take n (drop off c.snd_buf), length-drop off c.snd_buf) in
          let stretch : bytes ≡ slice stream (base + off) (length bytes) =
            ap (λ l. take n (drop off l)) s.buffer
            ∙ ap (take n) (drop-slice stream base (length c.snd_buf) off inside)
            ∙ take-slice stream (base + off) (length c.snd_buf - off) n (omega arith)
            ∙ ap (slice stream (base + off)) (sym size) in
          let r = seg_xmit env c 24 c.snd_nxt bytes in
          let s1 = seg_xmit-Sends env base top c 24 c.snd_nxt bytes s (λ some_bytes.
            (base + off, place, stretch, omega (arith, s.from), omega (arith, size, s.end))) in
          let timed = start_timing env n r.1 in
          let s2 = start_timing-Sends env base top n r.1 s1 in
          let moved : Conn = record timed { snd_nxt = add32 timed.snd_nxt n } in
          let s3 : Sends base top moved =
            resent base top timed moved s2 refl refl refl (omega arith) s2.una in
          if_cases (Sends base top) r.0 _ _
            (λ f.
              send_loop-Sends rounds env base top (timer_start env moved) (usable - n)
                (timer_start-Sends env base top moved s3))
            (λ f. s1))

  pub send_fin-Sends :
      (env : Env) (base top : ℕ) (c : Conn) → Sends base top c → Sends base top (send_fin env c)
  unfolding send_fin
  send_fin-Sends env base top c s =
      let r = seg_xmit env c 17 c.snd_nxt [] in
      let s1 =
        seg_xmit-Sends env base top c 17 c.snd_nxt [] s (λ some_bytes. absurd (omega arith)) in
      let moved : Conn = record (r.1) { fin_sent = true; snd_nxt = add32 (r.1).snd_nxt 1 } in
      let s2 : Sends base top moved =
        resent base top r.1 moved s1 refl refl refl (omega arith) s1.una in
      if_cases (Sends base top)
        (c.snd_fin && not c.fin_sent && (c.snd_nxt == add32 c.snd_base (length c.snd_buf))) _ _
        (λ e.
          if_cases (Sends base top) r.0 _ _ (λ f. timer_start-Sends env base top moved s2)
            (λ f. s1))
        (λ e. s)

  pub send_syn-Sends :
      (env : Env) (base top flags : ℕ) (c : Conn)
      → Sends base top c
      → Sends base top (send_syn env flags c)
  unfolding send_syn
  send_syn-Sends env base top flags c s =
      let r = seg_xmit env c flags c.iss [] in
      let s1 =
        seg_xmit-Sends env base top c flags c.iss [] s (λ some_bytes. absurd (omega arith)) in
      let moved : Conn = record (r.1) { snd_nxt = (r.1).snd_base } in
      let s2 : Sends base top moved =
        resent base top r.1 moved s1 refl refl refl (omega (arith, s1.start)) s1.una in
      if_cases (Sends base top) (seq_lt c.snd_nxt c.snd_base) _ _
        (λ e.
          if_cases (Sends base top) r.0 _ _ (λ f. timer_start-Sends env base top moved s2)
            (λ f. s1))
        (λ e. s)
