-- ===== src/Tcp/Reading.antt =====
-- src/net_ip.c: the receiver of a connection as a program reads from it, and as the peer writes on.
use rvos.Common.{
  if_cases, ℕ, ◌+◌, ◌-◌, ◌%◌, ◌^◌, ◌≤◌, ◌<◌, min, ◌≡◌, refl, ap, ◌∙◌, sym, subst, Option, none,
  some, List, [], ◌∷◌, length, take, drop, ◌==◌, ◌&&◌, arith, All,
}
use rvos.Tcp.{Conn, Held, rx_queue}
use rvos.Tcp.Streams.{slice, length-slice, take-slice, drop-slice}
use rvos.Tcp.Reassembly.{HeldAt}
use rvos.Tcp.Rounds.{Receives}
use rvos.Tcp.Enough.{length-drop}
use rvos.Tcp.Output.{Env, rcv_window, send_ack}
use rvos.Tcp.Acks.{is_established, conn_drop, conn_take}
use rvos.Tcp.Kept.{RcvSide, Kept, send_ack-Kept}

module _ (stream : ℕ → ℕ) where
  pub HeldAt-later :
      (top top' at : ℕ) (os : List (Option Held))
      → top ≤ top'
      → All (HeldAt stream top at) os
      → All (HeldAt stream top' at) os
  HeldAt-later top top' at [] le h = tt
  HeldAt-later top top' at (none ∷ os) le h = (tt, HeldAt-later top top' at os le h.1)
  HeldAt-later top top' at (some (s, bytes) ∷ os) le h =
      let g = h.0 in ((g.0, g.1, g.2, g.3, omega (arith, g.4)), HeldAt-later top top' at os le h.1)

  pub Receives-later :
      (top top' base : ℕ) (c : Conn)
      → top ≤ top'
      → top' + 4096 < base + 2 ^ 31
      → Receives stream top base c
      → Receives stream top' base c
  Receives-later top top' base c le near r =
      let q = r.queued in
      record {
        queued = record {
          bytes = q.bytes;
          next = q.next;
          fits = q.fits;
          quiet = q.quiet;
          below = omega (arith, q.below);
          near = near;
        };
        ahead = HeldAt-later top top' (base + length c.rxq) c.ooo le r.ahead;
      }

  pub Receives-same :
      (top base : ℕ) (c c1 : Conn)
      → Receives stream top base c
      → c1.rxq ≡ c.rxq
      → c1.rcv_nxt ≡ c.rcv_nxt
      → c1.intr_task ≡ c.intr_task
      → c1.ooo ≡ c.ooo
      → Receives stream top base c1
  Receives-same top base c c1 r x n i o =
      let q = r.queued in
      record {
        queued = record {
          bytes = subst (λ l. l ≡ slice stream base (length l)) (sym x) q.bytes;
          next = n ∙ q.next ∙ ap (λ l. (base + length l) % 2 ^ 32) (sym x);
          fits = subst (λ l. length l ≤ rx_queue) (sym x) q.fits;
          quiet = i ∙ q.quiet;
          below = subst (λ l. base + length l ≤ top) (sym x) q.below;
          near = q.near;
        };
        ahead =
            subst (λ l. All (HeldAt stream top (base + length l)) c1.ooo) (sym x)
              (subst (All (HeldAt stream top (base + length c.rxq))) (sym o) r.ahead);
      }

  pub Kept-Receives :
      (top base : ℕ) (c c1 : Conn)
      → Kept (c.state, c.rxq, c.rcv_nxt, c.intr_task, c.ooo) c1
      → Receives stream top base c
      → Receives stream top base c1
  Kept-Receives top base c c1 k r =
      Receives-same top base c c1 r (ap (λ (t : RcvSide). t.1) k) (ap (λ (t : RcvSide). t.2) k)
        (ap (λ (t : RcvSide). t.3) k) (ap (λ (t : RcvSide). t.4) k)

  pub send_ack-Receives :
      (env : Env) (top base : ℕ) (c : Conn)
      → Receives stream top base c
      → Receives stream top base (send_ack env c)
  send_ack-Receives env top base c =
      Kept-Receives top base c (send_ack env c) (send_ack-Kept _ env c refl)

  -- What is taken off the front of the queue is read.
  pub conn_drop-Receives :
      (env : Env) (top base : ℕ) (c : Conn) (n : ℕ)
      → n ≤ length c.rxq
      → Receives stream top base c
      → Receives stream top (base + n) (conn_drop env c n)
  unfolding conn_drop
  conn_drop-Receives env top base c n h r =
      let q = r.queued in
      let k = length c.rxq in
      let rest = drop n c.rxq in
      let size : length rest ≡ k - n = length-drop n c.rxq in
      let short : Conn = record c { rxq = rest } in
      let place : base + n + length rest ≡ base + k = omega (arith, size) in
      let r1 : Receives stream top (base + n) short = record {
        queued = record {
          bytes =
              ap (drop n) q.bytes
              ∙ drop-slice stream base k n h
              ∙ ap (slice stream (base + n)) (sym size);
          next = q.next ∙ ap (λ p. p % 2 ^ 32) (sym place);
          fits = omega (arith, size, q.fits);
          quiet = q.quiet;
          below = omega (arith, place, q.below);
          near = omega (arith, q.near);
        };
        ahead = subst (λ p. All (HeldAt stream top p) c.ooo) (sym place) r.ahead;
      } in
      if_cases (Receives stream top (base + n)) (n == 0) _ _
        (λ e. subst (λ b. Receives stream top b c) (ground arith) r)
        (λ e.
          if_cases (Receives stream top (base + n)) ((rcv_window c == 0) && is_established c.state)
            _ _ (λ f. send_ack-Receives env top (base + n) short r1) (λ f. r1))

  -- The bytes that a reader takes are the first of the queue.
  pub conn_take-Receives :
      (env : Env) (top base : ℕ) (c : Conn) (want : ℕ)
      → Receives stream top base c
      → let r = conn_take env c want in
        (r.0 ≡ slice stream base (length r.0)) × Receives stream top (base + length r.0) r.1
  unfolding conn_take
  conn_take-Receives env top base c want r =
      let n = min (length c.rxq) want in
      let took : take n c.rxq ≡ slice stream base n =
        ap (take n) r.queued.bytes ∙ take-slice stream base (length c.rxq) n (omega arith) in
      let size : length (take n c.rxq) ≡ n = ap length took ∙ length-slice stream base n in
      if_cases
        (λ (t : List ℕ × Conn).
          (t.0 ≡ slice stream base (length t.0)) × Receives stream top (base + length t.0) t.1)
        (n == 0) _ _ (λ e. (refl, subst (λ b. Receives stream top b c) (omega arith) r))
        (λ e. (
          took ∙ ap (slice stream base) (sym size),
          subst (λ m. Receives stream top (base + m) (conn_drop env c n)) (sym size)
              (conn_drop-Receives env top base c n (omega arith) r),
        ))
