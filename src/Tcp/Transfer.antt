-- ===== src/Tcp/Transfer.antt =====
-- src/net_ip.c: a session from the end of the handshake on.
use rvos.Common.{
  ℕ, ◌+◌, ◌%◌, ◌^◌, ◌≤◌, ◌<◌, ◌≡◌, refl, ap, sym, subst, Option, none, List, [], ◌∷◌, length, arith,
  All,
}
use rvos.Tcp.{Held, SegmentOut}
use rvos.Tcp.Streams.{slice}
use rvos.Tcp.Reassembly.{HeldAt}
use rvos.Tcp.Sender.{Carries}
use rvos.Tcp.Sessions.{Link, Reach, Agree, Reach-Agree}

module _ (stream : ℕ → ℕ) (low : ℕ) where
  -- The handshake is over: no byte is buffered or sent, and the receiver waits for the first place.
  pub record Starts (l : Link) : Type 0 where
    pub base : l.sender.snd_base ≡ low % 2 ^ 32
    pub empty : l.sender.snd_buf ≡ []
    pub next : l.sender.snd_nxt < 2 ^ 32
    pub una : l.sender.snd_una < 2 ^ 32
    pub unsent : All (λ (seg : SegmentOut). length seg.bytes ≡ 0) l.sender.wire
    pub expected : l.receiver.rcv_nxt ≡ low % 2 ^ 32
    pub unread : l.receiver.rxq ≡ []
    pub unheld : All (λ (o : Option Held). o ≡ none) l.receiver.ooo
    pub quiet : l.receiver.intr_task ≡ 0
    pub written : l.written ≡ low
    pub unseen : l.read ≡ []

  unsent-Carries :
      (top : ℕ) (segs : List SegmentOut)
      → All (λ (seg : SegmentOut). length seg.bytes ≡ 0) segs
      → All (Carries stream low top) segs
  unsent-Carries top [] h = tt
  unsent-Carries top (seg ∷ segs) h = (
    (λ (some_bytes : 0 < length seg.bytes). absurd (omega (arith, h.0))),
    unsent-Carries top segs h.1,
  )

  unheld-HeldAt :
      (top at : ℕ) (os : List (Option Held))
      → All (λ (o : Option Held). o ≡ none) os
      → All (HeldAt stream top at) os
  unheld-HeldAt top at [] h = tt
  unheld-HeldAt top at (o ∷ os) h =
      (subst (HeldAt stream top at) (sym h.0) tt, unheld-HeldAt top at os h.1)

  Starts-Agree : (l : Link) → Starts l → Agree stream low l
  Starts-Agree l s =
      let buffered = ap length s.empty in
      let queued = ap length s.unread in
      let taken = ap length s.unseen in
      record {
        sends = (
          low,
          record {
            start = s.base;
            buffer = subst (λ b. b ≡ slice stream low (length b)) (sym s.empty) refl;
            from = omega arith;
            end = omega (arith, buffered, s.written);
            next = s.next;
            una = s.una;
            sent = unsent-Carries l.written l.sender.wire s.unsent;
          },
        );
        receives = record {
          queued = record {
            bytes =
                subst (λ q. q ≡ slice stream (low + length l.read) (length q)) (sym s.unread) refl;
            next = omega (arith, s.expected, queued, taken);
            fits = omega (arith, queued);
            quiet = s.quiet;
            below = omega (arith, queued, taken, s.written);
            near = omega (arith, taken, s.written);
          };
          ahead =
              unheld-HeldAt l.written (low + length l.read + length l.receiver.rxq) l.receiver.ooo
                s.unheld;
        };
        reading = subst (λ b. b ≡ slice stream low (length b)) (sym s.unseen) refl;
        short = omega (arith, s.written);
      }

  -- From a link whose sender has no byte buffered or sent and whose receiver waits for the first place
  -- of the stream and has no program nominated for the interrupt character: whatever is written,
  -- lost, repeated, reordered, acknowledged with whatever window, timed out and read in a session
  -- shorter than 2 ^ 31 - 8192 bytes, what is read is the first bytes of the stream that is written, in order and
  -- each once, and no more than was written.
  pub transfer_in_order :
      (l m : Link)
      → Starts l
      → Reach stream low l m
      → (m.read ≡ slice stream low (length m.read)) × (low + length m.read ≤ m.written)
  transfer_in_order l m s r =
      let b = Reach-Agree stream low (Starts-Agree l s) r in
      (b.reading, omega (arith, b.receives.queued.below))
