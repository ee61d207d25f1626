-- ===== src/Tcp/Rounds.antt =====
-- src/net_ip.c: the rounds of ooo_drain, what they leave and when they end.
use rvos.Common.{
  ℕ, zero, suc, ◌+◌, ◌≤◌, ◌≡◌, refl, ◌∙◌, sym, subst, Bool, false, ◌||◌, Option, none, some, List,
  [], ◌∷◌, length, if◌then◌else◌, arith, All, Bool-cases, inl, inr,
}
use rvos.Tcp.{Conn, Held}
use rvos.Tcp.Receive.{drain_slot, drain_pass, ooo_drain}
use rvos.Tcp.Reassembly.{Queued, HeldAt, Drained, drain_slot-Drained}

-- The bytes of the held segments, and how many there are.
abbrev pub held_bytes : List (Option Held) → ℕ
held_bytes [] = 0
held_bytes (none ∷ os) = held_bytes os
held_bytes (some (s, bytes) ∷ os) = length bytes + held_bytes os

abbrev pub held_count : List (Option Held) → ℕ
held_count [] = 0
held_count (none ∷ os) = held_count os
held_count (some h ∷ os) = 1 + held_count os

or-false : (a b : Bool) → (a || b) ≡ false → (a ≡ false) × (b ≡ false)
or-false a b h = ground arith

module _ (stream : ℕ → ℕ) (top : ℕ) where
  -- The state of the receiver between two segments: all that is held is ahead of rcv_nxt.
  pub record Receives (base : ℕ) (c : Conn) : Type 0 where
    pub queued : Queued stream top base c
    pub ahead : All (HeldAt stream top (base + length c.rxq)) c.ooo

module _ (stream : ℕ → ℕ) (top : ℕ) (alive : ℕ → Bool) where
  pub drain_pass-Drained :
      (base : ℕ) (c : Conn) (os : List (Option Held))
      → Queued stream top base c
      → All (HeldAt stream top base) os
      → let r = drain_pass alive c os in Drained stream top base c r.0 r.1 r.2
  unfolding drain_pass
  drain_pass-Drained base c [] q h = record {
    queued = q;
    held = tt;
    grows = omega arith;
    still = λ e. refl;
    ahead = λ e. tt;
  }
  drain_pass-Drained base c (o ∷ os) q h =
      let first = drain_slot-Drained stream top alive base c o q h.0 in
      let r = drain_slot alive c o in
      let rest = drain_pass-Drained base r.0 os first.queued h.1 in
      let r2 = drain_pass alive r.0 os in
      record {
        queued = rest.queued;
        held = (first.held.0, rest.held);
        grows = omega (arith, first.grows, rest.grows);
        still = λ e. let both = or-false r.2 r2.2 e in rest.still both.1 ∙ first.still both.0;
        ahead = λ e.
            let both = or-false r.2 r2.2 e in
            (
              (first.ahead both.0).0,
              subst (λ n. All (HeldAt stream top (base + n)) r2.1) (first.still both.0)
                  (rest.ahead both.1),
            );
      }

  pub ooo_drain-Receives :
      (base rounds : ℕ) (c c1 : Conn)
      → Queued stream top base c
      → All (HeldAt stream top base) c.ooo
      → ooo_drain alive rounds c ≡ some c1
      → Receives stream top base c1 × (length c.rxq ≤ length c1.rxq)
  unfolding ooo_drain
  ooo_drain-Receives base zero c c1 q h e = absurd (cc)
  ooo_drain-Receives base (suc rounds) c c1 q h e =
      let r = drain_pass alive c c.ooo in
      let d = drain_pass-Drained base c c.ooo q h in
      let c2 = record (r.0) { ooo = r.1 } in
      let q2 : Queued stream top base c2 = record {
        bytes = d.queued.bytes;
        next = d.queued.next;
        fits = d.queued.fits;
        quiet = d.queued.quiet;
        below = d.queued.below;
        near = d.queued.near;
      } in
      elim (Bool-cases r.2) [
        | inl more ↦
            let again : ooo_drain alive rounds c2 ≡ some c1 =
              subst (λ b. (if b then ooo_drain alive rounds c2 else some c2) ≡ some c1) more e in
            let rest = ooo_drain-Receives base rounds c2 c1 q2 d.held again in
            (rest.0, omega (arith, d.grows, rest.1))
        | inr done ↦
            let over : c2 ≡ c1 =
              let same : (some c2) ≡ some c1 =
                subst (λ b. (if b then ooo_drain alive rounds c2 else some c2) ≡ some c1) done e in
              cc in
            let still =
              subst (λ n. All (HeldAt stream top (base + n)) r.1) (sym (d.still done))
                (d.ahead done) in
            let r2 : Receives stream top base c2 = record { queued = q2; ahead = still } in
            (
              subst (Receives stream top base) over r2,
              subst (λ k. length c.rxq ≤ length k.rxq) over d.grows,
            )
      ]
