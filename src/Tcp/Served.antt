-- ===== src/Tcp/Served.antt =====
-- src/net_ip.c: the bytes of the held segments that ooo_drain reaches.
use rvos.Common.{
  ℕ, zero, suc, ◌+◌, ◌-◌, ◌%◌, ◌^◌, ◌≤◌, ◌<◌, ◌≡◌, refl, ◌∙◌, sym, subst, Bool, true, Option, none,
  some, List, [], ◌∷◌, length, drop, ◌==◌, if◌then◌else◌, arith, All, Bool-cases, inl, inr,
}
use rvos.Tcp.{Conn, Held}
use rvos.Tcp.Receive.{drain_slot, drain_pass, ooo_drain}
use rvos.Tcp.Streams.{slice}
use rvos.Tcp.Reassembly.{
  taken, fed, Queued, HeldAt, length-fed, drain_slot-cases, drain_slot-Drained,
}
use rvos.Tcp.Rounds.{drain_pass-Drained, ooo_drain-Receives}

module _ (stream : ℕ → ℕ) (top : ℕ) where
  -- A held segment of the stream, behind `low`: where it starts at `end` or before, it ends there or
  -- before.
  abbrev pub Served : ℕ → ℕ → Option Held → Type 0
  Served low end none = Unit {0}
  Served low end (some (s, bytes)) =
      (p : ℕ) × (s ≡ p % 2 ^ 32)
      × (bytes ≡ slice stream p (length bytes))
      × (low < p)
      × (p + length bytes ≤ top)
      × (p ≤ end → p + length bytes ≤ end)

  pub HeldAt-Served :
      (low end : ℕ) (os : List (Option Held))
      → low ≤ end
      → All (HeldAt stream top end) os
      → All (Served low end) os
  HeldAt-Served low end [] le h = tt
  HeldAt-Served low end (none ∷ os) le h = (tt, HeldAt-Served low end os le h.1)
  HeldAt-Served low end (some (s, bytes) ∷ os) le h =
      let g = h.0 in
      let far = g.3 in
      (
        (g.0, g.1, g.2, omega arith, g.4, λ (reached : g.0 ≤ end). absurd (omega arith)),
        HeldAt-Served low end os le h.1,
      )

module _ (stream : ℕ → ℕ) (top : ℕ) (alive : ℕ → Bool) where
  -- What a slot loses is in the queue.
  drain_slot-Served :
      (base end : ℕ) (c : Conn) (o : Option Held)
      → Queued stream top base c
      → HeldAt stream top base o
      → let r = drain_slot alive c o in
        base + length (r.0).rxq ≤ end
        → Served stream top base end r.1
        → Served stream top base end o
  unfolding drain_slot
  drain_slot-Served base end c none q h le served = tt
  drain_slot-Served base end c (some (s, bytes)) q h le served =
      let Slot = λ (r : Conn × Option Held × Bool).
        (base + length (r.0).rxq ≤ end)
        → Served stream top base end r.1
        → Served stream top base end (some (s, bytes)) in
      let within : h.0 + length bytes ≤ end → Served stream top base end (some (s, bytes)) =
        λ done. (h.0, h.1, h.2, h.3, h.4, λ reached. done) in
      elim (drain_slot-cases stream top alive base c s bytes q h) [
        | inl (far, e) ↦ subst Slot (sym e) (λ l k. k) le served
        | inr (inl (past, e)) ↦ subst Slot (sym e) (λ l k. within (omega arith)) le served
        | inr (inr (from, to, e)) ↦
            let skip = base + length c.rxq - h.0 in
            let rest = drop skip bytes in
            let grown = length-fed stream top base c rest in
            let moved : Slot (
              fed c rest,
              (if taken c rest == length bytes - skip then none else some (s, bytes)),
              true,
            ) =
              λ l k. elim (Bool-cases (taken c rest == length bytes - skip)) [
                | inl all ↦ within (ground (arith, grown))
                | inr some_left ↦
                    subst (λ b. Served stream top base end (if b then none else some (s, bytes)))
                      some_left k
              ] in
            subst Slot (sym e) moved le served
      ]

  drain_pass-Served :
      (base end : ℕ) (c : Conn) (os : List (Option Held))
      → Queued stream top base c
      → All (HeldAt stream top base) os
      → let r = drain_pass alive c os in
        base + length (r.0).rxq ≤ end
        → All (Served stream top base end) r.1
        → All (Served stream top base end) os
  unfolding drain_pass
  drain_pass-Served base end c [] q h le served = tt
  drain_pass-Served base end c (o ∷ os) q h le served =
      let first = drain_slot-Drained stream top alive base c o q h.0 in
      let r = drain_slot alive c o in
      let rest = drain_pass-Drained stream top alive base r.0 os first.queued h.1 in
      (
        drain_slot-Served base end c o q h.0 (omega (arith, rest.grows)) served.0,
        drain_pass-Served base end r.0 os first.queued h.1 le served.1,
      )

  -- Where ooo_drain returns, every held segment that it reaches is in the queue to its end.
  pub ooo_drain-Served :
      (base rounds : ℕ) (c c1 : Conn)
      → Queued stream top base c
      → All (HeldAt stream top base) c.ooo
      → ooo_drain alive rounds c ≡ some c1
      → All (Served stream top base (base + length c1.rxq)) c.ooo
  unfolding ooo_drain
  ooo_drain-Served base zero c c1 q h e = absurd (cc)
  ooo_drain-Served base (suc rounds) c c1 q h e =
      let r = drain_pass alive c c.ooo in
      let d = drain_pass-Drained stream top alive base c c.ooo q h in
      let c2 = record (r.0) { ooo = r.1 } in
      let q2 : Queued stream top base c2 = record {
        bytes = d.queued.bytes;
        next = d.queued.next;
        fits = d.queued.fits;
        quiet = d.queued.quiet;
        below = d.queued.below;
        near = d.queued.near;
      } in
      elim (Bool-cases r.2) [
        | inl more ↦
            let again : ooo_drain alive rounds c2 ≡ some c1 =
              subst (λ b. (if b then ooo_drain alive rounds c2 else some c2) ≡ some c1) more e in
            let grows = (ooo_drain-Receives stream top alive base rounds c2 c1 q2 d.held again).1 in
            drain_pass-Served base (base + length c1.rxq) c c.ooo q h (omega (arith, grows))
              (ooo_drain-Served base rounds c2 c1 q2 d.held again)
        | inr done ↦
            let over : c2 ≡ c1 =
              let same : (some c2) ≡ some c1 =
                subst (λ b. (if b then ooo_drain alive rounds c2 else some c2) ≡ some c1) done e in
              cc in
            let size : length c1.rxq ≡ length (r.0).rxq =
              subst (λ (k : Conn). length k.rxq ≡ length (r.0).rxq) over refl in
            let still =
              subst (λ n. All (HeldAt stream top (base + n)) r.1) (sym (d.still done) ∙ sym size)
                (d.ahead done) in
            drain_pass-Served base (base + length c1.rxq) c c.ooo q h (omega (arith, size))
              (HeldAt-Served stream top base (base + length c1.rxq) r.1 (omega arith) still)
      ]
