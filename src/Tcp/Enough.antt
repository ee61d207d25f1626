-- ===== src/Tcp/Enough.antt =====
-- src/net_ip.c: ooo_drain ends where the read queue has room for all that is held.
use rvos.Common.{
  ℕ, zero, suc, ◌+◌, ◌-◌, ◌≤◌, ◌<◌, ◌≡◌, refl, sym, subst, Bool, true, Option, none, some, List, [],
  ◌∷◌, length, drop, ◌==◌, if◌then◌else◌, arith, All, Bool-cases, inl, inr,
}
use rvos.Tcp.{Conn, Held, rx_queue}
use rvos.Tcp.Receive.{drain_slot, drain_pass, ooo_drain}
use rvos.Tcp.Reassembly.{taken, Queued, HeldAt, length-fed, drain_slot-cases, drain_slot-Drained}
use rvos.Tcp.Rounds.{held_bytes, held_count, drain_pass-Drained}

pub length-drop : (n : ℕ) (bs : List ℕ) → length (drop n bs) ≡ length bs - n
length-drop zero bs = omega arith
length-drop (suc n) [] = omega arith
length-drop (suc n) (b ∷ bs) = omega (arith, length-drop n bs)

held_bytes-cons :
    (o : Option Held) (os : List (Option Held))
    → held_bytes (o ∷ os) ≡ held_bytes (o ∷ []) + held_bytes os
held_bytes-cons none os = omega arith
held_bytes-cons (some (s, bytes)) os = omega arith

held_count-cons :
    (o : Option Held) (os : List (Option Held))
    → held_count (o ∷ os) ≡ held_count (o ∷ []) + held_count os
held_count-cons none os = omega arith
held_count-cons (some h) os = omega arith

-- A step of the drain with room for all that is held: the bytes go from the slots to the queue, and
-- a slot is emptied where there is progress.
record Roomy (c c1 : Conn) (os os1 : List (Option Held)) (moved : Bool) : Type 0 where
  bytes : held_bytes os1 + length c1.rxq ≤ held_bytes os + length c.rxq
  count : held_count os1 + (if moved then 1 else 0) ≤ held_count os

module _ (stream : ℕ → ℕ) (top : ℕ) (alive : ℕ → Bool) where
  drain_slot-Roomy :
      (base : ℕ) (c : Conn) (o : Option Held)
      → Queued stream top base c
      → HeldAt stream top base o
      → held_bytes (o ∷ []) + length c.rxq ≤ rx_queue
      → let r = drain_slot alive c o in Roomy c r.0 (o ∷ []) (r.1 ∷ []) r.2
  unfolding drain_slot
  drain_slot-Roomy base c none q h room = record { bytes = omega arith; count = omega arith }
  drain_slot-Roomy base c (some (s, bytes)) q h room =
      elim (drain_slot-cases stream top alive base c s bytes q h) [
        | inl (far, e) ↦ rw e (record { bytes = omega arith; count = omega arith })
        | inr (inl (past, e)) ↦ rw e (record { bytes = omega arith; count = omega arith })
        | inr (inr (from, to, e)) ↦
            let skip = base + length c.rxq - h.0 in
            let rest = drop skip bytes in
            let all : taken c rest ≡ length bytes - skip =
              unfold taken in omega (arith, length-drop skip bytes) in
            let emptied : (taken c rest == length bytes - skip) ≡ true = ground arith in
            rw (e, emptied)
              (record {
                bytes = omega (arith, length-fed stream top base c rest);
                count = omega arith;
              })
      ]

  drain_pass-Roomy :
      (base : ℕ) (c : Conn) (os : List (Option Held))
      → Queued stream top base c
      → All (HeldAt stream top base) os
      → held_bytes os + length c.rxq ≤ rx_queue
      → let r = drain_pass alive c os in Roomy c r.0 os r.1 r.2
  unfolding drain_pass
  drain_pass-Roomy base c [] q h room = record { bytes = omega arith; count = omega arith }
  drain_pass-Roomy base c (o ∷ os) q h room =
      let split = held_bytes-cons o os in
      let r = drain_slot alive c o in
      let one = drain_slot-Roomy base c o q h.0 (omega (arith, split)) in
      let first = drain_slot-Drained stream top alive base c o q h.0 in
      let r2 = drain_pass alive r.0 os in
      let rest = drain_pass-Roomy base r.0 os first.queued h.1 (omega (arith, split, one.bytes)) in
      record {
        bytes = omega (arith, split, held_bytes-cons r.1 r2.1, one.bytes, rest.bytes);
        count =
            ground (arith, held_count-cons o os, held_count-cons r.1 r2.1, one.count, rest.count);
      }

  -- One round more than there are held segments is enough.
  pub ooo_drain-ends :
      (base rounds : ℕ) (c : Conn)
      → Queued stream top base c
      → All (HeldAt stream top base) c.ooo
      → held_bytes c.ooo + length c.rxq ≤ rx_queue
      → held_count c.ooo < rounds
      → (c1 : Conn) × (ooo_drain alive rounds c ≡ some c1)
  unfolding ooo_drain
  ooo_drain-ends base zero c q h room enough = absurd (omega arith)
  ooo_drain-ends base (suc rounds) c q h room enough =
      let r = drain_pass alive c c.ooo in
      let d = drain_pass-Drained stream top alive base c c.ooo q h in
      let m = drain_pass-Roomy base c c.ooo q h room in
      let c2 = record (r.0) { ooo = r.1 } in
      let q2 : Queued stream top base c2 = record {
        bytes = d.queued.bytes;
        next = d.queued.next;
        fits = d.queued.fits;
        quiet = d.queued.quiet;
        below = d.queued.below;
        near = d.queued.near;
      } in
      elim (Bool-cases r.2) [
        | inl more ↦
            let fewer : held_count r.1 + 1 ≤ held_count c.ooo =
              subst (λ b. held_count r.1 + (if b then 1 else 0) ≤ held_count c.ooo) more m.count in
            let rest =
              ooo_drain-ends base rounds c2 q2 d.held (omega (arith, m.bytes))
                (omega (arith, fewer)) in
            (
              rest.0,
              subst (λ b. (if b then ooo_drain alive rounds c2 else some c2) ≡ some rest.0)
                  (sym more) rest.1,
            )
        | inr done ↦ (
          c2,
          subst (λ b. (if b then ooo_drain alive rounds c2 else some c2) ≡ some c2) (sym done) refl,
        )
      ]
