-- ===== src/Tcp/Spin.antt =====
-- src/net_ip.c: ooo_drain where the read queue is full before a held segment that is reached.
use rvos.Common.{
  ℕ, zero, suc, ◌+◌, ◌-◌, ◌^◌, ◌≤◌, ◌<◌, min, ◌≡◌, refl, ap, ◌∙◌, sym, subst, ◌⊎◌, inl, inr, Bool,
  true, false, ◌||◌, Option, none, some, List, [], ◌∷◌, length, drop, ◌==◌, arith, append-nil,
}
use rvos.Tcp.{Conn, Held, add32, sub32, seq_lt, seq_le, seq_gt, rx_queue, ooo_seg}
use rvos.Tcp.Receive.{take_in, drain_slot, drain_pass, ooo_drain, rcv_data}
use rvos.Tcp.Reassembly.{taken, fed, take_in-quiet, length-fed}

-- A held segment that starts at the number or before it and ends behind it.
abbrev pub Straddles : ℕ → Option Held → Type 0
Straddles next none = ⊥
Straddles next (some (s, bytes)) =
    (s < 2 ^ 32)
    × (length bytes ≤ ooo_seg)
    × (seq_gt s next ≡ false)
    × (seq_le (add32 s (length bytes)) next ≡ false)

abbrev pub SomeStraddles : ℕ → List (Option Held) → Type 0
SomeStraddles next [] = ⊥
SomeStraddles next (o ∷ os) = Straddles next o ⊎ SomeStraddles next os

fed-full :
    (c : Conn) (bytes : List ℕ)
    → length c.rxq ≡ rx_queue
    → c.rcv_nxt < 2 ^ 32
    → (taken c bytes ≡ 0) × (fed c bytes ≡ c)
unfolding fed taken
fed-full c bytes full word =
    let none_taken : min (length bytes) (rx_queue - length c.rxq) ≡ 0 = omega (arith, full) in
    let same : add32 c.rcv_nxt 0 ≡ c.rcv_nxt = omega arith in
    (
      none_taken,
      rw none_taken (
          ap (λ q. record c { rxq = q; rcv_nxt = add32 c.rcv_nxt 0 }) (append-nil c.rxq)
          ∙ ap (λ n. record c { rcv_nxt = n }) same),
    )

drain_slot-full :
    (alive : ℕ → Bool) (c : Conn) (o : Option Held)
    → length c.rxq ≡ rx_queue
    → c.rcv_nxt < 2 ^ 32
    → c.intr_task ≡ 0
    → let r = drain_slot alive c o in (r.0 ≡ c) × (Straddles c.rcv_nxt o → (r.1 ≡ o) × (r.2 ≡ true))
unfolding drain_slot
drain_slot-full alive c none full word quiet = (refl, λ h. absurd h)
drain_slot-full alive c (some (s, bytes)) full word quiet =
    let rest = drop (sub32 c.rcv_nxt s) bytes in
    let f = fed-full c rest full word in
    let taking : take_in alive c rest ≡ (0, c) =
      take_in-quiet alive c rest quiet
      ∙ ap (λ n. (n, fed c rest)) f.0
      ∙ ap (λ k. (let n : ℕ = 0 in n, k)) f.1 in
    (
      ground (arith, taking),
      λ (h : Straddles c.rcv_nxt (some (s, bytes))).
          let more : (0 == length bytes - sub32 c.rcv_nxt s) ≡ false =
            unfold seq_gt seq_le in ground arith in
          (rw (h.2, h.3, taking, more) refl, rw (h.2, h.3) refl),
    )

drain_pass-full :
    (alive : ℕ → Bool) (c : Conn) (os : List (Option Held))
    → length c.rxq ≡ rx_queue
    → c.rcv_nxt < 2 ^ 32
    → c.intr_task ≡ 0
    → let r = drain_pass alive c os in
      (r.0 ≡ c) × (SomeStraddles c.rcv_nxt os → SomeStraddles c.rcv_nxt r.1 × (r.2 ≡ true))
unfolding drain_pass
drain_pass-full alive c [] full word quiet = (refl, λ h. absurd h)
drain_pass-full alive c (o ∷ os) full word quiet =
    let one = drain_slot-full alive c o full word quiet in
    let r = drain_slot alive c o in
    let all = drain_pass-full alive c os full word quiet in
    let at = λ (k : Conn). drain_pass alive k os in
    let rest : at r.0 ≡ at c = ap at one.0 in
    (
      ap (λ (t : Conn × List (Option Held) × Bool). t.0) rest ∙ all.0,
      λ (h : SomeStraddles c.rcv_nxt (o ∷ os)). elim h [
        | inl here ↦
            let kept = one.1 here in
            (inl (subst (Straddles c.rcv_nxt) (sym kept.0) here), ap (λ b. b || (at r.0).2) kept.1)
        | inr there ↦
            let kept = all.1 there in
            (
              inr (
                  subst (λ (t : Conn × List (Option Held) × Bool). SomeStraddles c.rcv_nxt t.1)
                    (sym rest) kept.0),
              ground (arith, ap (λ (t : Conn × List (Option Held) × Bool). t.2) rest, kept.1),
            )
      ],
    )

pub ooo_drain-spins :
    (alive : ℕ → Bool) (rounds : ℕ) (c : Conn)
    → length c.rxq ≡ rx_queue
    → c.rcv_nxt < 2 ^ 32
    → c.intr_task ≡ 0
    → SomeStraddles c.rcv_nxt c.ooo
    → ooo_drain alive rounds c ≡ none
unfolding ooo_drain
ooo_drain-spins alive zero c full word quiet h = refl
ooo_drain-spins alive (suc rounds) c full word quiet h =
    let all = drain_pass-full alive c c.ooo full word quiet in
    let r = drain_pass alive c c.ooo in
    let kept = all.1 h in
    let with_held : Conn → Conn = λ k. record k { ooo = r.1 } in
    let c2 = with_held c in
    let again = ooo_drain-spins alive rounds c2 full word quiet kept.0 in
    let next : with_held r.0 ≡ c2 = ap with_held all.0 in
    rw kept.1 (ap (ooo_drain alive rounds) next ∙ again)

-- Where no program is nominated for the interrupt character, a segment of some bytes at rcv_nxt
-- that fills the read queue to its last byte is never done with where a held segment of at most
-- OOOSEG bytes starts at its end or before it and ends behind it: whatever the rounds, ooo_drain
-- has not returned.
pub rcv_data-spins :
    (alive : ℕ → Bool) (room : Bool) (rounds : ℕ) (c : Conn) (bytes : List ℕ)
    → c.rcv_nxt < 2 ^ 32
    → c.intr_task ≡ 0
    → 0 < length bytes
    → length bytes + length c.rxq ≡ rx_queue
    → SomeStraddles (add32 c.rcv_nxt (length bytes)) c.ooo
    → rcv_data alive room rounds c c.rcv_nxt bytes ≡ none
unfolding rcv_data
rcv_data-spins alive room rounds c bytes word quiet some_bytes fill h =
    let all : taken c bytes ≡ length bytes = unfold taken in omega arith in
    let next : (fed c bytes).rcv_nxt ≡ add32 c.rcv_nxt (length bytes) =
      unfold fed in ap (add32 c.rcv_nxt) all in
    let full : length (fed c bytes).rxq ≡ rx_queue =
      omega (arith, length-fed (λ b. 0) 0 0 c bytes, all) in
    let spin =
      ooo_drain-spins alive rounds (fed c bytes) full (omega (arith, next)) (unfold fed in quiet)
        (unfold fed in subst (λ n. SomeStraddles n c.ooo) (sym next) h) in
    let fresh : seq_lt c.rcv_nxt c.rcv_nxt ≡ false = unfold seq_lt in ground arith in
    let ends : seq_le (add32 c.rcv_nxt (length bytes)) c.rcv_nxt ≡ false =
      unfold seq_le in ground arith in
    rw (fresh, ends) (ground (arith, take_in-quiet alive c bytes quiet, spin))
