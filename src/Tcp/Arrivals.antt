-- ===== src/Tcp/Arrivals.antt =====
-- src/net_ip.c: a segment of the stream of the peer that arrives at rcv_data, in order or not.
use rvos.Common.{
  ℕ, ◌+◌, ◌-◌, ◌%◌, ◌^◌, ◌≤◌, ◌<◌, ◌≡◌, ◌⊎◌, Bool, false, Option, none, some, List, [], ◌∷◌, length,
  drop, ltb, leb, ◌==◌, arith, All, Bool-cases, leb→le, inl, inr,
}
use rvos.Tcp.{Conn, Held, add32, sub32, seq_lt, seq_le}
use rvos.Tcp.Receive.{ooo_drain, put_held, ooo_store, rcv_data}
use rvos.Tcp.Streams.{slice, seq_lt-near, seq_le-near, sub32-near}
use rvos.Tcp.Reassembly.{fed, take_in-quiet, Queued, HeldAt}

pub put_held-All :
    (P : Option Held → Type 0) (h : Held) (os : List (Option Held))
    → P (some h)
    → All P os
    → All P (put_held h os)
unfolding put_held
put_held-All P h [] new all = tt
put_held-All P h (none ∷ os) new all = (new, all.1)
put_held-All P h (some g ∷ os) new all = (all.0, put_held-All P h os new all.1)

module _ (stream : ℕ → ℕ) (top : ℕ) where
  -- The bytes are those of the stream at the place `p`, which the number says, and the place is less
  -- than 2 ^ 31 behind where the stream has got to.
  pub record Arrives (base : ℕ) (c : Conn) (p seq : ℕ) (bytes : List ℕ) : Type 0 where
    pub number : seq ≡ p % 2 ^ 32
    pub carried : bytes ≡ slice stream p (length bytes)
    pub recent : base + length c.rxq < p + 2 ^ 31
    pub within : p + length bytes ≤ top

  pub HeldAt-lower :
      (low low' : ℕ) (os : List (Option Held))
      → low' ≤ low
      → All (HeldAt stream top low) os
      → All (HeldAt stream top low') os
  HeldAt-lower low low' [] le h = tt
  HeldAt-lower low low' (none ∷ os) le h = (tt, HeldAt-lower low low' os le h.1)
  HeldAt-lower low low' (some (s, bytes) ∷ os) le h =
      let g = h.0 in ((g.0, g.1, g.2, omega arith, g.4), HeldAt-lower low low' os le h.1)

  -- What rcv_data does with a segment, by where it stands.
  pub rcv_data-cases :
      (alive : ℕ → Bool) (room : Bool) (rounds base : ℕ) (c : Conn) (p seq : ℕ) (bytes : List ℕ)
      → Queued stream top base c
      → Arrives base c p seq bytes
      → ((p + length bytes ≤ base + length c.rxq)
          × (rcv_data alive room rounds c seq bytes ≡ some c))
        ⊎ ((p ≤ base + length c.rxq)
            × (base + length c.rxq < p + length bytes)
            × (rcv_data alive room rounds c seq bytes
                ≡ ooo_drain alive rounds (fed c (drop (base + length c.rxq - p) bytes))))
        ⊎ ((base + length c.rxq < p)
            × (rcv_data alive room rounds c seq bytes ≡ some (ooo_store room c seq bytes)))
  unfolding rcv_data
  rcv_data-cases alive room rounds base c p seq bytes q a =
      let pos = base + length c.rxq in
      let fits = q.fits in
      let recent = a.recent in
      let within = a.within in
      let near = q.near in
      let below = q.below in
      let old : seq_lt seq c.rcv_nxt ≡ ltb p pos =
        rw (a.number, q.next) (seq_lt-near p pos (omega arith) (omega arith)) in
      let end : add32 seq (length bytes) ≡ (p + length bytes) % 2 ^ 32 = omega (arith, a.number) in
      let past : seq_le (add32 seq (length bytes)) c.rcv_nxt ≡ leb (p + length bytes) pos =
        rw (end, q.next) (seq_le-near (p + length bytes) pos (omega arith) (omega arith)) in
      elim (Bool-cases (leb (p + length bytes) pos)) [
        | inl done ↦ inl (leb→le _ _ done, rw (past, done))
        | inr more ↦ elim (Bool-cases (ltb p pos)) [
          | inl before ↦
              let skip : sub32 c.rcv_nxt seq ≡ pos - p =
                rw (a.number, q.next)
                  (sub32-near pos p (omega arith) (omega arith) (ground arith)) in
              inr (
                inl (
                  ground arith,
                  ground arith,
                  ground (
                    arith,
                    old,
                    past,
                    more,
                    before,
                    skip,
                    take_in-quiet alive c (drop (pos - p) bytes) q.quiet,
                  ),
                ))
          | inr after ↦ elim (Bool-cases (p == pos)) [
            | inl here ↦
                let skip : pos - p ≡ 0 = ground arith in
                let same : seq ≡ c.rcv_nxt = ground (arith, a.number, q.next) in
                inr (
                  inl (
                    ground arith,
                    ground arith,
                    ground (
                      arith,
                      old,
                      past,
                      more,
                      after,
                      skip,
                      same,
                      take_in-quiet alive c (drop (pos - p) bytes) q.quiet,
                    ),
                  ))
            | inr away ↦
                let apart : (seq == c.rcv_nxt) ≡ false = ground (arith, a.number, q.next) in
                inr (inr (ground arith, rw (past, more, old, after, apart)))
          ]
        ]
      ]
