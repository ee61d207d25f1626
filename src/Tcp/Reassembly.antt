-- ===== src/Tcp/Reassembly.antt =====
-- src/net_ip.c: the bytes that rcv_data queues are a stretch of the stream of the peer.
use rvos.Common.{
  ℕ, ◌+◌, ◌-◌, ◌%◌, ◌^◌, ◌≤◌, ◌<◌, min, ◌≡◌, refl, ap, ◌∙◌, sym, ◌⊎◌, Bool, true, false, Option,
  none, some, List, [], ◌∷◌, ◌++◌, length, take, drop, ltb, leb, ◌==◌, if◌then◌else◌, arith,
  append-nil, All, Bool-cases, length-append, length-take, ltb→lt, leb→le, inl, inr,
}
use rvos.Tcp.{Conn, Held, add32, sub32, seq_le, seq_gt, rx_queue}
use rvos.Tcp.Receive.{rcv_accept, take_in, drain_slot}
use rvos.Tcp.Streams.{
  slice, length-slice, slice_add, slice_eq, take-slice, drop-slice, seq_le-near, seq_gt-near,
  sub32-near,
}

-- The bytes that are taken in where no program is nominated for the interrupt character.
unfoldable pub taken : Conn → List ℕ → ℕ
taken c bytes = min (length bytes) (rx_queue - length c.rxq)

unfoldable pub fed : Conn → List ℕ → Conn
fed c bytes = record c {
  rxq = c.rxq ++ take (taken c bytes) bytes;
  rcv_nxt = add32 c.rcv_nxt (taken c bytes);
}

pub take_in-quiet :
    (alive : ℕ → Bool) (c : Conn) (bytes : List ℕ)
    → c.intr_task ≡ 0
    → take_in alive c bytes ≡ (taken c bytes, fed c bytes)
unfolding take_in rcv_accept fed taken
take_in-quiet alive c bytes quiet = ground (arith, append-nil c.rxq)

-- `top` is the place up to which the peer has written.
module _ (stream : ℕ → ℕ) (top : ℕ) where
  -- The queue holds the bytes of the stream from `base` up to rcv_nxt.
  pub record Queued (base : ℕ) (c : Conn) : Type 0 where
    pub bytes : c.rxq ≡ slice stream base (length c.rxq)
    pub next : c.rcv_nxt ≡ (base + length c.rxq) % 2 ^ 32
    pub fits : length c.rxq ≤ rx_queue
    pub quiet : c.intr_task ≡ 0
    pub below : base + length c.rxq ≤ top
    pub near : top + 4096 < base + 2 ^ 31

  -- A held segment stands in the stream behind `low`.
  abbrev pub HeldAt : ℕ → Option Held → Type 0
  HeldAt low none = Unit {0}
  HeldAt low (some (s, bytes)) =
      (p : ℕ) × (s ≡ p % 2 ^ 32)
      × (bytes ≡ slice stream p (length bytes))
      × (low < p)
      × (p + length bytes ≤ top)

  pub length-fed :
      (base : ℕ) (c : Conn) (bytes : List ℕ)
      → length (fed c bytes).rxq ≡ length c.rxq + taken c bytes
  unfolding fed taken
  length-fed base c bytes =
      omega
        (arith, length-append c.rxq (take (taken c bytes) bytes), length-take (taken c bytes) bytes)

  pub fed-Queued :
      (base : ℕ) (c : Conn) (bytes : List ℕ)
      → Queued base c
      → bytes ≡ slice stream (base + length c.rxq) (length bytes)
      → base + length c.rxq + length bytes ≤ top
      → Queued base (fed c bytes)
  unfolding fed
  fed-Queued base c bytes q here within =
      let n = taken c bytes in
      let k = length c.rxq in
      let len : length (fed c bytes).rxq ≡ k + n = length-fed base c bytes in
      let below : n ≤ length bytes = unfold taken in omega arith in
      let fresh : take n bytes ≡ slice stream (base + k) n =
        ap (take n) here ∙ take-slice stream (base + k) (length bytes) n below in
      record {
        bytes =
            ap (λ l. l ++ take n bytes) q.bytes
            ∙ ap (λ l. slice stream base k ++ l) fresh
            ∙ slice_add stream base k n
            ∙ slice_eq stream base base (k + n) (length (fed c bytes).rxq) refl (sym len);
        next = omega (arith, len, q.next);
        fits = unfold taken in omega (arith, len, q.fits);
        quiet = q.quiet;
        below = omega (arith, len);
        near = q.near;
      }

  pub drain_slot-cases :
      (alive : ℕ → Bool) (base : ℕ) (c : Conn) (s : ℕ) (bytes : List ℕ)
      → Queued base c
      → (h : HeldAt base (some (s, bytes)))
      → ((base + length c.rxq < h.0)
          × (drain_slot alive c (some (s, bytes)) ≡ (c, some (s, bytes), false)))
        ⊎ ((h.0 + length bytes ≤ base + length c.rxq)
            × (drain_slot alive c (some (s, bytes)) ≡ (c, none, true)))
        ⊎ ((h.0 ≤ base + length c.rxq)
            × (base + length c.rxq < h.0 + length bytes)
            × (drain_slot alive c (some (s, bytes)) ≡ (
              fed c (drop (base + length c.rxq - h.0) bytes),
              (if taken c (drop (base + length c.rxq - h.0) bytes)
                    == length bytes - (base + length c.rxq - h.0)
                  then none
                  else some (s, bytes)),
              true,
            )))
  unfolding drain_slot
  drain_slot-cases alive base c s bytes q h =
      let pos = base + length c.rxq in
      let fits = q.fits in
      let near = q.near in
      let below = q.below in
      let after : seq_gt s c.rcv_nxt ≡ ltb pos h.0 =
        rw (h.1, q.next) (seq_gt-near h.0 pos (omega arith) (omega arith)) in
      let end : add32 s (length bytes) ≡ (h.0 + length bytes) % 2 ^ 32 = omega (arith, h.1) in
      let past : seq_le (add32 s (length bytes)) c.rcv_nxt ≡ leb (h.0 + length bytes) pos =
        rw (end, q.next) (seq_le-near (h.0 + length bytes) pos (omega arith) (omega arith)) in
      elim (Bool-cases (ltb pos h.0)) [
        | inl ahead ↦ inl (ltb→lt pos h.0 ahead, rw (after, ahead))
        | inr behind ↦
            let skip : sub32 c.rcv_nxt s ≡ pos - h.0 =
              rw (h.1, q.next) (sub32-near pos h.0 (omega arith) (omega arith) (ground arith)) in
            elim (Bool-cases (leb (h.0 + length bytes) pos)) [
              | inl done ↦ inr (inl (leb→le _ _ done, rw (after, behind, past, done)))
              | inr more ↦ inr (
                  inr (
                    ground arith,
                    ground arith,
                    rw (
                      after,
                      behind,
                      past,
                      more,
                      skip,
                      take_in-quiet alive c (drop (pos - h.0) bytes) q.quiet,
                    ),
                  ))
            ]
      ]

  -- What a step of the drain leaves: it stands still only where every segment is ahead of rcv_nxt.
  pub record Drained (base : ℕ) (c c1 : Conn) (os : List (Option Held)) (moved : Bool)
      : Type 0 where
    pub queued : Queued base c1
    pub held : All (HeldAt base) os
    pub grows : length c.rxq ≤ length c1.rxq
    pub still : moved ≡ false → length c1.rxq ≡ length c.rxq
    pub ahead : moved ≡ false → All (HeldAt (base + length c.rxq)) os

  pub drain_slot-Drained :
      (alive : ℕ → Bool) (base : ℕ) (c : Conn) (o : Option Held)
      → Queued base c
      → HeldAt base o
      → let r = drain_slot alive c o in Drained base c r.0 (r.1 ∷ []) r.2
  unfolding drain_slot
  drain_slot-Drained alive base c none q h = record {
    queued = q;
    held = (tt, tt);
    grows = omega arith;
    still = λ e. refl;
    ahead = λ e. (tt, tt);
  }
  drain_slot-Drained alive base c (some (s, bytes)) q h =
      elim (drain_slot-cases alive base c s bytes q h) [
        | inl (far, e) ↦ rw e (record {
          queued = q;
          held = (h, tt);
          grows = omega arith;
          still = λ f. refl;
          ahead = λ f. ((h.0, h.1, h.2, far, h.4), tt);
        })
        | inr (inl (past, e)) ↦ rw e (record {
          queued = q;
          held = (tt, tt);
          grows = omega arith;
          still = λ f. refl;
          ahead = λ f. (tt, tt);
        })
        | inr (inr (from, to, e)) ↦
            let pos = base + length c.rxq in
            let rest = drop (pos - h.0) bytes in
            let cut : rest ≡ slice stream pos (length bytes - (pos - h.0)) =
              ap (drop (pos - h.0)) h.2
              ∙ drop-slice stream h.0 (length bytes) (pos - h.0) (omega arith)
              ∙ slice_eq stream (h.0 + (pos - h.0)) pos (length bytes - (pos - h.0))
                  (length bytes - (pos - h.0)) (omega arith) refl in
            let size : length rest ≡ length bytes - (pos - h.0) =
              ap length cut ∙ length-slice stream pos (length bytes - (pos - h.0)) in
            let here : rest ≡ slice stream pos (length rest) =
              cut ∙ ap (slice stream pos) (sym size) in
            let left : HeldAt base
                (if taken c rest == length bytes - (pos - h.0) then none else some (s, bytes)) =
              elim (taken c rest == length bytes - (pos - h.0))
                as (λ b. HeldAt base (if b then none else some (s, bytes))) [
                  | true ↦ tt
                  | false ↦ h
                ] in
            rw e (record {
              queued = fed-Queued base c rest q here (omega (arith, size));
              held = (left, tt);
              grows = omega (arith, length-fed base c rest);
              still = λ f. absurd (cc);
              ahead = λ f. absurd (cc);
            })
      ]
