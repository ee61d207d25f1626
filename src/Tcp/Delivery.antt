-- ===== src/Tcp/Delivery.antt =====
-- src/net_ip.c: the receiver of a connection under rcv_data.
use rvos.Common.{
  ℕ, ◌+◌, ◌-◌, ◌≤◌, ◌<◌, min, ◌≡◌, refl, ap, ◌∙◌, sym, subst, Bool, true, false, some, List, length,
  take, drop, if◌then◌else◌, arith, length-take, inl, inr, All,
}
use rvos.Tcp.{Conn, rx_queue, ooo_seg}
use rvos.Tcp.Receive.{is_held, put_held, ooo_store, rcv_data}
use rvos.Tcp.Streams.{slice, slice_eq, take-slice-min, drop-slice}
use rvos.Tcp.Reassembly.{taken, fed, Queued, HeldAt, length-fed, fed-Queued}
use rvos.Tcp.Rounds.{Receives, held_bytes, held_count, ooo_drain-Receives}
use rvos.Tcp.Enough.{length-drop, ooo_drain-ends}
use rvos.Tcp.Served.{Served, HeldAt-Served, ooo_drain-Served}
use rvos.Tcp.Arrivals.{put_held-All, Arrives, HeldAt-lower, rcv_data-cases}

module _ (stream : ℕ → ℕ) (top : ℕ) where
  -- A segment ahead of the stream is held, or dropped.
  ooo_store-Receives :
      (room : Bool) (base : ℕ) (c : Conn) (p seq : ℕ) (bytes : List ℕ)
      → Receives stream top base c
      → Arrives stream top base c p seq bytes
      → base + length c.rxq < p
      → Receives stream top base (ooo_store room c seq bytes)
        × (length (ooo_store room c seq bytes).rxq ≡ length c.rxq)
  unfolding ooo_store
  ooo_store-Receives room base c p seq bytes r a ahead =
      let within = a.within in
      let part = take ooo_seg bytes in
      let size = length-take ooo_seg bytes in
      let whole : part ≡ slice stream p (length part) =
        ap (take ooo_seg) a.carried
        ∙ take-slice-min stream p (length bytes) ooo_seg
        ∙ slice_eq stream p p (min ooo_seg (length bytes)) (length part) refl (sym size) in
      let stored =
        put_held-All (HeldAt stream top (base + length c.rxq)) (seq, part) c.ooo
          (p, a.number, whole, ahead, omega (arith, size)) r.ahead in
      let q = r.queued in
      let put : Receives stream top base (record c { ooo = put_held (seq, part) c.ooo }) = record {
        queued = record {
          bytes = q.bytes;
          next = q.next;
          fits = q.fits;
          quiet = q.quiet;
          below = q.below;
          near = q.near;
        };
        ahead = stored;
      } in
      elim (is_held seq c.ooo)
        as (λ b.
          let c1 =
            (if b then c else if room then record c { ooo = put_held (seq, part) c.ooo } else c) in
          Receives stream top base c1 × (length c1.rxq ≡ length c.rxq)) [
            | true ↦ (r, refl)
            | false ↦
                elim room
                  as (λ b.
                    let c1 = (if b then record c { ooo = put_held (seq, part) c.ooo } else c) in
                    Receives stream top base c1 × (length c1.rxq ≡ length c.rxq)) [
                      | true ↦ (put, refl)
                      | false ↦ (r, refl)
                    ]
          ]

  -- The part of the segment from rcv_nxt on is taken in.
  fed-Arrives :
      (base : ℕ) (c : Conn) (p seq : ℕ) (bytes : List ℕ)
      → Queued stream top base c
      → Arrives stream top base c p seq bytes
      → p ≤ base + length c.rxq
      → base + length c.rxq < p + length bytes
      → Queued stream top base (fed c (drop (base + length c.rxq - p) bytes))
  fed-Arrives base c p seq bytes q a from to =
      let pos = base + length c.rxq in
      let rest = drop (pos - p) bytes in
      let cut : rest ≡ slice stream pos (length bytes - (pos - p)) =
        ap (drop (pos - p)) a.carried
        ∙ drop-slice stream p (length bytes) (pos - p) (omega arith)
        ∙ slice_eq stream (p + (pos - p)) pos (length bytes - (pos - p)) (length bytes - (pos - p))
            (omega arith) refl in
      let size = length-drop (pos - p) bytes in
      fed-Queued stream top base c rest q (cut ∙ ap (slice stream pos) (sym size))
        (omega (arith, size, a.within))

  -- Where the queue holds the bytes of the stream from `base` on up to rcv_nxt, and every held
  -- segment stands in the stream ahead of it, this is so again after rcv_data returns from a segment
  -- that carries its part of the stream, wherever it stands less than 2 ^ 31 away. No byte that was
  -- queued is lost. No program is nominated for the interrupt character.
  pub rcv_data-Receives :
      (alive : ℕ → Bool) (room : Bool) (rounds base : ℕ) (c c1 : Conn) (p seq : ℕ) (bytes : List ℕ)
      → Receives stream top base c
      → Arrives stream top base c p seq bytes
      → rcv_data alive room rounds c seq bytes ≡ some c1
      → Receives stream top base c1 × (length c.rxq ≤ length c1.rxq)
  rcv_data-Receives alive room rounds base c c1 p seq bytes r a done =
      elim (rcv_data-cases stream top alive room rounds base c p seq bytes r.queued a) [
        | inl (old, e) ↦
            let same : c ≡ c1 = cc in
            (
              subst (Receives stream top base) same r,
              subst (λ k. length c.rxq ≤ length k.rxq) same (omega arith),
            )
        | inr (inl (from, to, e)) ↦
            let rest = drop (base + length c.rxq - p) bytes in
            let lower =
              HeldAt-lower stream top (base + length c.rxq) base c.ooo (omega arith) r.ahead in
            let end =
              ooo_drain-Receives stream top alive base rounds (fed c rest) c1
                (fed-Arrives base c p seq bytes r.queued a from to) (unfold fed in lower)
                (sym e ∙ done) in
            (end.0, omega (arith, end.1, length-fed stream top base c rest))
        | inr (inr (ahead, e)) ↦
            let kept = ooo_store-Receives room base c p seq bytes r a ahead in
            let same : ooo_store room c seq bytes ≡ c1 = cc in
            (
              subst (Receives stream top base) same kept.0,
              subst (λ k. length c.rxq ≤ length k.rxq) same (omega (arith, kept.1)),
            )
      ]

  -- Where the queue holds the bytes of the stream up to rcv_nxt, every held segment stands in the
  -- stream ahead of it, no program is nominated for the interrupt character, and there is room for
  -- the segment and all that is held, one round more than there are held segments is enough for
  -- rcv_data to return from a segment that carries its part of the stream less than 2 ^ 31 behind.
  -- The queue and what is held are again so; a segment that starts at rcv_nxt or before it is
  -- delivered to its end, and so is every held segment that starts at the new rcv_nxt or before it.
  pub rcv_data-delivers :
      (alive : ℕ → Bool) (room : Bool) (rounds base : ℕ) (c : Conn) (p seq : ℕ) (bytes : List ℕ)
      → Receives stream top base c
      → Arrives stream top base c p seq bytes
      → held_bytes c.ooo + length bytes + length c.rxq ≤ rx_queue
      → held_count c.ooo < rounds
      → (c1 : Conn) × (rcv_data alive room rounds c seq bytes ≡ some c1)
        × Receives stream top base c1
        × (p ≤ base + length c.rxq → p + length bytes ≤ base + length c1.rxq)
        × All (Served stream top base (base + length c1.rxq)) c.ooo
  rcv_data-delivers alive room rounds base c p seq bytes r a space enough =
      elim (rcv_data-cases stream top alive room rounds base c p seq bytes r.queued a) [
        | inl (old, e) ↦ (
          c,
          e,
          r,
          λ h. old,
          HeldAt-Served stream top base (base + length c.rxq) c.ooo (omega arith) r.ahead,
        )
        | inr (inl (from, to, e)) ↦
            let skip = base + length c.rxq - p in
            let rest = drop skip bytes in
            let size = length-drop skip bytes in
            let all : taken c rest ≡ length bytes - skip = unfold taken in omega (arith, size) in
            let grown = length-fed stream top base c rest in
            let q = fed-Arrives base c p seq bytes r.queued a from to in
            let lower =
              HeldAt-lower stream top (base + length c.rxq) base c.ooo (omega arith) r.ahead in
            let end =
              ooo_drain-ends stream top alive base rounds (fed c rest) q (unfold fed in lower)
                (unfold fed in omega (arith, grown, all)) (unfold fed in enough) in
            let kept =
              ooo_drain-Receives stream top alive base rounds (fed c rest) end.0 q
                (unfold fed in lower) end.1 in
            let served =
              ooo_drain-Served stream top alive base rounds (fed c rest) end.0 q
                (unfold fed in lower) end.1 in
            (end.0, e ∙ end.1, kept.0, λ h. omega (arith, grown, all, kept.1), unfold fed in served)
        | inr (inr (ahead, e)) ↦
            let kept = ooo_store-Receives room base c p seq bytes r a ahead in
            let c1 = ooo_store room c seq bytes in
            (
              c1,
              e,
              kept.0,
              λ h. absurd (omega arith),
              subst (λ n. All (Served stream top base (base + n)) c.ooo) (sym kept.1)
                  (HeldAt-Served stream top base (base + length c.rxq) c.ooo (omega arith) r.ahead),
            )
      ]
