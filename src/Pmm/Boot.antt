-- ===== src/Pmm/Boot.antt =====
-- pmm_init: every whole page from the end of the kernel image to the top of the arena.
use rvos.Common.{
  ℕ, zero, suc, ◌+◌, ◌-◌, ◌*◌, ◌/◌, ◌%◌, ◌^◌, ◌≤◌, ◌<◌, ◌≡◌, List, [], ◌∷◌, arith, leb, length, All,
  true, false,
}
use rvos.Pmm.{Machine, pgsize, ram_base, pmm_top, pg_round_up, pmm_free, init_loop, pmm_init}
use rvos.Pmm.FreeList.{Fresh, Holds, pmm_free-Holds}

-- `k` pages from `p` up, the last one in front.
abbrev pub pages_up : ℕ → ℕ → List ℕ → List ℕ
pages_up zero p ps = ps
pages_up (suc k) p ps = pages_up k (p + pgsize) (p ∷ ps)

pub length-pages_up : (k p : ℕ) (ps : List ℕ) → length (pages_up k p ps) ≡ k + length ps
length-pages_up zero p ps = omega arith
length-pages_up (suc k) p ps = omega (arith, length-pages_up k (p + pgsize) (p ∷ ps))

Below-Fresh : (p : ℕ) (ps : List ℕ) → All (λ q. q < p) ps → Fresh p ps
Below-Fresh p [] h = tt
Below-Fresh p (q ∷ ps) h = (λ e. omega (arith, h.0), Below-Fresh p ps h.1)

Below-mono : (p p' : ℕ) (ps : List ℕ) → p ≤ p' → All (λ q. q < p) ps → All (λ q. q < p') ps
Below-mono p p' [] le h = tt
Below-mono p p' (q ∷ ps) le h = (omega (arith, h.0), Below-mono p p' ps le h.1)

ntotal-pmm_free : (s : Machine) (p : ℕ) → (pmm_free s p).ntotal ≡ s.ntotal
unfolding pmm_free
ntotal-pmm_free s p = ground arith

init_loop-Holds :
    (rounds k p : ℕ) (s : Machine) (ps : List ℕ)
    → Holds s ps
    → s.ntotal ≡ length ps % 2 ^ 32
    → All (λ q. q < p) ps
    → p % pgsize ≡ 0
    → ram_base ≤ p
    → p + k * pgsize ≡ pmm_top
    → k ≤ rounds
    → Holds (init_loop rounds p s) (pages_up k p ps)
      × ((init_loop rounds p s).ntotal ≡ length (pages_up k p ps) % 2 ^ 32)
unfolding init_loop
init_loop-Holds zero zero p s ps h total below aligned low stop enough = (h, total)
init_loop-Holds zero (suc k) p s ps h total below aligned low stop enough = absurd (omega arith)
init_loop-Holds (suc rounds) zero p s ps h total below aligned low stop enough =
    let over : leb (p + pgsize) pmm_top ≡ false = ground arith in rw over (h, total)
init_loop-Holds (suc rounds) (suc k) p s ps h total below aligned low stop enough =
    let inside : leb (p + pgsize) pmm_top ≡ true = ground arith in
    let freed : Holds (pmm_free s p) (p ∷ ps) =
      pmm_free-Holds s p ps h (aligned, low, omega arith) (Below-Fresh p ps below) in
    rw inside (
      init_loop-Holds rounds k (p + pgsize)
        (record (pmm_free s p) { ntotal = ((pmm_free s p).ntotal + 1) % 2 ^ 32 }) (p ∷ ps)
        (record { chain = freed.chain; count = freed.count }) (omega (arith, ntotal-pmm_free s p))
        (omega arith, Below-mono p (p + pgsize) ps (omega arith) below) (omega arith) (omega arith)
        (omega arith) (omega arith))

-- At boot the counters and the list start empty, and pmm_init frees every whole page between the
-- end of the image and the top of the arena, each once: both counters give their number.
pmm_init-Holds :
    (image_end : ℕ) (s : Machine)
    → ram_base ≤ image_end
    → image_end ≤ pmm_top
    → s.freelist ≡ 0
    → s.nfree ≡ 0
    → s.ntotal ≡ 0
    → let start = pg_round_up image_end in
      let k = (pmm_top - start) / pgsize in
      let booted = pmm_init image_end s in
      Holds booted (pages_up k start []) × (booted.nfree ≡ k) × (booted.ntotal ≡ k)
unfolding pmm_init
pmm_init-Holds image_end s low high empty none_free none_total =
    let start = pg_round_up image_end in
    let k = (pmm_top - start) / pgsize in
    let (held, total) =
      init_loop-Holds ((pmm_top - ram_base) / pgsize) k start s []
        (record { chain = empty; count = none_free }) none_total tt (omega arith) (omega arith)
        (omega arith) (omega arith) in
    (
      held,
      omega (arith, held.count, length-pages_up k start []),
      omega (arith, total, length-pages_up k start []),
    )
