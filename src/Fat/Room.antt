-- ===== src/Fat/Room.antt =====
-- dir_run of src/fat16.c: the slots that it finds for a name are free.
use rvos.Common.{
  ℕ, zero, suc, ◌+◌, ◌≤◌, ◌<◌, ◌≡◌, refl, sym, ap, subst, ◌∙◌, inl, inr, Bool, true, ◌||◌, some,
  leb, ◌==◌, if◌then◌else◌, arith, Bool-cases, Option-cases,
}
use native.Mathlib.Decide.{ℕ_discrete}
use mathlib.Core.Option.{some-injective, none-ne-some}
use rvos.Fat.{Volume}
use rvos.Fat.Slots.{Slot, slot_ptr, slot_at}
use rvos.Fat.Cached.{Coherent, slot_of, recached, slot_ptr-Reads}
use rvos.Fat.Seen.{seen, unseen}
use rvos.Fat.Scan.{scan_fuel, run_loop, dir_run}

abbrev pub is_vacant : Slot → Bool
is_vacant d = (d 0 == 0) || (d 0 == 0xe5)

-- The slot is there, and it holds no entry.
abbrev pub Vacant : Volume → ℕ → ℕ → Type 0
Vacant v dir j = (d : Slot) × (slot_of v dir j ≡ some d) × (is_vacant d ≡ true)

abbrev started : ℕ → ℕ → ℕ → ℕ
started i run begin = if run == 0 then i else begin

run_loop-Vacant :
    (fuel : ℕ) (v : Volume) (dir count i run begin start : ℕ)
    → Coherent v
    → started i run begin + run ≡ i
    → ((j : ℕ) → i ≤ j + run → j < i → Vacant v dir j)
    → (run_loop fuel v dir count i run begin).0 ≡ some start
    → (j : ℕ) → start ≤ j
    → j < start + count
    → Vacant v dir j
unfolding run_loop
run_loop-Vacant zero v dir count i run begin start c b before h j low high =
    absurd (none-ne-some _ h)
run_loop-Vacant (suc fuel) v dir count i run begin start c b before h j low high =
    elim (Option-cases (slot_of v dir i)) [
      | inl off ↦ absurd (none-ne-some _ (rw (run_loop, unseen v dir i c off) at h))
      | inr (d, here) ↦
          let r = seen v dir i d c here in
          let w = (slot_ptr v dir i).1 in
          let byte : slot_at w r.at 0 ≡ d 0 = ap (λ (f : Slot). f 0) r.bytes in
          let here_too : is_vacant d ≡ true
              → (k : ℕ) → suc i ≤ k + suc run
              → k < suc i
              → Vacant v dir k =
            λ vacant k near below. elim (ℕ_discrete k i) [
              | yes e ↦ subst (Vacant v dir) (sym e) (d, here, vacant)
              | no ne ↦ before k (omega arith) (omega arith)
            ] in
          let back : Vacant w dir j → Vacant v dir j = λ f. (f.0, sym (r.same dir j) ∙ f.1, f.2) in
          let forth : (k : ℕ) → Vacant v dir k → Vacant w dir k =
            λ k f. (f.0, r.same dir k ∙ f.1, f.2) in
          elim (Bool-cases (is_vacant d)) [
            | inl vacant ↦ elim (Bool-cases (leb count (run + 1))) [
              | inl found ↦
                  let at : started i run begin ≡ start =
                    some-injective _ _ (rw (run_loop, r.found, byte, vacant, found) at h) in
                  here_too vacant j (ground arith) (ground arith)
              | inr short ↦
                  let rest = rw (run_loop, r.found, byte, vacant, short) at h in
                  back (
                    run_loop-Vacant fuel w dir count (i + 1) (run + 1) (started i run begin) start
                      r.coherent (ground arith)
                      (λ k near below. forth k (here_too vacant k (omega arith) (omega arith))) rest
                      j low high)
            ]
            | inr taken ↦
                let rest = rw (run_loop, r.found, byte, taken) at h in
                back (
                  run_loop-Vacant fuel w dir count (i + 1) 0 begin start r.coherent (omega arith)
                    (λ k near below. absurd (omega arith)) rest j low high)
          ]
    ]

-- With the remembered sector coherent, the slots that dir_run finds are there, next to each other, and none of them holds an entry.
pub dir_run-Vacant :
    (v : Volume) (dir count start : ℕ)
    → Coherent v
    → (dir_run v dir count).0 ≡ some start
    → (j : ℕ) → start ≤ j
    → j < start + count
    → Vacant v dir j
unfolding dir_run
dir_run-Vacant v dir count start c h =
    run_loop-Vacant scan_fuel v dir count 0 0 0 start c (omega arith)
      (λ j near below. absurd (omega arith)) h

-- Nothing but the remembered sector is changed, and that is coherent.
pub record OnlyCache (v w : Volume) : Type 0 where
  pub coherent : Coherent w
  pub kept : w ≡ recached v w.dcache_lba w.dcache w.dcache_ok

step_OnlyCache :
    (v w x : Volume)
    → w ≡ recached v w.dcache_lba w.dcache w.dcache_ok
    → OnlyCache w x
    → OnlyCache v x
step_OnlyCache v w x e h = record {
  coherent = h.coherent;
  kept = h.kept ∙ ap (λ y. recached y x.dcache_lba x.dcache x.dcache_ok) e;
}

slot_ptr-OnlyCache : (v : Volume) (dir i : ℕ) → Coherent v → OnlyCache v (slot_ptr v dir i).1
slot_ptr-OnlyCache v dir i c =
    let r = slot_ptr-Reads v dir i c in record { coherent = r.coherent; kept = r.kept }

run_loop-OnlyCache :
    (fuel : ℕ) (v : Volume) (dir count i run begin : ℕ)
    → Coherent v
    → OnlyCache v (run_loop fuel v dir count i run begin).1
unfolding run_loop
run_loop-OnlyCache zero v dir count i run begin c = record { coherent = c; kept = refl }
run_loop-OnlyCache (suc fuel) v dir count i run begin c =
    let p = slot_ptr-OnlyCache v dir i c in
    let w = (slot_ptr v dir i).1 in
    elim (Option-cases (slot_ptr v dir i).0) [
      | inl off ↦ rw (run_loop, off) p
      | inr (at, on) ↦ elim (Bool-cases (is_vacant (slot_at w at))) [
        | inr taken ↦
            rw (run_loop, on, taken)
              (step_OnlyCache v w _ p.kept
                (run_loop-OnlyCache fuel w dir count (i + 1) 0 begin p.coherent))
        | inl vacant ↦ elim (Bool-cases (leb count (run + 1))) [
          | inl found ↦ rw (run_loop, on, vacant, found) p
          | inr short ↦
              rw (run_loop, on, vacant, short)
                (step_OnlyCache v w _ p.kept (
                  run_loop-OnlyCache fuel w dir count (i + 1) (run + 1) (started i run begin)
                    p.coherent))
        ]
      ]
    ]

pub dir_run-OnlyCache :
    (v : Volume) (dir count : ℕ) → Coherent v → OnlyCache v (dir_run v dir count).1
unfolding dir_run
dir_run-OnlyCache v dir count c = run_loop-OnlyCache scan_fuel v dir count 0 0 0 c
