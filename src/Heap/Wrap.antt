-- ===== src/Heap/Wrap.antt =====
-- Giving back more than there is: a break that wraps round below zero.
use rvos.Common.{
  ℕ, ◌+◌, ◌^◌, ◌≤◌, ◌<◌, ◌≡◌, ◌≢◌, refl, ap, ◌∙◌, true, false, some, ltb, leb, arith, update_self,
}
use rvos.Common.Words.{add64}
use rvos.Pmm.{pgsize, pg_round_up}
use rvos.Kernel.{Kernel, Task, ntask}
use rvos.Ipc.{a0, put, set_a0}
use rvos.Create.{uheap_base}
use rvos.Heap.{unmap_loop, pages_between, moved, sbrk_shrink, with_brk, sbrk, set_brks}

nothing_between :
    (old want : ℕ)
    → old < 2 ^ 63
    → 2 ^ 63 ≤ want
    → want + pgsize ≤ 2 ^ 64
    → pages_between (pg_round_up want) (pg_round_up old) ≡ 0
nothing_between old want low high fits = omega arith

shrink_wraps :
    (k : Kernel) (cur old want : ℕ)
    → old < 2 ^ 63
    → 2 ^ 63 ≤ want
    → want + pgsize ≤ 2 ^ 64
    → sbrk_shrink k cur old want ≡ some (moved k cur old want)
unfolding sbrk_shrink unmap_loop
shrink_wraps k cur old want low high fits =
    let big : ltb want (uheap_base + pgsize) ≡ false = ground arith in
    rw (big, nothing_between old want low high fits) refl

own_slot :
    (k : Kernel) (cur old want : ℕ)
    → (moved k cur old want).tasks cur
      ≡ set_a0 (record (set_brks ntask 0 (k.tasks cur).pt want k.tasks cur) { brk = want }) old
own_slot k cur old want =
    let tasks = set_brks ntask 0 (k.tasks cur).pt want k.tasks in
    update_self tasks cur (set_a0 (record (tasks cur) { brk = want }) old)

brk-moved : (k : Kernel) (cur old want : ℕ) → ((moved k cur old want).tasks cur).brk ≡ want
brk-moved k cur old want = ap (λ (t : Task). t.brk) (own_slot k cur old want)

a0-moved : (k : Kernel) (cur old want : ℕ) → a0 ((moved k cur old want).tasks cur) ≡ old
a0-moved k cur old want =
    ap a0 (own_slot k cur old want)
    ∙ update_self (set_brks ntask 0 (k.tasks cur).pt want k.tasks cur).ctx.x 10 old

old_break :
    (k : Kernel) (cur : ℕ)
    → (k.tasks cur).brk ≢ 0
    → ((put k cur (with_brk (k.tasks cur))).tasks cur).brk ≡ (k.tasks cur).brk
old_break k cur set =
    ap (λ (t : Task). t.brk) (update_self k.tasks cur (with_brk (k.tasks cur))) ∙ ground arith

negative_shrinks :
    (k : Kernel) (cur : ℕ)
    → 2 ^ 63 ≤ (k.tasks cur).ctx.x 10
    → let k' = put k cur (with_brk (k.tasks cur)) in
      let old = (k'.tasks cur).brk in
      sbrk k cur ≡ sbrk_shrink k' cur old (add64 old ((k.tasks cur).ctx.x 10))
unfolding sbrk
negative_shrinks k cur negative =
    let yes_negative : leb (2 ^ 63) ((k.tasks cur).ctx.x 10) ≡ true = ground arith in
    rw yes_negative refl

-- A task with a break below 2 ^ 63 that asks to give back at least a page more than all of it
-- gives nothing back: the call succeeds, no page changes hands, and its break is the difference
-- modulo 2 ^ 64, far above the window of the heap.
pub sbrk-wraps :
    (k : Kernel) (cur : ℕ)
    → (k.tasks cur).brk ≢ 0
    → (k.tasks cur).brk < 2 ^ 63
    → 2 ^ 63 ≤ (k.tasks cur).ctx.x 10
    → (k.tasks cur).brk + (k.tasks cur).ctx.x 10 + pgsize ≤ 2 ^ 64
    → (k' : Kernel) × (sbrk k cur ≡ some k')
      × (k'.machine ≡ k.machine)
      × ((k'.tasks cur).brk ≡ (k.tasks cur).brk + (k.tasks cur).ctx.x 10)
      × (a0 (k'.tasks cur) ≡ (k.tasks cur).brk)
sbrk-wraps k cur set low negative fits =
    let k1 = put k cur (with_brk (k.tasks cur)) in
    let old : (k1.tasks cur).brk ≡ (k.tasks cur).brk = old_break k cur set in
    let want = add64 (k1.tasks cur).brk ((k.tasks cur).ctx.x 10) in
    let exact : want ≡ (k.tasks cur).brk + (k.tasks cur).ctx.x 10 = omega (arith, old) in
    (
      moved k1 cur (k1.tasks cur).brk want,
      negative_shrinks k cur negative
          ∙ shrink_wraps k1 cur (k1.tasks cur).brk want (omega (arith, old)) (omega (arith, exact))
              (omega (arith, exact)),
      refl,
      brk-moved k1 cur (k1.tasks cur).brk want ∙ exact,
      a0-moved k1 cur (k1.tasks cur).brk want ∙ old,
    )
