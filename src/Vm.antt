-- ===== src/Vm.antt =====
-- src/vm.c: Sv39 page tables in physical memory, and copies between address spaces.
-- A null pointer or address is 0; a call that returns -1 gives `false`.
pub mod Copy
pub mod Tests
use Prim.Native.Nat.{bit_or}
use rvos.Common.{
  ℕ, zero, suc, ◌+◌, ◌-◌, ◌*◌, ◌/◌, ◌%◌, ◌^◌, Bool, true, false, ◌&&◌, ◌||◌, Option, none, some,
  ltb, leb, ◌==◌, ◌!=◌, if◌then◌else◌, min,
}
use rvos.Common.Words.{add64}
use rvos.Memory.{Memory, load64, store64, memcpy}
use rvos.Pmm.{Machine, pgsize, pmm_free, pmm_alloc}

-- The flag tests of src/riscv.h: PTE_V is bit 0, and R, W, X are bits 1 to 3.
abbrev pub pte_valid : ℕ → Bool
pte_valid pte = pte % 2 == 1

abbrev pub pte_is_leaf : ℕ → Bool
pte_is_leaf pte = (pte / 2) % 8 != 0

abbrev pub pa2pte : ℕ → ℕ
pa2pte pa = pa / 2 ^ 12 * 2 ^ 10

abbrev pub pte2pa : ℕ → ℕ
pte2pa pte = pte / 2 ^ 10 * 2 ^ 12 % 2 ^ 64

-- PGSIZE << (9 * level)
abbrev pub page_size : ℕ → ℕ
page_size level = pgsize * 512 ^ level

-- PX(level, va)
unfoldable pub px : ℕ → ℕ → ℕ
px level va = va / page_size level % 512

-- `&pt[PX(level, va)]`
abbrev pub slot : ℕ → ℕ → ℕ → ℕ
slot pt level va = pt + 8 * px level va

-- The loop of walk, by the levels above `stop`. PTE_V is added to a PTE whose flags are clear.
pub walk_loop : Bool → ℕ → ℕ → ℕ → ℕ → Machine → Option ℕ × Machine
walk_loop alloc va stop zero pt s = (some (slot pt stop va), s)
walk_loop alloc va stop (suc n) pt s =
    let at = slot pt (stop + suc n) va in
    let pte = load64 s.mem at in
    elim (pte_valid pte) [
      | true ↦ elim (pte_is_leaf pte) [
        | true ↦ (none, s)
        | false ↦ walk_loop alloc va stop n (pte2pa pte) s
      ]
      | false ↦ elim alloc [
        | false ↦ (none, s)
        | true ↦
            let (next, t) = pmm_alloc s in
            elim (next == 0) [
              | true ↦ (none, t)
              | false ↦
                  walk_loop alloc va stop n next
                    (record t { mem = store64 t.mem at (pa2pte next + 1) })
            ]
      ]
    ]

pub walk : Machine → ℕ → ℕ → Bool → ℕ → Option ℕ × Machine
walk s pt va alloc stop_level = walk_loop alloc va stop_level (2 - stop_level) pt s

-- PTE_V, PTE_A and PTE_D beside the permission, whose bits are 1 to 4.
abbrev pub leaf_pte : ℕ → ℕ → ℕ
leaf_pte pa perm = pa2pte pa + bit_or perm 0xc1

-- One round for each page from `a` to `last`.
pub map_loop : ℕ → ℕ → ℕ → ℕ → ℕ → ℕ → ℕ → Machine → Bool × Machine
map_loop zero pt a last pa perm level s = (false, s)
map_loop (suc rounds) pt a last pa perm level s =
    let (pte, t) = walk s pt a true level in
    elim pte [
      | none ↦ (false, t)
      | some at ↦
          let mapped = record t { mem = store64 t.mem at (leaf_pte pa perm) } in
          elim (a == last) [
            | true ↦ (true, mapped)
            | false ↦
                map_loop rounds pt (add64 a (page_size level)) last (add64 pa (page_size level))
                  perm level mapped
          ]
    ]

-- Every caller asks for at least one byte, and the last byte does not wrap.
pub vm_map_at : Machine → ℕ → ℕ → ℕ → ℕ → ℕ → ℕ → Bool × Machine
vm_map_at s pt va pa size perm level =
    let psz = page_size level in
    let a = va / psz * psz in
    let last = (va + size - 1) / psz * psz in
    map_loop (suc ((last - a) / psz)) pt a last pa perm level s

pub vm_unmap_page : Machine → ℕ → ℕ → Bool × Machine
vm_unmap_page s pt va = elim (walk s pt va false 0).0 [
  | none ↦ (false, s)
  | some at ↦
      let pte = load64 s.mem at in
      let cleared = record s { mem = store64 s.mem at 0 } in
      if pte_valid pte
      then (true, if pte2pa pte != va then pmm_free cleared (pte2pa pte) else cleared)
      else (false, s)
]

-- The loop of vm_translate_in, by level + 1.
unfoldable pub translate_loop : Memory → ℕ → ℕ → ℕ → ℕ
translate_loop m va zero pt = 0
translate_loop m va (suc level) pt =
    let pte = load64 m (slot pt level va) in
    let next = translate_loop m va level (pte2pa pte) in
    if pte_valid pte
    then (if pte_is_leaf pte then bit_or (pte2pa pte) (va % page_size level) else next)
    else 0

unfoldable pub translate : Memory → ℕ → ℕ → ℕ
translate m pt va = translate_loop m va 3 pt

-- How much of `len` bytes one round moves: to the nearer page end, and no more than is left.
pub fragment : ℕ → ℕ → ℕ → ℕ
fragment sva dva len =
    let n = pgsize - sva % pgsize in
    let m = pgsize - dva % pgsize in
    let k = if ltb m n then m else n in if ltb len k then len else k

-- Each round moves at least one byte, so that `len` rounds are enough (Vm/Copy.antt).
unfoldable pub copy_loop : ℕ → ℕ → ℕ → ℕ → ℕ → ℕ → Memory → Bool × Memory
copy_loop zero dpt dva spt sva len m = (true, m)
copy_loop (suc rounds) dpt dva spt sva len m =
    let spa = translate m spt sva in
    let dpa = translate m dpt dva in
    let n = fragment sva dva len in
    let rest =
      copy_loop rounds dpt (add64 dva n) spt (add64 sva n) (len - n) (memcpy m dpa spa n) in
    if len == 0 then (true, m) else if (spa == 0) || (dpa == 0) then (false, m) else rest

unfoldable pub vm_copy_across : Memory → ℕ → ℕ → ℕ → ℕ → ℕ → Bool × Memory
vm_copy_across m dpt dva spt sva len = copy_loop len dpt dva spt sva len m

-- The 512 entries of one table; `below` frees the table under an entry.
pub free_entries : (ℕ → ℕ → Machine → Machine) → ℕ → ℕ → ℕ → ℕ → ℕ → Machine → Machine
free_entries below zero i pt level vabase s = s
free_entries below (suc left) i pt level vabase s =
    let pte = load64 s.mem (pt + 8 * i) in
    let va = vabase + i * page_size level in
    let pa = pte2pa pte in
    let after =
      if pte_valid pte
      then (if pte_is_leaf pte
          then (if pa != va then pmm_free s pa else s)
          else pmm_free (below pa va s) pa)
      else s in
    free_entries below left (i + 1) pt level vabase after

-- By level + 1. Below level 0 there are only leaves.
pub free_walk : ℕ → ℕ → ℕ → Machine → Machine
free_walk zero pt vabase s = s
free_walk (suc level) pt vabase s =
    free_entries (λ pa va t. free_walk level pa va t) 512 0 pt level vabase s

-- `t->pt` is cleared by the caller.
pub vm_free_task : Machine → ℕ → Machine
vm_free_task s pt = if pt == 0 then s else pmm_free (free_walk 3 pt 0 s) pt
