-- ===== src/Heap.antt =====
-- SYS_SBRK of src/task.c: the break of a heap moves, and pages come and go behind it.
pub mod Wrap
pub mod Tests
use rvos.Common.{
  ℕ, zero, suc, ◌+◌, ◌-◌, ◌*◌, ◌/◌, ◌%◌, ◌^◌, Bool, true, false, ◌&&◌, ◌||◌, not, Option, none,
  some, ltb, leb, ◌==◌, ◌!=◌, if◌then◌else◌, update,
}
use rvos.Common.Words.{add64, minus_one}
use rvos.Pmm.{Machine, pgsize, pg_round_up, pmm_alloc, pmm_free}
use rvos.Vm.{vm_map_at, vm_unmap_page}
use rvos.Kernel.{Kernel, Task, Tasks, ntask, is_unused}
use rvos.Ipc.{put, set_a0, fail}
use rvos.Create.{user_rw_perm, uheap_base}

abbrev pub uheap_top : ℕ
uheap_top = 0x2f00_0000

-- The pages from `a`, by the rounds that are left: where it stopped.
pub grow_loop : ℕ → ℕ → ℕ → Machine → ℕ × Machine
grow_loop zero a pt s = (a, s)
grow_loop (suc rounds) a pt s =
    let (page, s1) = pmm_alloc s in
    let (ok, s2) = vm_map_at s1 pt a page pgsize user_rw_perm 0 in
    let rest = grow_loop rounds (a + pgsize) pt s2 in
    if page == 0 then (a, s1) else if ok then rest else (a, pmm_free s2 page)

pub unmap_loop : ℕ → ℕ → ℕ → Machine → Machine
unmap_loop zero a pt s = s
unmap_loop (suc rounds) a pt s = unmap_loop rounds (a + pgsize) pt (vm_unmap_page s pt a).1

-- `for (a = from; a < to; a += PGSIZE)`, between multiples of PGSIZE.
abbrev pub pages_between : ℕ → ℕ → ℕ
pages_between from to = (to - from) / pgsize

-- One address space, one break.
abbrev pub in_space : ℕ → ℕ → Task → Task
in_space pt want t = if (t.pt == pt) && not (is_unused t.state) then record t { brk = want } else t

pub set_brks : ℕ → ℕ → ℕ → ℕ → Tasks → Tasks
set_brks zero i pt want tasks = tasks
set_brks (suc left) i pt want tasks =
    set_brks left (i + 1) pt want (update tasks i (in_space pt want (tasks i)))

-- The break is moved, and the caller reads where it was.
abbrev pub moved : Kernel → ℕ → ℕ → ℕ → Kernel
moved k cur old want =
    let tasks = set_brks ntask 0 (k.tasks cur).pt want k.tasks in
    put (record k { tasks = tasks }) cur (set_a0 (record (tasks cur) { brk = want }) old)

abbrev pub with_machine : Kernel → Machine → Kernel
with_machine k s = record k { machine = s }

pub sbrk_grow : Kernel → ℕ → ℕ → ℕ → Option Kernel
sbrk_grow k cur old want =
    let pt = (k.tasks cur).pt in
    let from = pg_round_up old in
    let to = pg_round_up want in
    let (stop, s) = grow_loop (pages_between from to) from pt k.machine in
    if ltb uheap_top want || ltb want old
    then fail k cur
    else if ltb stop to
    then fail (with_machine k (unmap_loop (pages_between from stop) from pt s)) cur
    else some (moved (with_machine k s) cur old want)

pub sbrk_shrink : Kernel → ℕ → ℕ → ℕ → Option Kernel
sbrk_shrink k cur old want =
    let pt = (k.tasks cur).pt in
    let kept = if ltb want (uheap_base + pgsize) then uheap_base + pgsize else want in
    let rounds = pages_between (pg_round_up kept) (pg_round_up old) in
    some (moved (with_machine k (unmap_loop rounds (pg_round_up kept) pt k.machine)) cur old kept)

abbrev pub with_brk : Task → Task
with_brk t = if t.brk == 0 then record t { brk = uheap_base } else t

pub sbrk : Kernel → ℕ → Option Kernel
sbrk k cur =
    let d = (k.tasks cur).ctx.x 10 in
    let k' = put k cur (with_brk (k.tasks cur)) in
    let old = (k'.tasks cur).brk in
    let want = add64 old d in
    if leb (2 ^ 63) d
    then sbrk_shrink k' cur old want
    else if d == 0
    then some (moved k' cur old want)
    else sbrk_grow k' cur old want
