-- ===== src/Create.antt =====
-- New tasks: vm_create_task_pt and vm_load_segment of src/vm.c, and the creation of tasks of
-- src/task.c. `image_end` is `_end`; the bounds of the user text are symbols of the linker as well.
use Prim.Native.Nat.{bit_and}
use rvos.Common.{
  ℕ, zero, suc, ◌+◌, ◌-◌, ◌*◌, ◌/◌, ◌^◌, Bool, true, false, not, Option, none, some, take, ltb,
  ◌==◌, ◌!=◌, if◌then◌else◌, update,
}
use rvos.Common.Words.{add64}
use rvos.Text.{Str}
use rvos.Pmm.{Machine, pgsize, ram_base, pg_round_up, pg_round_down, pmm_alloc}
use rvos.Vm.{vm_map_at, vm_copy_across, translate}
use rvos.Kernel.{Kernel, Task, runnable, unused}
use rvos.Task.{alloc_slot}
use rvos.Namespaces.{ns_get}

-- PTE_R | PTE_W, PTE_R | PTE_W | PTE_X, and the former with PTE_U.
abbrev pub rw_perm : ℕ
rw_perm = 6

abbrev pub rwx_perm : ℕ
rwx_perm = 14

abbrev pub user_rw_perm : ℕ
user_rw_perm = 22

abbrev pub uart_base : ℕ
uart_base = 0x1000_0000

abbrev pub clint_base : ℕ
clint_base = 0x0200_0000

abbrev pub plic_base : ℕ
plic_base = 0x0c00_0000

abbrev pub plic_size : ℕ
plic_size = 0x40_0000

abbrev pub uheap_base : ℕ
uheap_base = 0x2800_0000

abbrev pub ustack_top : ℕ
ustack_top = 0x3000_0000

abbrev pub ustack_pages : ℕ
ustack_pages = 4

-- SSTATUS_SPIE, SSTATUS_SPP
abbrev pub spie : ℕ
spie = 32

abbrev pub spp : ℕ
spp = 256

abbrev pub make_satp : ℕ → ℕ
make_satp pt = 8 * 2 ^ 60 + pt / 2 ^ 12

-- An identity mapping.
abbrev pub map_same : Machine → ℕ → ℕ → ℕ → ℕ → Machine
map_same s pt base size perm = (vm_map_at s pt base base size perm 0).1

-- A page table with the kernel and its devices, out of reach of user mode; or 0.
pub vm_create_task_pt : ℕ → Machine → ℕ × Machine
vm_create_task_pt image_end s =
    let (pt, s1) = pmm_alloc s in
    let s2 = map_same s1 pt ram_base (pg_round_up image_end - ram_base) rwx_perm in
    let s3 = map_same s2 pt uart_base pgsize rw_perm in
    let s4 = map_same s3 pt clint_base 0x1_0000 rw_perm in
    let s5 = map_same s4 pt plic_base plic_size rw_perm in if pt == 0 then (0, s1) else (pt, s5)

-- The pages of a stack, downwards from its top. The code does not look at either result.
pub map_stack : ℕ → ℕ → ℕ → ℕ → Machine → Machine
map_stack zero i pt perm s = s
map_stack (suc left) i pt perm s =
    let (page, s') = pmm_alloc s in
    map_stack left (i + 1) pt perm
      (vm_map_at s' pt (ustack_top - (i + 1) * pgsize) page pgsize perm 0).1

-- The first page of a heap, and the break after it, where there is a page.
pub map_heap_page : ℕ → Machine → Task → Machine × Task
map_heap_page perm s t =
    let (page, s') = pmm_alloc s in
    if page == 0 then (s', t) else (
      (vm_map_at s' t.pt uheap_base page pgsize perm 0).1,
      record t { brk = uheap_base + pgsize },
    )

abbrev pub with_ns : Kernel → ℕ → Task → ℕ → Kernel
with_ns k i t page = record k { tasks = update k.tasks i (record t { ns = page }) }

-- A kernel task, ready to run.
pub task_create : ℕ → Kernel → Str → ℕ → Option ℕ × Kernel
task_create image_end k name entry = elim (alloc_slot k.tasks) [
  | none ↦ (none, k)
  | some (i, tasks) ↦
      let (pt, s1) = vm_create_task_pt image_end k.machine in
      let s2 = map_stack ustack_pages 0 pt rw_perm s1 in
      let (s3, t) = map_heap_page rw_perm s2 (record (tasks i) { pt = pt }) in
      let ctx = record (t.ctx) {
        x = update t.ctx.x 2 ustack_top;
        satp = make_satp pt;
        epc = entry;
        status = spp + spie;
      } in
      let t' = record t { ctx = ctx; state = runnable; name = name } in
      let (page, k') = ns_get (record k { machine = s3; tasks = tasks }) 0 in
      (some i, with_ns k' i t' page)
]

-- What a new task sees of the tree: what its parent sees.
abbrev pub inherited_ns : Kernel → ℕ × Kernel
inherited_ns k = elim k.current [ none ↦ ns_get k 0 | some c ↦ ((k.tasks c).ns, k) ]

-- An address space with no program in it. Where there is no page for it the slot stays free.
pub task_new_empty : ℕ → Kernel → Str → Option ℕ × Kernel
task_new_empty image_end k name = elim (alloc_slot k.tasks) [
  | none ↦ (none, k)
  | some (i, tasks) ↦
      let (pt, s1) = vm_create_task_pt image_end k.machine in
      let s2 = map_stack ustack_pages 0 pt user_rw_perm s1 in
      let (s3, t) = map_heap_page user_rw_perm s2 (record (tasks i) { pt = pt }) in
      let t' = record t {
        ctx = record (t.ctx) { satp = make_satp pt };
        name = take 15 name;
        state = unused;
      } in
      let (page, k') = inherited_ns (record k { machine = s3; tasks = tasks }) in
      if pt == 0
      then (none, record k { machine = s1; tasks = tasks })
      else (some i, with_ns k' i t' page)
]

-- One PT_LOAD segment: struct vmload of src/elf.h.
pub record Segment : Type 0 where
  pub va : ℕ
  pub src : ℕ
  pub filesz : ℕ
  pub memsz : ℕ
  pub perm : ℕ

-- The pages from `a` that are not mapped, by the rounds that are left.
pub load_pages : ℕ → ℕ → ℕ → ℕ → Machine → Bool × Machine
load_pages zero a pt perm s = (true, s)
load_pages (suc rounds) a pt perm s =
    let (page, s1) = pmm_alloc s in
    let (ok, s2) = vm_map_at s1 pt a page pgsize perm 0 in
    let present = translate s.mem pt a != 0 in
    let rest = load_pages rounds (a + pgsize) pt perm (if present then s else s2) in
    if present then rest else if page == 0 then (false, s1) else if ok then rest else (false, s2)

-- The permission that is asked for, read-only where there is none; PTE_U is added.
abbrev pub segment_perm : ℕ → ℕ
segment_perm perm = (if bit_and perm 14 == 0 then 2 else bit_and perm 14) + 16

pub vm_load_segment : Machine → ℕ → ℕ → Segment → Bool × Machine
vm_load_segment s pt src_pt seg =
    let start = pg_round_down seg.va in
    let finish = pg_round_up (add64 seg.va seg.memsz) in
    let (ok, s') = load_pages ((finish - start) / pgsize) start pt (segment_perm seg.perm) s in
    let (copied, mem) = vm_copy_across s'.mem pt seg.va src_pt seg.src seg.filesz in
    if not ok
    then (false, s')
    else if seg.filesz == 0
    then (true, s')
    else (copied, record s' { mem = mem })

-- A task of user programs that are part of the image: the text they share, their own data, and the
-- stack and heap of a kernel task, opened to user mode. Boot calls it, when slots are free; without a
-- free slot the code would follow a null pointer, and this is `none`.
abbrev pub open_page : ℕ → Machine → ℕ → Machine
open_page pt s va = (vm_map_at s pt va (translate s.mem pt va) pgsize user_rw_perm 0).1

pub open_stack : ℕ → ℕ → ℕ → Machine → Machine
open_stack zero i pt s = s
open_stack (suc left) i pt s =
    open_stack left (i + 1) pt (open_page pt s (ustack_top - (i + 1) * pgsize))

pub task_create_user :
    (image_end utext_start utext_end : ℕ) → Kernel → Str → ℕ → ℕ → ℕ → Option ℕ × Kernel
task_create_user image_end utext_start utext_end k name entry data_start data_end =
    let (i, k') = task_create image_end k name entry in
    elim i [
      | none ↦ (none, k')
      | some t ↦
          let pt = (k'.tasks t).pt in
          let s1 = map_same k'.machine pt utext_start (utext_end - utext_start) 26 in
          let s2 =
            if ltb data_start data_end
            then map_same s1 pt data_start (data_end - data_start) user_rw_perm
            else s1 in
          let s3 = open_page pt (open_stack ustack_pages 0 pt s2) uheap_base in
          let u = k'.tasks t in
          let started = record u { ctx = record (u.ctx) { status = spie } } in
          (some t, record k' { machine = s3; tasks = update k'.tasks t started })
    ]
